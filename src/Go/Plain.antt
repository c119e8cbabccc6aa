-- ===== src/Go/Plain.antt =====
-- Strings that a JSON string literal takes as they are: no quote, no backslash, no control byte.
use csi_qsd.Base.{
  ℕ, zero, suc, ◌≡◌, refl, Bool, true, length, Option-cases, inl, inr, not, ◌&&◌, ◌||◌, some, [],
  ◌∷◌, ◌++◌, arith, ◌=?◌, ltb,
}
use csi_qsd.Go.Text.{Text, drop, trim_prefix, slice_to}

unfoldable pub is_plain : Text → Bool
is_plain [] = true
is_plain (c ∷ s) = not (c =? b'"' || (c =? b'\\' || ltb c 32)) && is_plain s

pub is_plain-append : (s t : Text) → is_plain (s ++ t) ≡ (is_plain s && is_plain t)
unfolding is_plain
is_plain-append [] t = refl
is_plain-append (c ∷ s) t = ground (arith, is_plain-append s t)

pub is_plain-drop : (n : ℕ) (s : Text) → is_plain s ≡ true → is_plain (drop n s) ≡ true
unfolding is_plain drop
is_plain-drop zero s h = h
is_plain-drop (suc n) [] h = refl
is_plain-drop (suc n) (c ∷ s) h = ground (arith, is_plain-drop n s)

pub is_plain-trim_prefix : (s p : Text) → is_plain s ≡ true → is_plain (trim_prefix s p) ≡ true
unfolding trim_prefix
is_plain-trim_prefix s p h = ground (arith, is_plain-drop (length p) s)

pub is_plain-slice_to :
    (n : ℕ) (s t : Text) → is_plain s ≡ true → slice_to n s ≡ some t → is_plain t ≡ true
unfolding is_plain slice_to
is_plain-slice_to zero s t h e = ground arith
is_plain-slice_to (suc n) [] t h e = ground arith
is_plain-slice_to (suc n) (c ∷ s) t h e = elim (Option-cases (slice_to n s)) [
  | inl short ↦ ground (arith, short)
  | inr (u, found) ↦ ground (arith, found, is_plain-slice_to n s u)
]
