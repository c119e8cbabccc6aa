-- ===== src/Go/Text.antt =====
-- Go strings: byte sequences, with the operations of package strings that the program uses.
use Prim.Native.Char.{code}
use csi_qsd.Base.{
  Option-cases, inl, inr, ◌+◌, ◌≤◌, ◌++◌, ltb, ℕ, zero, suc, String, ◌≡◌, refl, ◌↔◌, Bool, true,
  false, ◌&&◌, ◌||◌, Option, none, some, List, [], ◌∷◌, arith, ◌=?◌, if◌then◌else◌, length,
}

abbrev pub Text : Type 0
Text = List ℕ

codes : String → Text
codes String.[] = []
codes (String.◌∷◌ c s) = code c ∷ codes s

-- A string literal. It stays shut in proofs, so that long messages are not spelled out.
unfoldable pub text : String → Text
unfolding codes
text s = codes s

infix 50 ◌==◌
unfoldable pub ◌==◌ : Text → Text → Bool
[] == [] = true
[] == (b ∷ t) = false
(a ∷ s) == [] = false
(a ∷ s) == (b ∷ t) = a =? b && s == t

==→≡ : (s t : Text) → (s == t) ≡ true → s ≡ t
unfolding ◌==◌
==→≡ [] [] h = refl
==→≡ [] (b ∷ t) h = ground arith
==→≡ (a ∷ s) [] h = ground arith
==→≡ (a ∷ s) (b ∷ t) h = ground (arith, ==→≡ s t)

pub ==_refl : (s : Text) → (s == s) ≡ true
unfolding ◌==◌
==_refl [] = refl
==_refl (a ∷ s) = ground (arith, ==_refl s)

pub eq_iff : (s t : Text) → ((s == t) ≡ true) ↔ (s ≡ t)
eq_iff s t = (==→≡ s t, λ e. rw e (==_refl t))

-- strings.HasPrefix(s, p)
unfoldable pub has_prefix : Text → Text → Bool
has_prefix s [] = true
has_prefix [] (b ∷ p) = false
has_prefix (a ∷ s) (b ∷ p) = a =? b && has_prefix s p

-- s[n:] with n within the string
unfoldable pub drop : ℕ → Text → Text
drop zero s = s
drop (suc n) [] = []
drop (suc n) (a ∷ s) = drop n s

-- strings.TrimPrefix(s, p)
unfoldable pub trim_prefix : Text → Text → Text
unfolding has_prefix drop
trim_prefix s p = if has_prefix s p then drop (length p) s else s

-- strings.Contains(s, p)
unfoldable pub contains : Text → Text → Bool
unfolding has_prefix
contains [] p = has_prefix [] p
contains (a ∷ s) p = has_prefix (a ∷ s) p || contains s p

-- s[:n], which panics past the end
unfoldable pub slice_to : ℕ → Text → Option Text
slice_to zero s = some []
slice_to (suc n) [] = none
slice_to (suc n) (a ∷ s) = elim (slice_to n s) [ none ↦ none | some t ↦ some (a ∷ t) ]

-- the first n bytes, or all
abbrev pub take : ℕ → Text → Text
take zero s = []
take (suc n) [] = []
take (suc n) (a ∷ s) = a ∷ take n s

pub slice_to-take :
    (n : ℕ) (s : Text) → slice_to n s ≡ (if ltb (length s) n then none else some (take n s))
unfolding slice_to
slice_to-take zero s = ground arith
slice_to-take (suc n) [] = ground arith
slice_to-take (suc n) (a ∷ s) = ground (arith, slice_to-take n s)

pub length-take : (n : ℕ) (s : Text) → n ≤ length s → length (take n s) ≡ n
length-take zero s h = refl
length-take (suc n) [] h = absurd (omega arith)
length-take (suc n) (a ∷ s) h = omega (arith, length-take n s (omega arith))

pub has_prefix-append : (p s : Text) → has_prefix (p ++ s) p ≡ true
unfolding has_prefix
has_prefix-append [] s = refl
has_prefix-append (a ∷ p) s = ground (arith, has_prefix-append p s)

drop-append : (p s : Text) → drop (length p) (p ++ s) ≡ s
unfolding drop
drop-append [] s = refl
drop-append (a ∷ p) s = drop-append p s

pub trim_prefix-append : (p s : Text) → trim_prefix (p ++ s) p ≡ s
unfolding trim_prefix
trim_prefix-append p s = rw (has_prefix-append p s) (drop-append p s)

pub contains-append : (p s : Text) → contains (p ++ s) p ≡ true
unfolding contains has_prefix
contains-append [] s = elim s as (λ t. contains t [] ≡ true) [ [] ↦ refl | a ∷ t ↦ refl ]
contains-append (a ∷ p) s = ground (arith, has_prefix-append (a ∷ p) s)

pub length-append : (s t : Text) → length (s ++ t) ≡ length s + length t
length-append [] t = omega arith
length-append (a ∷ s) t = omega (arith, length-append s t)

pub length-slice_to : (n : ℕ) (s t : Text) → slice_to n s ≡ some t → length t ≡ n
unfolding slice_to
length-slice_to zero s t h = ground arith
length-slice_to (suc n) [] t h = ground arith
length-slice_to (suc n) (a ∷ s) t h = elim (Option-cases (slice_to n s)) [
  | inl short ↦ ground arith
  | inr (u, e) ↦ ground (arith, e, length-slice_to n s u e)
]
