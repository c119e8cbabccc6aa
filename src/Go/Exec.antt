-- ===== src/Go/Exec.antt =====
-- Code that reads and writes a state, may return an error and may panic. What was written before
-- the error stays written, so the state comes back beside every outcome.
use csi_qsd.Base.{Bool, true, false, Option, none, some, ◌⊎◌, inl, inr, ◌≡◌, refl}

pub data Outcome {ℓ} (E A : Type ℓ) : Type ℓ where
  ok : A → Outcome E A
  err : E → Outcome E A
  -- a run-time panic
  panic : Outcome E A
  -- the fuel of a loop ran out
  diverge : Outcome E A

abbrev pub Exec {ℓ} : Type ℓ → Type ℓ → Type ℓ → Type ℓ
Exec S E A = S → Outcome E A × S

module _ {ℓ} {S E A : Type ℓ} where
  abbrev pub pure : A → Exec S E A
  pure a s = (ok a, s)

  abbrev pub raise : E → Exec S E A
  raise e s = (err e, s)

  abbrev pub crash : Exec S E A
  crash s = (panic, s)

  -- the value of a map lookup or a nil test, or an early return
  abbrev pub from_option : E → Option A → Exec S E A
  from_option e none = raise e
  from_option e (some a) = pure a

  -- a field of a pointer that may be nil
  abbrev pub deref : Option A → Exec S E A
  deref none = crash
  deref (some a) = pure a

module _ {ℓ} {S E A B : Type ℓ} where
  abbrev continue : Outcome E A → (A → Exec S E B) → Exec S E B
  continue (ok a) f s = f a s
  continue (err e) f s = (err e, s)
  continue panic f s = (panic, s)
  continue diverge f s = (diverge, s)

  infixl 10 ◌>>=◌ ◌>>◌
  abbrev pub ◌>>=◌ : Exec S E A → (A → Exec S E B) → Exec S E B
  ◌>>=◌ m f s = continue (m s).0 f (m s).1

  abbrev pub ◌>>◌ : Exec S E A → Exec S E B → Exec S E B
  ◌>>◌ m n = m >>= λ _. n

module _ {ℓ} {E F A : Type ℓ} where
  abbrev map_err : (E → F) → Outcome E A → Outcome F A
  map_err f (ok a) = ok a
  map_err f (err e) = err (f e)
  map_err f panic = panic
  map_err f diverge = diverge

module _ {ℓ} {S E F A : Type ℓ} where
  -- `if err := m; err != nil { return f(err) }`
  abbrev pub or_fail : Exec S E A → (E → F) → Exec S F A
  or_fail m f s = (map_err f (m s).0, (m s).1)

module _ {ℓ} {S E A B : Type ℓ} where
  abbrev either : Outcome E A → (E → Exec S E B) → (A → Exec S E B) → Exec S E B
  either (ok a) g f s = f a s
  either (err e) g f s = g e s
  either panic g f s = (panic, s)
  either diverge g f s = (diverge, s)

  -- both ways on: past an error, or with the value
  abbrev pub on_either : Exec S E A → (E → Exec S E B) → (A → Exec S E B) → Exec S E B
  on_either m g f s = either (m s).0 g f (m s).1

abbrev of_error {ℓ} : {E : Type ℓ} → Option E → Outcome E Unit
of_error none = ok tt
of_error (some e) = err e

abbrev of_sum {ℓ} : {E A : Type ℓ} → E ⊎ A → Outcome E A
of_sum (inl e) = err e
of_sum (inr a) = ok a

module _ {ℓ} {S E : Type ℓ} where
  -- A call of the environment: for its error, for its result or its error, and for its value.
  abbrev pub attempt : (S → Option E × S) → Exec S E Unit
  attempt f s = (of_error (f s).0, (f s).1)

  -- an error that was computed
  abbrev pub check : Option E → Exec S E Unit
  check e s = (of_error e, s)

module _ {ℓ} {S E A : Type ℓ} where
  abbrev pub result : (S → (E ⊎ A) × S) → Exec S E A
  result f s = (of_sum (f s).0, (f s).1)

  abbrev pub observe : (S → A × S) → Exec S E A
  observe f s = (ok (f s).0, (f s).1)

abbrev pub is_ok {ℓ} : {E A : Type ℓ} → Outcome E A → Bool
is_ok (ok a) = true
is_ok _ = false

module _ {ℓ} {S E A B : Type ℓ} where
  continue_after :
      (P : S → Type ℓ) (o : Outcome E A) (f : A → Exec S E B) (s : S)
      → P s
      → ((a : A) → o ≡ ok a → P (f a s).1)
      → P (continue o f s).1
  continue_after P (ok a) f s h k = k a refl
  continue_after P (err e) f s h k = h
  continue_after P panic f s h k = h
  continue_after P diverge f s h k = h

  -- What holds after `m`, and after `f` where `m` returned, holds after both.
  pub bind_after :
      (P : S → Type ℓ) (m : Exec S E A) (f : A → Exec S E B) (s : S)
      → P (m s).1
      → ((a : A) → (m s).0 ≡ ok a → P (f a (m s).1).1)
      → P ((m >>= f) s).1
  bind_after P m f s = continue_after P (m s).0 f (m s).1

module _ {ℓ} {S E A B : Type ℓ} where
  continue_split :
      (P : S → Type ℓ) (o : Outcome E A) (f : A → Exec S E B) (s : S)
      → (is_ok o ≡ false → P s)
      → ((a : A) → o ≡ ok a → P (f a s).1)
      → P (continue o f s).1
  continue_split P (ok a) f s h k = k a refl
  continue_split P (err e) f s h k = h refl
  continue_split P panic f s h k = h refl
  continue_split P diverge f s h k = h refl

  -- What holds after `m` where it gave no value, and after `f` where it did, holds after both.
  pub bind_split :
      (P : S → Type ℓ) (m : Exec S E A) (f : A → Exec S E B) (s : S)
      → (is_ok (m s).0 ≡ false → P (m s).1)
      → ((a : A) → (m s).0 ≡ ok a → P (f a (m s).1).1)
      → P ((m >>= f) s).1
  bind_split P m f s = continue_split P (m s).0 f (m s).1

module _ {ℓ} {S E A B : Type ℓ} where
  continue_fails :
      (o : Outcome E A) (f : A → Exec S E B) (s : S)
      → ((a : A) → o ≡ ok a → is_ok (f a s).0 ≡ false)
      → is_ok (continue o f s).0 ≡ false
  continue_fails (ok a) f s k = k a refl
  continue_fails (err e) f s k = refl
  continue_fails panic f s k = refl
  continue_fails diverge f s k = refl

  -- `m` and then `f` give no value, if `f` gives none where `m` gave one.
  pub bind_fails :
      (m : Exec S E A) (f : A → Exec S E B) (s : S)
      → ((a : A) → (m s).0 ≡ ok a → is_ok (f a (m s).1).0 ≡ false)
      → is_ok ((m >>= f) s).0 ≡ false
  bind_fails m f s = continue_fails (m s).0 f (m s).1

-- The code returned, with a value or an error: it did not panic, and no loop ran out of fuel.
abbrev pub returns {ℓ} : {E A : Type ℓ} → Outcome E A → Bool
returns (ok a) = true
returns (err e) = true
returns panic = false
returns diverge = false

module _ {ℓ} {S E A B : Type ℓ} where
  continue-returns :
      (o : Outcome E A) (f : A → Exec S E B) (s : S)
      → returns o ≡ true
      → ((a : A) → o ≡ ok a → returns (f a s).0 ≡ true)
      → returns (continue o f s).0 ≡ true
  continue-returns (ok a) f s h k = k a refl
  continue-returns (err e) f s h k = refl
  continue-returns panic f s h k = h
  continue-returns diverge f s h k = h

  -- `m` and then `f` return, if `m` returns and `f` does where `m` gave a value.
  pub bind-returns :
      (m : Exec S E A) (f : A → Exec S E B) (s : S)
      → returns (m s).0 ≡ true
      → ((a : A) → (m s).0 ≡ ok a → returns (f a (m s).1).0 ≡ true)
      → returns ((m >>= f) s).0 ≡ true
  bind-returns m f s = continue-returns (m s).0 f (m s).1

module _ {ℓ} {S E : Type ℓ} where
  -- `if c { return e }`
  abbrev pub refuse : Bool → E → Exec S E Unit
  refuse true e = raise e
  refuse false e = pure tt

module _ {ℓ} {S E A : Type ℓ} where
  -- a deferred call
  abbrev pub deferring : (S → S) → Exec S E A → Exec S E A
  deferring f m s = ((m s).0, f (m s).1)

-- a value, or none
pub replied {ℓ} : {E A : Type ℓ} (o : Outcome E A) → ((a : A) × (o ≡ ok a)) ⊎ (is_ok o ≡ false)
replied (ok a) = inl (a, refl)
replied (err e) = inr refl
replied panic = inr refl
replied diverge = inr refl
