-- ===== src/Go/Table.antt =====
-- Go maps with string keys, as association lists. The order of the entries stands for no order of
-- the program's; `range` is modelled where the program iterates.
use csi_qsd.Base.{
  ◌+◌, ◌≤◌, ◌≡◌, refl, Option, none, some, List, [], ◌∷◌, arith, if◌then◌else◌, length,
}
use csi_qsd.Go.Text.{Text, ◌==◌, eq_iff}

abbrev pub Table {ℓ} : Type ℓ → Type ℓ
Table V = List (Text × V)

module _ {ℓ} {V : Type ℓ} where
  -- v, ok := m[k]
  unfoldable pub lookup : Text → Table V → Option V
  lookup k [] = none
  lookup k ((j, v) ∷ m) = if j == k then some v else lookup k m

  -- m[k] = v
  unfoldable pub insert : Text → V → Table V → Table V
  insert key value [] = (key, value) ∷ []
  insert key value ((j, w) ∷ m) =
      let rest = insert key value m in if j == key then (j, value) ∷ m else (j, w) ∷ rest

  -- delete(m, k)
  unfoldable pub delete : Text → Table V → Table V
  delete k [] = []
  delete k ((j, w) ∷ m) = let rest = delete k m in if j == k then rest else (j, w) ∷ rest

  -- No key stands twice, as in every table that is built by `insert` and `delete`.
  abbrev pub Distinct : Table V → Type ℓ
  Distinct [] = Unit
  Distinct ((k, v) ∷ m) = (lookup k m ≡ none) × Distinct m

  pub lookup-insert :
      (key other : Text) (value : V) (t : Table V)
      → lookup other (insert key value t) ≡ (if key == other then some value else lookup other t)
  unfolding lookup insert
  lookup-insert key other value [] = ground arith
  lookup-insert key other value ((i, w) ∷ t) =
      ground
        (arith, eq_iff i key, eq_iff i other, eq_iff key other, lookup-insert key other value t)

  pub lookup-delete :
      (k j : Text) (m : Table V) → lookup j (delete k m) ≡ (if k == j then none else lookup j m)
  unfolding lookup delete
  lookup-delete k j [] = ground arith
  lookup-delete k j ((i, w) ∷ m) =
      ground (arith, lookup-delete k j m, eq_iff i k, eq_iff i j, eq_iff k j)

  pub insert-Distinct : (k : Text) (v : V) (m : Table V) → Distinct m → Distinct (insert k v m)
  unfolding lookup insert
  insert-Distinct k v [] d = (refl, tt)
  insert-Distinct k v ((j, w) ∷ m) d =
      ground (arith, insert-Distinct k v m, lookup-insert k j v m, eq_iff j k, eq_iff k j)

  pub delete-Distinct : (k : Text) (m : Table V) → Distinct m → Distinct (delete k m)
  unfolding lookup delete
  delete-Distinct k [] d = tt
  delete-Distinct k ((j, w) ∷ m) d =
      ground (arith, delete-Distinct k m, lookup-delete k j m, eq_iff j k, eq_iff k j)

  -- deleting a key that is absent changes nothing
  pub delete_absent : (k : Text) (m : Table V) → lookup k m ≡ none → delete k m ≡ m
  unfolding lookup delete
  delete_absent k [] h = refl
  delete_absent k ((j, w) ∷ m) h = ground (arith, delete_absent k m)

  pub length-insert : (k : Text) (v : V) (m : Table V) → length (insert k v m) ≤ length m + 1
  unfolding insert
  length-insert k v [] = omega arith
  length-insert k v ((j, w) ∷ m) = ground (arith, length-insert k v m)

  -- writing to a key that is there adds no entry
  pub length-insert_present :
      (k : Text) (v w : V) (m : Table V) → lookup k m ≡ some w → length (insert k v m) ≡ length m
  unfolding lookup insert
  length-insert_present k v w [] h = ground arith
  length-insert_present k v w ((j, u) ∷ m) h = ground (arith, length-insert_present k v w m)

  pub length-delete : (k : Text) (m : Table V) → length (delete k m) ≤ length m
  unfolding delete
  length-delete k [] = omega arith
  length-delete k ((j, w) ∷ m) = ground (arith, length-delete k m)

  -- deleting a key that is there makes the table smaller
  pub length-delete_lt :
      (k : Text) (v : V) (m : Table V) → lookup k m ≡ some v → length (delete k m) + 1 ≤ length m
  unfolding lookup delete
  length-delete_lt k v [] h = ground arith
  length-delete_lt k v ((j, w) ∷ m) h = ground (arith, length-delete_lt k v m, length-delete k m)
