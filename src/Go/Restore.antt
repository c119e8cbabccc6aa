-- ===== src/Go/Restore.antt =====
-- Writes to a table that undo one another.
use csi_qsd.Base.{◌≡◌, ◌≢◌, refl, false, none, some, [], ◌∷◌, arith}
use csi_qsd.Go.Text.{Text, ◌==◌, eq_iff, ==_refl}
use csi_qsd.Go.Table.{Table, lookup, insert, delete}

module _ {ℓ} {V : Type ℓ} where
  pub delete-insert :
      (k : Text) (v : V) (m : Table V) → lookup k m ≡ none → delete k (insert k v m) ≡ m
  unfolding lookup insert delete
  delete-insert k v [] h = ground (arith, ==_refl k)
  delete-insert k v ((j, w) ∷ m) h = ground (arith, delete-insert k v m)

  -- the last write counts
  pub insert_twice : (k : Text) (v w : V) (m : Table V) → insert k w (insert k v m) ≡ insert k w m
  unfolding insert
  insert_twice k v w [] = ground (arith, ==_refl k)
  insert_twice k v w ((j, u) ∷ m) = ground (arith, insert_twice k v w m, eq_iff j k)

  -- writing what is there changes nothing
  pub insert_same : (k : Text) (v : V) (m : Table V) → lookup k m ≡ some v → insert k v m ≡ m
  unfolding lookup insert
  insert_same k v [] h = ground arith
  insert_same k v ((j, u) ∷ m) h = ground (arith, insert_same k v m)

  -- a write to a key that is there may come before a write to another key
  pub insert_comm :
      (k j : Text) (v w : V) (m : Table V)
      → (k == j) ≡ false
      → lookup k m ≢ none
      → insert k v (insert j w m) ≡ insert j w (insert k v m)
  unfolding lookup insert
  insert_comm k j v w [] other h = absurd (h refl)
  insert_comm k j v w ((i, u) ∷ m) other h =
      ground (arith, insert_comm k j v w m, eq_iff i k, eq_iff i j, eq_iff k j)
