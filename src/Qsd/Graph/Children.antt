-- ===== src/Qsd/Graph/Children.antt =====
-- How many images stand on an image.
use csi_qsd.Base.{
  ℕ, ◌+◌, ◌≤◌, ◌<◌, ◌≡◌, ◌≢◌, Option, none, some, [], ◌∷◌, arith, if◌then◌else◌, length, Bool-cases,
  inl, inr, refl,
}
use csi_qsd.Go.Text.{Text, ◌==◌, eq_iff, ==_refl}
use csi_qsd.Go.Table.{Table, lookup, insert, delete, Distinct, delete_absent}
use csi_qsd.Qsd.Server.State.{QcowImage}

-- 1 if the image stands on `k`
abbrev pub points : Text → QcowImage → ℕ
points k v = if v.backing_image_id == k then 1 else 0

abbrev pub points? : Text → Option QcowImage → ℕ
points? k none = 0
points? k (some v) = points k v

-- the images that have `k` as their backing image
pub children : Text → Table QcowImage → ℕ
children k [] = 0
children k ((j, v) ∷ m) = points k v + children k m

pub children-insert :
    (k j : Text) (v : QcowImage) (m : Table QcowImage)
    → children k (insert j v m) + points? k (lookup j m) ≡ children k m + points k v
unfolding children lookup insert
children-insert k j v [] = omega arith
children-insert k j v ((i, w) ∷ m) = ground (arith, children-insert k j v m)

pub children-delete :
    (k j : Text) (m : Table QcowImage)
    → Distinct m
    → children k (delete j m) + points? k (lookup j m) ≡ children k m
unfolding children lookup delete
children-delete k j [] d = omega arith
children-delete k j ((i, w) ∷ m) d =
    ground (arith, children-delete k j m, delete_absent j m, eq_iff i j)

pub children-le-length : (k : Text) (m : Table QcowImage) → children k m ≤ length m
unfolding children
children-le-length k [] = omega arith
children-le-length k ((j, v) ∷ m) = ground (arith, children-le-length k m)

-- an image that stands on `k` is counted
pub children_pos :
    (k j : Text) (v : QcowImage) (m : Table QcowImage)
    → lookup j m ≡ some v
    → v.backing_image_id ≡ k
    → 1 ≤ children k m
unfolding children lookup
children_pos k j v [] h e = ground arith
children_pos k j v ((i, w) ∷ m) h e =
    ground (arith, children_pos k j v m, eq_iff (w.backing_image_id) k)

-- Where something is counted, it is found in the table.
pub children_found :
    (k : Text) (m : Table QcowImage)
    → Distinct m
    → 1 ≤ children k m
    → (j : Text) × (v : QcowImage) × (lookup j m ≡ some v) × (v.backing_image_id ≡ k)
unfolding children lookup
children_found k [] d h = absurd (omega arith)
children_found k ((i, w) ∷ m) d h = elim (Bool-cases (w.backing_image_id == k)) [
  | inl here ↦ (i, w, rw (==_refl i) refl, (eq_iff _ k).0 here)
  | inr there ↦
      let (j, v, found, stands) = children_found k m d.1 (ground arith) in
      (j, v, ground (arith, eq_iff i j), stands)
]

-- an image that does not stand on itself is none of its children
pub children-lt-length :
    (k : Text) (v : QcowImage) (m : Table QcowImage)
    → lookup k m ≡ some v
    → v.backing_image_id ≢ k
    → children k m < length m
unfolding children lookup
children-lt-length k v [] h apart = absurd (ground arith)
children-lt-length k v ((j, w) ∷ m) h apart =
    ground (arith, children-lt-length k v m, children-le-length k m, eq_iff w.backing_image_id k)
