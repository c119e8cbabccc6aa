-- ===== src/Qsd/Graph/Bounds.antt =====
-- How large the counters of a forest of images get.
use csi_qsd.Base.{
  ℕ, zero, suc, ◌+◌, ◌^◌, ◌≤◌, ◌<◌, ◌≡◌, ◌≢◌, some, [], ◌∷◌, arith, ltb, if◌then◌else◌, length,
  Option-cases, inl, inr,
}
use csi_qsd.Go.Text.{Text, text, eq_iff}
use csi_qsd.Go.Number.{increment}
use csi_qsd.Go.Table.{Table, lookup}
use csi_qsd.Qsd.Server.State.{QcowImage}
use csi_qsd.Qsd.Graph.Children.{children-lt-length}
use csi_qsd.Qsd.Graph.Invariant.{IsForest}

-- how many images have less than a depth
below : ℕ → Table QcowImage → ℕ
below n [] = 0
below n ((k, v) ∷ m) = (if ltb v.depth n then 1 else 0) + below n m

below-le-length : (n : ℕ) (m : Table QcowImage) → below n m ≤ length m
unfolding below
below-le-length n [] = omega arith
below-le-length n ((k, v) ∷ m) = ground (arith, below-le-length n m)

below_more : (n : ℕ) (m : Table QcowImage) → below n m ≤ below (suc n) m
unfolding below
below_more n [] = omega arith
below_more n ((k, v) ∷ m) = ground (arith, below_more n m)

-- an image of a depth is one more below the next
below_found :
    (n : ℕ) (k : Text) (v : QcowImage) (m : Table QcowImage)
    → lookup k m ≡ some v
    → v.depth ≡ n
    → below n m + 1 ≤ below (suc n) m
unfolding below lookup
below_found n k v [] h e = absurd (ground arith)
below_found n k v ((j, w) ∷ m) h e = ground (arith, below_found n k v m, below_more n m)

-- no image stands on itself
increment-ne : (d : ℕ) → increment d ≢ d
unfolding increment
increment-ne d e = omega arith

module _ (m : Table QcowImage) (F : IsForest m) where
  pub depth_small : (k : Text) (v : QcowImage) → lookup k m ≡ some v → v.depth < 2 ^ 32
  unfolding increment
  depth_small k v h = ground (arith, F.layered k v h)

  -- an image at a depth has a backing image one level up
  pub backing_above :
      (k : Text) (v : QcowImage)
      → lookup k m ≡ some v
      → 1 ≤ v.depth
      → (b : QcowImage) × (lookup v.backing_image_id m ≡ some b) × (v.depth ≡ b.depth + 1)
  unfolding increment
  backing_above k v h deep = elim (Option-cases (lookup v.backing_image_id m)) [
    | inl lost ↦ absurd (ground (arith, F.layered k v h))
    | inr (b, found) ↦
        (b, found, ground (arith, F.layered k v h, depth_small v.backing_image_id b found))
  ]

  -- a depth of an image, and all above, have an image
  levels :
      (gap n : ℕ) (k : Text) (v : QcowImage)
      → lookup k m ≡ some v
      → v.depth ≡ gap + n
      → (j : Text) × (w : QcowImage) × (lookup j m ≡ some w) × (w.depth ≡ n)
  levels zero n k v h e = (k, v, h, omega (arith, e))
  levels (suc gap) n k v h e =
      let (b, found, up) = backing_above k v h (omega (arith, e)) in
      levels gap n v.backing_image_id b found (omega (arith, e, up))

  below_all :
      (n gap : ℕ) (k : Text) (v : QcowImage)
      → lookup k m ≡ some v
      → v.depth ≡ gap + n
      → suc n ≤ below (suc n) m
  below_all zero gap k v h e =
      let (j, w, found, at) = levels gap zero k v h e in
      omega (arith, below_found zero j w m found at)
  below_all (suc n) gap k v h e =
      let (j, w, found, at) = levels gap (suc n) k v h e in
      omega
        (arith, below_found (suc n) j w m found at, below_all n (suc gap) k v h (omega (arith, e)))

  -- an image of a forest is less deep, and has fewer references, than there are images
  pub depth-lt-length : (k : Text) (v : QcowImage) → lookup k m ≡ some v → v.depth < length m
  depth-lt-length k v h =
      omega (arith, below_all v.depth zero k v h (omega arith), below-le-length (suc v.depth) m)

  pub not_own_backing : (k : Text) (v : QcowImage) → lookup k m ≡ some v → v.backing_image_id ≢ k
  not_own_backing k v h e = ground (
    arith,
    h,
    e,
    F.layered k v h,
    F.named,
    increment-ne v.depth,
    eq_iff v.backing_image_id (text ""),
  )

  pub ref_count-lt-length :
      (k : Text) (v : QcowImage) → lookup k m ≡ some v → v.ref_count < length m
  ref_count-lt-length k v h =
      omega (arith, F.counted k v h, children-lt-length k v m h (not_own_backing k v h))
