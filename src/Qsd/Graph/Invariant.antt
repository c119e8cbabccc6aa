-- ===== src/Qsd/Graph/Invariant.antt =====
-- The forest of images.
use csi_qsd.Base.{
  ℕ, ◌^◌, ◌<◌, ◌≡◌, ◌≢◌, true, Option, none, some, arith, if◌then◌else◌, length, ◌||◌, Bool-cases,
  leb, inl, inr,
}
use csi_qsd.Go.Text.{Text, text, ◌==◌, eq_iff}
use csi_qsd.Go.Number.{increment, is_below_one}
use csi_qsd.Go.Table.{Table, lookup, Distinct}
use csi_qsd.Qsd.Server.State.{QcowImage}
use csi_qsd.Qsd.Graph.Children.{children, children-le-length, children_found}

abbrev pub above : Option QcowImage → Option ℕ
above none = none
above (some b) = some (increment b.depth)

-- The depth of an image that stands on `backing`: 0 where there is none, and one more than that of
-- the backing image, if the table has it.
abbrev pub depth_over : Text → Table QcowImage → Option ℕ
depth_over backing m = if backing == text "" then some 0 else above (lookup backing m)

pub record IsForest (m : Table QcowImage) : Type 0 where
  -- no key stands twice, and none is empty
  pub distinct : Distinct m
  pub named : lookup (text "") m ≡ none
  -- the backing image of an image is in the table, one level higher
  pub layered :
      (k : Text) (v : QcowImage)
      → lookup k m ≡ some v
      → depth_over v.backing_image_id m ≡ some v.depth
  -- the reference count is the number of images that stand on the image
  pub counted : (k : Text) (v : QcowImage) → lookup k m ≡ some v → v.ref_count ≡ children k m
  -- the volume reference is the image's own name, or cleared
  pub owned :
      (k : Text) (v : QcowImage)
      → lookup k m ≡ some v
      → (v.volume_ref == text "" || v.volume_ref == k) ≡ true
  -- an int32 can count the images
  pub small : length m < 2 ^ 31

module _ (m : Table QcowImage) (F : IsForest m) where
  -- nothing stands on an image that is not in the table
  pub childless : (id : Text) → lookup id m ≡ none → id ≢ text "" → children id m ≡ 0
  childless id h e = elim (Bool-cases (leb 1 (children id m))) [
    | inr no_child ↦ ground arith
    | inl child ↦
        let (j, w, found, stands) = children_found id m F.distinct (ground arith) in
        absurd (ground (arith, F.layered j w found, h, eq_iff id (text "")))
  ]

  module _ (id : Text) (v : QcowImage) (h : lookup id m ≡ some v) where
    pub unreferenced : is_below_one v.ref_count ≡ true → children id m ≡ 0
    unfolding is_below_one
    unreferenced r = ground (arith, F.counted id v h, children-le-length id m, F.small)
