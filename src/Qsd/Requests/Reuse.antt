-- ===== src/Qsd/Requests/Reuse.antt =====
-- Why new images need fresh names: what CreateVolume does to a name that is in use.
use csi_qsd.Base.{◌≡◌, ap, true, some, arith, Option-cases, inl, inr}
use csi_qsd.Go.Text.{text, ◌==◌, eq_iff, ==_refl}
use csi_qsd.Go.Number.{is_positive}
use csi_qsd.Go.Table.{lookup, lookup-insert}
use csi_qsd.Go.Exec.{is_ok}
use csi_qsd.Host.{Host}
use csi_qsd.Qsd.Message.{Image}
use csi_qsd.Qsd.Graph.Children.{children, children-insert}
use csi_qsd.Qsd.Graph.Invariant.{IsForest}
use csi_qsd.Qsd.Graph.Bounds.{not_own_backing}
use csi_qsd.Qsd.Server.State.{QcowImage, Sys, generate_qsd_id}
use csi_qsd.Qsd.Server.Create.{handle_create_volume}
use csi_qsd.Qsd.Server.Effect.Creation.{new_volume, create_volume_named, create_volume_empty}

module _ (H : Host) (image : Image) (s : Sys H) (F : IsForest s.server.images) (v : QcowImage) where
  -- A CreateVolume with no source that succeeds for a name which is in use as a backing image sets
  -- that image's reference count to zero: the images are no forest any more.
  pub create_volume_again :
      lookup image.id s.server.images ≡ some v
      → is_positive v.ref_count ≡ true
      → (image.from_volume == text "") ≡ true
      → is_ok (handle_create_volume H image s).0 ≡ true
      → ¬ IsForest (handle_create_volume H image s).1.server.images
  unfolding is_positive
  create_volume_again h used root done G = elim (Option-cases (generate_qsd_id image.id)) [
    | inl e ↦ create_volume_named H image s done e
    | inr (q, e) ↦
        let w = new_volume image q (text "") 0 in
        let after = create_volume_empty H image s q e root done in
        ground (
          arith,
          ap (lookup image.id) after,
          ap (children image.id) after,
          lookup-insert image.id image.id w s.server.images,
          ==_refl image.id,
          G.counted image.id w,
          F.counted image.id v h,
          h,
          children-insert image.id image.id w s.server.images,
          not_own_backing s.server.images F image.id v h,
          eq_iff v.backing_image_id image.id,
          used,
        )
  ]
