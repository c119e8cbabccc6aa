-- ===== src/Qsd/Server/Layers.antt =====
-- Volumes and snapshots that still carry data: what DeleteVolume and DeleteSnapshot leave of them.
use csi_qsd.Base.{◌≡◌, refl, true, false, none, some, arith, not, ◌&&◌, Option-cases, inl, inr}
use csi_qsd.Go.Text.{Text, text, ◌==◌, ==_refl}
use csi_qsd.Go.Number.{is_below_one, is_positive}
use csi_qsd.Go.Table.{Table, lookup, insert, delete, lookup-insert}
use csi_qsd.Go.Exec.{ok}
use csi_qsd.Host.{Host}
use csi_qsd.Qsd.Message.{Image, Snapshot}
use csi_qsd.Qsd.Graph.Children.{children_pos, children-le-length}
use csi_qsd.Qsd.Graph.Invariant.{IsForest}
use csi_qsd.Qsd.Graph.Shrink.{forget-IsForest}
use csi_qsd.Qsd.Server.State.{QcowImage, Server, Sys, response_empty, join, images_dir}
use csi_qsd.Qsd.Server.Delete.{
  visit, collect, delete_or_forget, clean_up, delete_if_empty_dir, delete_node_with_zero_reference,
  handle_delete_volume,
}
use csi_qsd.Qsd.Server.Snapshots.{is_layer, delete_or_keep, handle_delete_snapshot}
use csi_qsd.Qsd.Server.Effect.Recursion.{delete_node_with_zero_reference_lem}

-- the image without its volume reference
abbrev pub forgotten : QcowImage → QcowImage
forgotten v = record v { volume_ref = text "" }

module _ (H : Host) where
  -- the clean-up changes nothing where there is no image
  pub clean_absent :
      (k : Text) (s : Sys H)
      → lookup k s.server.images ≡ none
      → delete_node_with_zero_reference H k s ≡ (ok tt, s)
  unfolding visit
  clean_absent k s h = rw (delete_node_with_zero_reference_lem H k s, h) refl

  -- nor where the image is in use
  pub clean_used :
      (k : Text) (v : QcowImage) (s : Sys H)
      → lookup k s.server.images ≡ some v
      → is_positive v.ref_count ≡ true
      → delete_node_with_zero_reference H k s ≡ (ok tt, s)
  unfolding visit collect
  clean_used k v s h used = rw (delete_node_with_zero_reference_lem H k s, h) (ground arith)

  module _ (m : Table QcowImage) (F : IsForest m) where
    -- a backing image is in use
    pub backing_used :
        (k j : Text) (v b : QcowImage)
        → lookup k m ≡ some b
        → lookup j m ≡ some v
        → v.backing_image_id ≡ k
        → is_positive b.ref_count ≡ true
    unfolding is_positive
    backing_used k j v b hb hv e =
        ground (arith, F.counted k b hb, children_pos k j v m hv e, children-le-length k m, F.small)

  -- Cleaning up below an image that stays in the table changes nothing.
  pub clean_below :
      (s : Sys H) (F : IsForest s.server.images) (j : Text) (v : QcowImage)
      → lookup j s.server.images ≡ some v
      → delete_node_with_zero_reference H v.backing_image_id s ≡ (ok tt, s)
  clean_below s F j v h = elim (Option-cases (lookup v.backing_image_id s.server.images)) [
    | inl absent ↦ clean_absent v.backing_image_id s absent
    | inr (b, found) ↦
        clean_used v.backing_image_id b s found
          (backing_used s.server.images F v.backing_image_id j v b found h refl)
  ]

  -- DeleteSnapshot of a snapshot that is in use, because images stand on it or because it is the
  -- active layer of the source, only clears its reference. It succeeds without a call of the host.
  pub delete_snapshot_used :
      (snapshot : Snapshot) (s : Sys H) (F : IsForest s.server.images) (v : QcowImage)
      → lookup snapshot.id s.server.images ≡ some v
      → (is_below_one v.ref_count
          && not (is_layer (lookup snapshot.source_volume_id s.server.active_layers) snapshot.id))
        ≡ false
      → handle_delete_snapshot H snapshot s ≡ (
        ok response_empty,
        record s {
          server = record (s.server) { images = insert snapshot.id (forgotten v) s.server.images };
        },
      )
  unfolding handle_delete_snapshot delete_or_keep
  delete_snapshot_used snapshot s F v h used =
      let t : Sys H = record s {
        server = record (s.server) { images = insert snapshot.id (forgotten v) s.server.images };
      } in
      let below : delete_node_with_zero_reference H (forgotten v).backing_image_id t ≡ (ok tt, t) =
        clean_below t (forget-IsForest s.server.images F snapshot.id v h) snapshot.id (forgotten v)
          (rw
            (
              lookup-insert snapshot.id snapshot.id (forgotten v) s.server.images,
              ==_refl snapshot.id,
            )
            refl) in
      ground (arith, h, used, below)

  -- DeleteVolume of a volume whose data lies in an active layer of its own, or that other images
  -- stand on, clears the reference of the volume's first image and forgets the active layer. No
  -- image is deleted, whatever the host answers.
  pub delete_volume_used :
      (image : Image) (s : Sys H) (F : IsForest s.server.images) (id : Text) (i v : QcowImage)
      → lookup image.id s.server.active_layers ≡ some id
      → lookup id s.server.images ≡ some i
      → (is_below_one i.ref_count && id == image.id) ≡ false
      → lookup image.id s.server.images ≡ some v
      → (handle_delete_volume H image s).1.server ≡ record (s.server) {
        images = insert image.id (forgotten v) s.server.images;
        active_layers = delete image.id s.server.active_layers;
      }
  unfolding handle_delete_volume delete_or_forget clean_up
  delete_volume_used image s F id i v active found used first =
      let m = insert image.id (forgotten v) s.server.images in
      let server : Server = record (s.server) {
        images = m;
        active_layers = delete image.id s.server.active_layers;
      } in
      let w = (delete_if_empty_dir H (join images_dir image.id) s.world).1 in
      let below =
        clean_below (record { server = server; world = w })
          (forget-IsForest s.server.images F image.id v first) image.id (forgotten v)
          (rw (lookup-insert image.id image.id (forgotten v) s.server.images, ==_refl image.id)
            refl) in
      ground (arith, active, found, used, first, below)
