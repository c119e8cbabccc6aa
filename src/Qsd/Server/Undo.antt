-- ===== src/Qsd/Server/Undo.antt =====
-- DeleteVolume of a volume that nothing stands on: it takes back what CreateVolume did.
use csi_qsd.Base.{◌≡◌, true, Bool, Option, none, some, arith, not, ◌||◌, Option-cases, inl, inr}
use csi_qsd.Go.Text.{Text, text, ◌==◌, ==_refl}
use csi_qsd.Go.Number.{is_below_one, is_positive}
use csi_qsd.Go.Table.{lookup, delete}
use csi_qsd.Go.Exec.{ok, is_ok}
use csi_qsd.Host.{Host}
use csi_qsd.Qsd.Message.{Image}
use csi_qsd.Qsd.Server.State.{QcowImage, Sys, join, images_dir}
use csi_qsd.Qsd.Server.Delete.{
  visit, collect, delete_image, delete_or_forget, clean_up, delete_if_empty_dir,
  delete_node_with_zero_reference, handle_delete_volume,
}
use csi_qsd.Qsd.Server.Effect.Deletion.{without}
use csi_qsd.Qsd.Server.Effect.Recursion.{delete_node_with_zero_reference_lem}
use csi_qsd.Qsd.Server.Layers.{clean_absent}

-- the clean-up has nothing to do: no image, or one with images on top or a reference
abbrev pub settled : Option QcowImage → Bool
settled none = true
settled (some b) = is_positive b.ref_count || not (b.volume_ref == text "")

module _ (H : Host) where
  pub clean_settled :
      (k : Text) (s : Sys H)
      → settled (lookup k s.server.images) ≡ true
      → delete_node_with_zero_reference H k s ≡ (ok tt, s)
  unfolding visit collect
  clean_settled k s h = elim (Option-cases (lookup k s.server.images)) [
    | inl absent ↦ clean_absent H k s absent
    | inr (b, found) ↦ rw (delete_node_with_zero_reference_lem H k s, found) (ground (arith, found))
  ]

  server-delete_image :
      (id : Text) (s : Sys H)
      → is_ok (delete_image H id s).0 ≡ true
      → (delete_image H id s).1.server
        ≡ record (s.server) { images = without id (lookup id s.server.images) s.server.images }
  unfolding delete_image
  server-delete_image id s done = ground arith

  module _ (image : Image) (s : Sys H) (v : QcowImage)
      (active : lookup image.id s.server.active_layers ≡ some image.id)
      (found : lookup image.id s.server.images ≡ some v) (free : is_below_one v.ref_count ≡ true)
      (done : is_ok (handle_delete_volume H image s).0 ≡ true) where
    after_image : Sys H
    after_image = (delete_image H image.id s).1

    -- the state that the clean-up of DeleteVolume starts from
    unfoldable pub before_collect : Sys H
    unfolding after_image
    before_collect = record {
      server = record (s.server) {
        images = without image.id (some v) s.server.images;
        active_layers = delete image.id s.server.active_layers;
      };
      world = (delete_if_empty_dir H (join images_dir image.id) after_image.world).1;
    }

    image_deleted : is_ok (delete_image H image.id s).0 ≡ true
    unfolding handle_delete_volume delete_or_forget
    image_deleted = ground (arith, active, found, free, ==_refl image.id, done)

    -- DeleteVolume deletes the image and the active layer, and cleans up below the image.
    pub delete_volume_collects :
        (handle_delete_volume H image s).1
        ≡ (delete_node_with_zero_reference H v.backing_image_id before_collect).1
    unfolding handle_delete_volume delete_or_forget clean_up before_collect
    delete_volume_collects = ground (
      arith,
      active,
      found,
      free,
      ==_refl image.id,
      image_deleted,
      server-delete_image image.id s image_deleted,
      done,
    )

    -- a DeleteVolume that succeeds has cleaned up without an error
    pub collect_succeeds :
        is_ok (delete_node_with_zero_reference H v.backing_image_id before_collect).0 ≡ true
    unfolding handle_delete_volume delete_or_forget clean_up before_collect
    collect_succeeds = ground (
      arith,
      active,
      found,
      free,
      ==_refl image.id,
      image_deleted,
      server-delete_image image.id s image_deleted,
      done,
    )
