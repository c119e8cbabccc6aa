-- ===== src/Qsd/Server/Released.antt =====
-- Images that nothing keeps: what the clean-up does with the backing image of a deleted clone.
use csi_qsd.Base.{◌≡◌, refl, true, false, none, some, arith, if◌then◌else◌}
use csi_qsd.Go.Text.{Text, text, ◌==◌, ==_refl}
use csi_qsd.Go.Table.{Table, lookup, lookup-delete}
use csi_qsd.Go.Exec.{is_ok}
use csi_qsd.Host.{Host}
use csi_qsd.Qsd.Server.State.{QcowImage, Sys}
use csi_qsd.Qsd.Server.Delete.{visit, collect, delete_image, delete_node_with_zero_reference}
use csi_qsd.Qsd.Server.Effect.Deletion.{lower, without, images-delete_image}
use csi_qsd.Qsd.Server.Effect.Held.{delete_node_with_zero_reference-Spares}
use csi_qsd.Qsd.Server.Effect.Recursion.{delete_node_with_zero_reference_lem}
use csi_qsd.Qsd.Server.Undo.{settled}

lookup-without_self :
    (id : Text) (i : QcowImage) (m : Table QcowImage) → lookup id (without id (some i) m) ≡ none
lookup-without_self id i m =
    let rest =
      if i.backing_image_id == text ""
      then m
      else lower i.backing_image_id (lookup i.backing_image_id m) m in
    rw (lookup-delete id id rest, ==_refl id) refl

module _ (H : Host) where
  pub lookup-delete_image_self :
      (id : Text) (i : QcowImage) (s : Sys H)
      → lookup id s.server.images ≡ some i
      → is_ok (delete_image H id s).0 ≡ true
      → lookup id (delete_image H id s).1.server.images ≡ none
  lookup-delete_image_self id i s h done =
      rw (images-delete_image H id s, done, h) (lookup-without_self id i s.server.images)

  -- An image with no images on top and no reference is gone after a clean-up that succeeds.
  pub unsettled_collected :
      (id : Text) (i : QcowImage) (s : Sys H)
      → lookup id s.server.images ≡ some i
      → settled (some i) ≡ false
      → is_ok (delete_node_with_zero_reference H id s).0 ≡ true
      → lookup id (delete_node_with_zero_reference H id s).1.server.images ≡ none
  unfolding visit collect
  unsettled_collected id i s h free done =
      let t = (delete_image H id s).1 in
      let below = (delete_node_with_zero_reference-Spares H i.backing_image_id t).gone id in
      ground (
        arith,
        h,
        free,
        done,
        delete_node_with_zero_reference_lem H id s,
        lookup-delete_image_self id i s h,
        below,
      )
