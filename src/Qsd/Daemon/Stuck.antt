-- ===== src/Qsd/Daemon/Stuck.antt =====
-- A deletion that stops between the node and the file.
use csi_qsd.Base.{◌≡◌, ap, ◌∙◌, true, false, some, arith, Bool-cases, inl, inr}
use csi_qsd.Go.Text.{Text, ==_refl}
use csi_qsd.Go.Plain.{is_plain}
use csi_qsd.Go.Table.{lookup}
use csi_qsd.Go.Exec.{is_ok}
use csi_qsd.Host.{Host, Error}
use csi_qsd.Qsd.Commands.Manager.{delete_volume}
use csi_qsd.Qsd.Server.State.{QcowImage, Server, Sys}
use csi_qsd.Qsd.Server.Delete.{delete_image}
use csi_qsd.Qsd.Daemon.{IsDaemon}
use csi_qsd.Qsd.Daemon.Manage.{delete_volume-has, delete_volume_had}

module _ (H : Host) (M : IsDaemon H) (id : Text) (v : QcowImage)
    (plain : is_plain v.qsd_id ≡ true) where
  -- an image with no node cannot be deleted
  pub delete_image_nodeless :
      (s : Sys H)
      → lookup id s.server.images ≡ some v
      → M.has v.qsd_id s.world ≡ false
      → is_ok (delete_image H id s).0 ≡ false
  unfolding delete_image
  delete_image_nodeless s found gone =
      elim (Bool-cases (is_ok (delete_volume H v.qsd_id s.world).0)) [
        | inl done ↦
            absurd (ground (arith, gone, delete_volume_had H M v.qsd_id s.world plain done))
        | inr failed ↦ ground (arith, found, failed)
      ]

  module _ (s : Sys H) (x : Error) (found : lookup id s.server.images ≡ some v)
      (done : is_ok (delete_volume H v.qsd_id s.world).0 ≡ true)
      (kept : (H.remove v.file (delete_volume H v.qsd_id s.world).1).0 ≡ some x) where
    stuck_server :
        (is_ok (delete_image H id s).0 ≡ false) × ((delete_image H id s).1.server ≡ s.server)
    unfolding delete_image
    stuck_server = (ground (arith, found, done, kept), ground (arith, found, done, kept))

    stuck_node : M.has v.qsd_id (delete_image H id s).1.world ≡ false
    unfolding delete_image
    stuck_node = ground (
      arith,
      found,
      done,
      kept,
      M.remove_keeps v.file v.qsd_id (delete_volume H v.qsd_id s.world).1,
      delete_volume-has H M v.qsd_id v.qsd_id s.world plain,
      ==_refl v.qsd_id,
    )

    -- Where blockdev-del deletes the node of an image and then os.Remove fails on its file,
    -- deleteImage fails and leaves the server as it is, and the next deleteImage of the image fails
    -- as well, since the node is gone.
    pub delete_image_stuck :
        (is_ok (delete_image H id s).0 ≡ false)
        × ((delete_image H id s).1.server ≡ s.server)
        × (is_ok (delete_image H id (delete_image H id s).1).0 ≡ false)
    delete_image_stuck = (
      stuck_server.0,
      stuck_server.1,
      delete_image_nodeless _ (ap (λ (t : Server). lookup id t.images) stuck_server.1 ∙ found)
          stuck_node,
    )
