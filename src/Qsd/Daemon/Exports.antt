-- ===== src/Qsd/Daemon/Exports.antt =====
-- ExposeVhostUser and DeleteExporter make and delete no node of the storage daemon.
use csi_qsd.Base.{◌≡◌, true, some, arith, ◌++◌, Option-cases, inl, inr}
use csi_qsd.Go.Text.{Text, text}
use csi_qsd.Go.Plain.{is_plain, is_plain-append}
use csi_qsd.Go.Table.{lookup}
use csi_qsd.Host.{Host}
use csi_qsd.Qsd.Message.{Image}
use csi_qsd.Qsd.Commands.Manager.{delete_exporter}
use csi_qsd.Qsd.Server.State.{QcowImage, Sys, join, socket_dir, vhost_sock}
use csi_qsd.Qsd.Server.Export.{handle_expose_vhost_user, handle_delete_exporter, remove_socket}
use csi_qsd.Qsd.Daemon.{IsDaemon}
use csi_qsd.Qsd.Daemon.Manage.{expose_vhost_user-has, delete_exporter-has}

plain_socket :
    (id : Text) → is_plain id ≡ true → is_plain (join (join socket_dir id) vhost_sock) ≡ true
unfolding is_plain text
plain_socket id p = ground (arith, is_plain-append id (text "/" ++ vhost_sock), p)

module _ (H : Host) (M : IsDaemon H) (image : Image) (s : Sys H)
    (plain : (k : Text) (v : QcowImage)
      → lookup k s.server.images ≡ some v
      → is_plain v.qsd_id ≡ true) where
  abbrev socket : Text
  socket = join (join socket_dir image.id) vhost_sock

  pub handle_expose_vhost_user-has :
      (k : Text)
      → is_plain image.id ≡ true
      → M.has k (handle_expose_vhost_user H image s).1.world ≡ M.has k s.world
  unfolding handle_expose_vhost_user remove_socket
  handle_expose_vhost_user-has k p = elim (Option-cases (lookup image.id s.server.images)) [
    | inl lost ↦ ground (arith, lost)
    | inr (i, found) ↦
        let made = (H.mkdir_all (join socket_dir image.id) s.world).1 in
        let seen = (H.stat socket made).1 in
        let removed = (H.remove socket seen).1 in
        let exposed = λ (w : H.World).
          expose_vhost_user-has H M i.qsd_id socket k w
            (ground (arith, plain image.id i found, plain_socket image.id p)) in
        ground (
          arith,
          found,
          M.mkdir_keeps (join socket_dir image.id) k s.world,
          M.stat_keeps socket k made,
          M.remove_keeps socket k seen,
          exposed seen,
          exposed removed,
        )
  ]

  pub handle_delete_exporter-has :
      (k : Text) → M.has k (handle_delete_exporter H image s).1.world ≡ M.has k s.world
  unfolding handle_delete_exporter
  handle_delete_exporter-has k = elim (Option-cases (lookup image.id s.server.images)) [
    | inl lost ↦ ground (arith, lost)
    | inr (i, found) ↦ ground (
      arith,
      found,
      delete_exporter-has H M i.qsd_id k s.world (plain image.id i found),
      M.remove_keeps (join socket_dir image.id) k (delete_exporter H i.qsd_id s.world).1,
    )
  ]
