-- ===== src/Qsd/Server/Export.antt =====
-- ExposeVhostUser, DeleteExporter and ListVolumes.
use csi_qsd.Base.{◌++◌, if◌then◌else◌, map}
use csi_qsd.Go.Text.{Text, text}
use csi_qsd.Go.Table.{Table}
use csi_qsd.Go.Exec.{pure, from_option, ◌>>=◌, ◌>>◌, or_fail, attempt, observe}
use csi_qsd.Host.{Host, errorf, is_exist}
use csi_qsd.Qsd.Message.{Image, Response, Volume, ResponseListVolumes}
use csi_qsd.Qsd.Commands.Manager.{expose_vhost_user, delete_exporter}
use csi_qsd.Qsd.Server.State.{
  QcowImage, Server, Handler, Failure, failed, join, socket_dir, vhost_sock, on_world, get_image,
  response_empty, response_success,
}

abbrev not_found : Text → Failure
not_found id =
    let message = text "Image " ++ (id ++ text " not found") in failed message (errorf message)

module _ (H : Host) where
  -- the removal of a socket that os.Stat reports by an os.IsExist error
  unfoldable pub remove_socket : Text → Text → Handler H Unit
  remove_socket id socket = do
    e ← observe (λ s. ((H.stat socket s.world).0, record s { world = (H.stat socket s.world).1 }))
    if is_exist e
        then or_fail (on_world H (attempt (H.remove socket))) (λ e.
          failed
            (text "Cannot create socket directory for the volume "
              ++ (id ++ (text ": " ++ e.message)))
            e)
        else pure tt

  -- Server.ExposeVhostUser
  unfoldable pub handle_expose_vhost_user : Image → Handler H Response
  unfolding remove_socket
  handle_expose_vhost_user image = do
    found ← get_image H image.id
    i ← from_option (not_found image.id) found
    let dir = join socket_dir image.id
    or_fail (on_world H (attempt (H.mkdir_all dir))) (λ e.
        failed
          (text "Cannot create socket directory for the volume "
            ++ (image.id ++ (text ": " ++ e.message)))
          e)
    let socket = join dir vhost_sock
    remove_socket image.id socket
    or_fail (on_world H (expose_vhost_user H i.qsd_id socket)) (λ e.
        failed
          (text "Cannot create socket for the volume " ++ (image.id ++ (text ": " ++ e.message))) e)
    pure response_success

  -- Server.DeleteExporter
  unfoldable pub handle_delete_exporter : Image → Handler H Response
  handle_delete_exporter image = do
    found ← get_image H image.id
    i ← from_option (not_found image.id) found
    or_fail (on_world H (delete_exporter H i.qsd_id)) (λ e.
        failed (text "Cannot delete exporter for volume " ++ (image.id ++ (text ": " ++ e.message)))
          e)
    or_fail (on_world H (attempt (H.remove (join socket_dir image.id)))) (λ e.
        failed
          (text "Cannot delete socket directory for volume "
            ++ (image.id ++ (text ": " ++ e.message)))
          e)
    pure response_empty

-- the body of the loop in ListVolumes
unfoldable pub volume_of : Text × QcowImage → Volume
volume_of (k, v) = record {
  qsd_id = v.qsd_id;
  backing_image_id = v.backing_image_id;
  file = v.file;
  ref_count = v.ref_count;
  depth = v.depth;
  volume_ref = k;
}

-- Server.ListVolumes; `order` is the order in which `range` goes over the map
unfoldable pub handle_list_volumes :
    (Table QcowImage → Table QcowImage) → Server → ResponseListVolumes
unfolding volume_of
handle_list_volumes order s = record { volumes = map volume_of (order s.images) }
