-- ===== src/Qsd/Server/Create.antt =====
-- CreateVolume.
use csi_qsd.Base.{◌++◌, if◌then◌else◌}
use csi_qsd.Go.Text.{text, ◌==◌}
use csi_qsd.Go.Number.{increment, format_int}
use csi_qsd.Go.Exec.{pure, from_option, ◌>>=◌, ◌>>◌, or_fail, attempt}
use csi_qsd.Host.{Host}
use csi_qsd.Qsd.Message.{Image, Response}
use csi_qsd.Qsd.Commands.Manager.{create_volume, create_snapshot_with_backing_node}
use csi_qsd.Qsd.Server.State.{
  QcowImage, Handler, failed, missing, join, images_dir, disk_img, on_world, get_image, put_image,
  put_active_layer, qsd_id_of, response_success,
}

module _ (H : Host) where
  -- the branch of CreateVolume with no source volume; the finished image
  unfoldable pub create_empty : Image → QcowImage → Handler H QcowImage
  create_empty image q = do
    or_fail (on_world H (create_volume H q.file q.qsd_id (format_int image.size))) (λ e.
        failed (text "Failed creating the disk image " ++ (image.id ++ (text ":" ++ e.message))) e)
    pure (record q { depth = 0 })

  -- the branch with a source volume, which becomes the backing image
  unfoldable pub create_clone : Image → QcowImage → Handler H QcowImage
  create_clone image q = do
    found ← get_image H image.from_volume
    b ←
        from_option
          (missing
            (text "Failed to delete the image " ++ (image.from_volume ++ text ": image not found")))
          found
    or_fail
        (on_world H (create_snapshot_with_backing_node H b.qsd_id q.qsd_id b.file q.file b.qsd_id))
        (λ e. failed (text "Cannot snapshot " ++ (image.from_volume ++ (text ": " ++ e.message))) e)
    put_image H image.from_volume (record b { ref_count = increment b.ref_count })
    pure (record q { backing_image_id = image.from_volume; depth = increment b.depth })

  -- Server.CreateVolume
  unfoldable pub handle_create_volume : Image → Handler H Response
  handle_create_volume image = do
    let dir = join images_dir image.id
    or_fail (on_world H (attempt (H.mkdir_all dir)))
        (λ e. failed (text "Cannot create directory for the volume:" ++ image.id) e)
    qsd_id ← qsd_id_of H image.id
    let q : QcowImage = record {
      qsd_id = qsd_id;
      backing_image_id = text "";
      file = join dir disk_img;
      ref_count = 0;
      volume_ref = image.id;
      depth = 0;
    }
    q' ← if image.from_volume == text "" then create_empty image q else create_clone image q
    put_image H image.id q'
    put_active_layer H image.id image.id
    pure response_success
