-- ===== src/Qsd/Server/Snapshots.antt =====
-- CreateSnapshot and DeleteSnapshot.
use csi_qsd.Base.{Bool, false, not, ◌&&◌, Option, none, some, ◌++◌, if◌then◌else◌}
use csi_qsd.Go.Text.{Text, text, ◌==◌}
use csi_qsd.Go.Number.{increment, is_below_one}
use csi_qsd.Go.Exec.{pure, from_option, ◌>>=◌, ◌>>◌, or_fail, attempt}
use csi_qsd.Host.{Host}
use csi_qsd.Qsd.Message.{Snapshot, Response}
use csi_qsd.Qsd.Commands.Manager.{create_snapshot, create_snapshot_with_backing_node}
use csi_qsd.Qsd.Server.State.{
  QcowImage, Handler, failed, missing, join, images_dir, snapshot_prefix, on_world, get_image,
  get_active_layer, put_image, put_active_layer, qsd_id_of, response_empty,
}
use csi_qsd.Qsd.Server.Delete.{delete_image, delete_node_with_zero_reference}

-- `ok && id == snapshot.ID`
abbrev pub is_layer : Option Text → Text → Bool
is_layer none id = false
is_layer (some layer) id = layer == id

module _ (H : Host) where
  -- the calls of the volume manager in CreateSnapshot, by the reference count of the active layer
  unfoldable pub add_overlay : Snapshot → QcowImage → QcowImage → Handler H Unit
  add_overlay snapshot i s =
      or_fail
        (on_world H (
          if is_below_one i.ref_count
          then create_snapshot H i.qsd_id s.qsd_id i.file s.file
          else create_snapshot_with_backing_node H i.qsd_id s.qsd_id i.file s.file i.qsd_id))
        (λ e. failed (text "Cannot snapshot " ++ (snapshot.id ++ (text ": " ++ e.message))) e)

  -- Server.CreateSnapshot
  unfoldable pub handle_create_snapshot : Snapshot → Handler H Response
  unfolding add_overlay
  handle_create_snapshot snapshot = do
    layer ← get_active_layer H snapshot.source_volume_id
    id ←
        from_option
          (missing (
            text "Failed to delete the image "
            ++ (snapshot.source_volume_id ++ text ": active layer not found")))
          layer
    found ← get_image H id
    i ←
        from_option
          (missing (
            text "Failed to delete the image "
            ++ (snapshot.source_volume_id ++ text ": image not found")))
          found
    let dir = join images_dir snapshot.source_volume_id
    or_fail (on_world H (attempt (H.stat dir))) (λ e.
        failed
          (text "Failed checking the directory for snapshot "
            ++ (snapshot.id ++ (text ":" ++ e.message)))
          e)
    qsd_id ← qsd_id_of H snapshot.id
    let s : QcowImage = record {
      qsd_id = qsd_id;
      backing_image_id = id;
      file = join dir (snapshot_prefix ++ (text "-" ++ qsd_id));
      ref_count = 0;
      volume_ref = snapshot.id;
      depth = increment i.depth;
    }
    add_overlay snapshot i s
    put_image H id (record i { ref_count = increment i.ref_count })
    put_image H snapshot.id s
    put_active_layer H snapshot.source_volume_id snapshot.id
    pure response_empty

  -- the branches on the reference count in DeleteSnapshot
  unfoldable pub delete_or_keep : Text → Bool → QcowImage → Handler H Unit
  delete_or_keep id is_active_layer s =
      if is_below_one s.ref_count && not is_active_layer
      then or_fail (delete_image H id)
          (λ e. failed (text "Failed deleting snapshot " ++ (id ++ (text ":" ++ e.message))) e)
      else put_image H id (record s { volume_ref = text "" })

  -- Server.DeleteSnapshot
  unfoldable pub handle_delete_snapshot : Snapshot → Handler H Response
  handle_delete_snapshot snapshot = do
    found ← get_image H snapshot.id
    s ←
        from_option
          (missing (
            text "Failed to get snapshot to delete "
            ++ (snapshot.source_volume_id ++ text ": image not found")))
          found
    layer ← get_active_layer H snapshot.source_volume_id
    delete_or_keep snapshot.id (is_layer layer snapshot.id) s
    or_fail (delete_node_with_zero_reference H s.backing_image_id) (λ e.
        failed
          (text "Failed cleaning up the zero reference node "
            ++ (snapshot.id ++ (text ": " ++ e.message)))
          e)
    pure response_empty
