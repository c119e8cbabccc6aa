-- ===== src/Qsd/Server/Effect/Returns.antt =====
-- The handlers that cannot panic but by generateQSDID.
use csi_qsd.Base.{◌≡◌, refl, true, Bool, some, arith, Option-cases, inl, inr}
use csi_qsd.Go.Text.{Text, text}
use csi_qsd.Go.Table.{lookup}
use csi_qsd.Go.Exec.{bind-returns, returns, or_fail}
use csi_qsd.Host.{Host}
use csi_qsd.Qsd.Message.{Image, Snapshot}
use csi_qsd.Qsd.Commands.Manager.{
  execute_command, execute_commands, qemu_img_snapshot, create_file, create_image, create_volume,
  expose_vhost_user, delete_exporter, create_snapshot_with_backing_node, create_snapshot,
}
use csi_qsd.Qsd.Server.State.{QcowImage, Sys, generate_qsd_id, join, images_dir}
use csi_qsd.Qsd.Server.Create.{create_empty, create_clone, handle_create_volume}
use csi_qsd.Qsd.Server.Delete.{delete_node_with_zero_reference}
use csi_qsd.Qsd.Server.Export.{handle_expose_vhost_user, handle_delete_exporter}
use csi_qsd.Qsd.Server.Snapshots.{
  is_layer, add_overlay, delete_or_keep, handle_create_snapshot, handle_delete_snapshot,
}
use csi_qsd.Go.Number.{increment}
use csi_qsd.Qsd.Server.Effect.Creation.{new_volume, new_snapshot}
use csi_qsd.Qsd.Server.Effect.Deletion.{delete_image-returns}
use csi_qsd.Qsd.Server.Effect.Recursion.{delete_node_with_zero_reference-returns}
use csi_qsd.Qsd.Server.Effect.Volumes.{or_fail-returns}

module _ (H : Host) where
  create_volume-returns :
      (image id size : Text) (w : H.World) → returns (create_volume H image id size w).0 ≡ true
  unfolding create_volume create_image create_file execute_command
  create_volume-returns image id size w = ground arith

  backed-returns :
      (i s image snapshot backing : Text) (w : H.World)
      → returns (create_snapshot_with_backing_node H i s image snapshot backing w).0 ≡ true
  unfolding create_snapshot_with_backing_node qemu_img_snapshot execute_command
  backed-returns i s image snapshot backing w = ground arith

  create_snapshot-returns :
      (i s image snapshot : Text) (w : H.World)
      → returns (create_snapshot H i s image snapshot w).0 ≡ true
  unfolding create_snapshot qemu_img_snapshot execute_command execute_commands
  create_snapshot-returns i s image snapshot w = ground arith

  pub handle_expose_vhost_user-returns :
      (image : Image) (s : Sys H) → returns (handle_expose_vhost_user H image s).0 ≡ true
  unfolding handle_expose_vhost_user expose_vhost_user execute_command
  handle_expose_vhost_user-returns image s = ground arith

  pub handle_delete_exporter-returns :
      (image : Image) (s : Sys H) → returns (handle_delete_exporter H image s).0 ≡ true
  unfolding handle_delete_exporter delete_exporter execute_command
  handle_delete_exporter-returns image s = ground arith

  create_empty-returns :
      (image : Image) (q : QcowImage) (s : Sys H) → returns (create_empty H image q s).0 ≡ true
  unfolding create_empty create_volume create_image create_file execute_command
  create_empty-returns image q s = ground arith

  create_clone-returns :
      (image : Image) (q : QcowImage) (s : Sys H) → returns (create_clone H image q s).0 ≡ true
  unfolding create_clone create_snapshot_with_backing_node qemu_img_snapshot execute_command
  create_clone-returns image q s = ground arith

  add_overlay-returns :
      (snapshot : Snapshot) (i q : QcowImage) (s : Sys H)
      → returns (add_overlay H snapshot i q s).0 ≡ true
  unfolding add_overlay create_snapshot create_snapshot_with_backing_node qemu_img_snapshot
      execute_command execute_commands
  add_overlay-returns snapshot i q s = ground arith

  delete_or_keep-returns :
      (id : Text) (layer : Bool) (v : QcowImage) (s : Sys H)
      → returns (delete_or_keep H id layer v s).0 ≡ true
  unfolding delete_or_keep
  delete_or_keep-returns id layer v s = ground (arith, delete_image-returns H id s)

  -- DeleteSnapshot returns on every state.
  pub handle_delete_snapshot-returns :
      (snapshot : Snapshot) (s : Sys H) → returns (handle_delete_snapshot H snapshot s).0 ≡ true
  unfolding handle_delete_snapshot
  handle_delete_snapshot-returns snapshot s =
      elim (Option-cases (lookup snapshot.id s.server.images)) [
        | inl lost ↦ rw lost refl
        | inr (v, found) ↦
            let layer =
              is_layer (lookup snapshot.source_volume_id s.server.active_layers) snapshot.id in
            rw found (
              bind-returns (delete_or_keep H snapshot.id layer v) _ s
                (delete_or_keep-returns snapshot.id layer v s)
                (λ _ _.
                  bind-returns (or_fail (delete_node_with_zero_reference H v.backing_image_id) _) _
                    _
                    (or_fail-returns H (delete_node_with_zero_reference H v.backing_image_id) _ _
                      (delete_node_with_zero_reference-returns H v.backing_image_id _))
                    (λ _ _. refl)))
      ]

  -- CreateVolume returns, if generateQSDID takes the name.
  pub handle_create_volume-returns :
      (image : Image) (s : Sys H) (q : Text)
      → generate_qsd_id image.id ≡ some q
      → returns (handle_create_volume H image s).0 ≡ true
  unfolding handle_create_volume
  handle_create_volume-returns image s q named =
      let dir = join images_dir image.id in
      let t : Sys H = record s { world = (H.mkdir_all dir s.world).1 } in
      let v : QcowImage = new_volume image q (text "") 0 in
      ground (arith, named, create_empty-returns image v t, create_clone-returns image v t)

  -- CreateSnapshot returns, if generateQSDID takes the name.
  pub handle_create_snapshot-returns :
      (snapshot : Snapshot) (s : Sys H) (q : Text)
      → generate_qsd_id snapshot.id ≡ some q
      → returns (handle_create_snapshot H snapshot s).0 ≡ true
  unfolding handle_create_snapshot
  handle_create_snapshot-returns snapshot s q named =
      elim (Option-cases (lookup snapshot.source_volume_id s.server.active_layers)) [
        | inl inactive ↦ rw inactive refl
        | inr (layer, active) ↦ elim (Option-cases (lookup layer s.server.images)) [
          | inl lost ↦ rw (active, lost) refl
          | inr (b, found) ↦
              let dir = join images_dir snapshot.source_volume_id in
              let t : Sys H = record s { world = (H.stat dir s.world).1 } in
              let v : QcowImage = new_snapshot snapshot q layer (increment b.depth) in
              ground (arith, named, active, found, add_overlay-returns snapshot b v t)
        ]
      ]
