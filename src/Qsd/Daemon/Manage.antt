-- ===== src/Qsd/Daemon/Manage.antt =====
-- CreateVolume, CreateSnapshot, DeleteVolume and the exports of VolumeManager against the nodes of the
-- storage daemon.
use csi_qsd.Base.{true, not, ◌&&◌, ◌≡◌, ◌∙◌, ap, inl, inr, arith, if◌then◌else◌, Result-cases}
use csi_qsd.Go.Text.{Text, text, ◌==◌}
use csi_qsd.Go.Plain.{is_plain}
use csi_qsd.Go.Exec.{is_ok, pure, ◌>>◌}
use csi_qsd.Host.{Host, is_not_exist}
use csi_qsd.Qsd.Commands.Json.{
  blockdev_add_file, blockdev_add_backed, blockdev_add_overlay, blockdev_del, blockdev_snapshot,
  block_export_add, block_export_del,
}
use csi_qsd.Qsd.Commands.Manager.{
  execute_command, execute_commands, qemu_img_snapshot, create_file, create_image, create_volume,
  delete_volume, expose_vhost_user, delete_exporter, create_snapshot_with_backing_node,
  create_snapshot,
}
use csi_qsd.Qsd.Daemon.{IsDaemon}
use csi_qsd.Qsd.Daemon.Commands.{
  Makes, execute_command-ok, execute_command-world, execute_command-err, execute_command-Makes,
  Makes-after, create_file-world, qemu_img_snapshot-world, add_file-Makes, then-Makes, before-Makes,
}

module _ (H : Host) (M : IsDaemon H) where
  pub create_volume-Makes :
      (file id size : Text) (w : H.World)
      → (is_plain file && is_plain id) ≡ true
      → Makes H M id (is_ok (create_volume H file id size w).0) w (create_volume H file id size w).1
  unfolding create_volume create_image
  create_volume-Makes file id size w plain =
      let v = (H.stat file w).1 in
      let format =
        if is_not_exist (H.stat file w).0
        then create_file H file size (text "qcow2")
        else pure tt in
      Makes-after H M (λ k. M.stat_keeps file k w)
        (then-Makes H M format (execute_command H (blockdev_add_file file id)) v
          (λ k. ground (arith, create_file-world H M file size (text "qcow2") k v))
          (add_file-Makes H M file id _ plain))

  pub backed-Makes :
      (image_id id image file backing : Text) (w : H.World)
      → (is_plain file && (is_plain backing && is_plain id)) ≡ true
      → Makes H M id
          (is_ok (create_snapshot_with_backing_node H image_id id image file backing w).0)
          w
          (create_snapshot_with_backing_node H image_id id image file backing w).1
  unfolding create_snapshot_with_backing_node
  backed-Makes image_id id image file backing w plain =
      then-Makes H M (qemu_img_snapshot H image file)
        (execute_command H (blockdev_add_backed file backing id)) w
        (λ k. qemu_img_snapshot-world H M image file k w)
        (execute_command-Makes H M (blockdev_add_backed file backing id) id _
          (λ k raw. M.added_backed file backing id k raw _ plain))

  then_pure-has :
      (c k : Text) (w : H.World)
      → M.has k (H.run c w).1 ≡ M.has k w
      → M.has k ((execute_command H c >> pure tt) w).1 ≡ M.has k w
  then_pure-has c k w same = ground (arith, same, execute_command-world H M c w)

  pub create_snapshot-Makes :
      (image_id id image file : Text) (w : H.World)
      → (is_plain file && (is_plain image_id && is_plain id)) ≡ true
      → Makes H M id
          (is_ok (create_snapshot H image_id id image file w).0)
          w
          (create_snapshot H image_id id image file w).1
  unfolding create_snapshot execute_commands
  create_snapshot-Makes image_id id image file w plain =
      let add = execute_command H (blockdev_add_overlay file id) in
      let join = execute_command H (blockdev_snapshot image_id id) in
      then-Makes H M (qemu_img_snapshot H image file) (add >> (join >> pure tt)) w
        (λ k. qemu_img_snapshot-world H M image file k w)
        (before-Makes H M add (join >> pure tt) _
          (λ k.
            then_pure-has (blockdev_snapshot image_id id) k _
              (M.snapshot_keeps image_id id k _ (ground arith)))
          (execute_command-Makes H M (blockdev_add_overlay file id) id _
            (λ k raw. M.added_overlay file id k raw _ (ground arith))))

  -- DeleteVolume of the volume manager: where it succeeds the node was there and is gone
  pub delete_volume-has :
      (id k : Text) (w : H.World)
      → is_plain id ≡ true
      → M.has k (delete_volume H id w).1
        ≡ (if is_ok (delete_volume H id w).0 then not (id == k) && M.has k w else M.has k w)
  unfolding delete_volume
  delete_volume-has id k w plain = elim (Result-cases (H.run (blockdev_del id) w).0) [
    | inl (e, failed) ↦ ground (
      arith,
      failed,
      execute_command-world H M (blockdev_del id) w,
      execute_command-err H M (blockdev_del id) e w,
      M.refused (blockdev_del id) k w e,
    )
    | inr (raw, ran) ↦ ground (
      arith,
      ran,
      execute_command-world H M (blockdev_del id) w,
      execute_command-ok H M (blockdev_del id) raw w,
      M.deleted id k raw w,
    )
  ]

  pub delete_volume_had :
      (id : Text) (w : H.World)
      → is_plain id ≡ true
      → is_ok (delete_volume H id w).0 ≡ true
      → M.has id w ≡ true
  unfolding delete_volume
  delete_volume_had id w plain done = elim (Result-cases (H.run (blockdev_del id) w).0) [
    | inl (e, failed) ↦ absurd (ground (arith, done, execute_command-err H M (blockdev_del id) e w))
    | inr (raw, ran) ↦ (M.deleted id id raw w plain ran).0
  ]

  pub expose_vhost_user-has :
      (id socket k : Text) (w : H.World)
      → (is_plain id && is_plain socket) ≡ true
      → M.has k (expose_vhost_user H id socket w).1 ≡ M.has k w
  unfolding expose_vhost_user
  expose_vhost_user-has id socket k w plain =
      ap (M.has k) (execute_command-world H M (block_export_add id socket) w)
      ∙ M.export_keeps id socket k w plain

  pub delete_exporter-has :
      (id k : Text) (w : H.World)
      → is_plain id ≡ true
      → M.has k (delete_exporter H id w).1 ≡ M.has k w
  unfolding delete_exporter
  delete_exporter-has id k w plain =
      ap (M.has k) (execute_command-world H M (block_export_del id) w)
      ∙ M.unexport_keeps id k w plain
