-- ===== src/Qsd/Daemon/Orphan.antt =====
-- A CreateSnapshot that stops between the two commands of CreateSnapshot of the volume manager.
use csi_qsd.Base.{
  ◌≡◌, ◌∙◌, ap, sym, ◌++◌, true, false, ◌&&◌, some, none, arith, Bool-cases, inl, inr,
}
use csi_qsd.Go.Text.{Text, text, ==_refl}
use csi_qsd.Go.Number.{is_below_one}
use csi_qsd.Go.Plain.{is_plain}
use csi_qsd.Go.Table.{lookup}
use csi_qsd.Go.Exec.{is_ok}
use csi_qsd.Host.{Host}
use csi_qsd.Qsd.Message.{Snapshot}
use csi_qsd.Qsd.Commands.Json.{blockdev_add_overlay, blockdev_snapshot}
use csi_qsd.Qsd.Commands.Manager.{
  execute_command, execute_commands, qemu_img_snapshot, create_snapshot,
}
use csi_qsd.Qsd.Server.State.{
  QcowImage, Server, Sys, generate_qsd_id, join, images_dir, snapshot_prefix,
}
use csi_qsd.Qsd.Server.Snapshots.{handle_create_snapshot}
use csi_qsd.Qsd.Server.Effect.Overlay.{create_snapshot_fails}
use csi_qsd.Qsd.Daemon.{IsDaemon}
use csi_qsd.Qsd.Daemon.Commands.{execute_command-Makes, execute_command-world}
use csi_qsd.Qsd.Daemon.Mirror.{IsMirrored}
use csi_qsd.Qsd.Daemon.Added.{mirrored_plain}
use csi_qsd.Qsd.Daemon.Creation.{
  snapshot_made, handle_create_snapshot-Makes, is_plain-generate_qsd_id, plain_snapshot,
}

module _ (H : Host) (image place q : Text) (w : H.World) where
  -- the world after qemu-img, and then after the first command
  abbrev pub prepared : H.World
  prepared = (qemu_img_snapshot H image place w).1

  abbrev pub added : H.World
  added = (execute_command H (blockdev_add_overlay place q) prepared).1

module _ (H : Host) (M : IsDaemon H) (image_id q image place : Text) (w : H.World) where
  -- the node is made, and the second command fails
  create_snapshot_half :
      (is_plain place && (is_plain image_id && is_plain q)) ≡ true
      → is_ok (qemu_img_snapshot H image place w).0 ≡ true
      → is_ok (execute_command H (blockdev_add_overlay place q) (prepared H image place q w)).0
        ≡ true
      → is_ok (execute_command H (blockdev_snapshot image_id q) (added H image place q w)).0 ≡ false
      → (is_ok (create_snapshot H image_id q image place w).0 ≡ false)
        × (M.has q (create_snapshot H image_id q image place w).1 ≡ true)
  unfolding create_snapshot execute_commands
  create_snapshot_half p drawn made apart =
      let m =
        execute_command-Makes H M (blockdev_add_overlay place q) q (prepared H image place q w)
          (λ k raw.
            M.added_overlay place q k raw (prepared H image place q w) (ground (arith, p))) in
      (
        ground (arith, drawn, made, apart),
        ground (
          arith,
          drawn,
          made,
          apart,
          (m.made q made).1,
          ==_refl q,
          execute_command-world H M (blockdev_snapshot image_id q) (added H image place q w),
          M.snapshot_keeps image_id q q (added H image place q w),
        ),
      )

abbrev pub place_of : Snapshot → Text → Text
place_of snapshot q =
    join (join images_dir snapshot.source_volume_id) (snapshot_prefix ++ (text "-" ++ q))

module _ (H : Host) (M : IsDaemon H) (snapshot : Snapshot) (s : Sys H)
    (R : IsMirrored H M s.server.images s.world) (layer q : Text) (i : QcowImage)
    (named : generate_qsd_id snapshot.id ≡ some q)
    (active : lookup snapshot.source_volume_id s.server.active_layers ≡ some layer)
    (found : lookup layer s.server.images ≡ some i) (free : is_below_one i.ref_count ≡ true)
    (p : (is_plain snapshot.id && is_plain snapshot.source_volume_id) ≡ true) where
  abbrev w : H.World
  w = (H.stat (join images_dir snapshot.source_volume_id) s.world).1

  -- a node of the snapshot's id stands in the way
  orphan_blocks :
      (t : Sys H)
      → t.server ≡ s.server
      → M.has q t.world ≡ true
      → is_ok (handle_create_snapshot H snapshot t).0 ≡ false
  orphan_blocks t same there = elim (Bool-cases (is_ok (handle_create_snapshot H snapshot t).0)) [
    | inr failed ↦ failed
    | inl done ↦
        let plain = λ (k : Text) (b : QcowImage) (h : lookup k t.server.images ≡ some b).
          mirrored_plain H M s.server.images s.world R k b
            (ap (λ (u : Server). lookup k u.images) (sym same) ∙ h) in
        absurd (
          ground (
            arith,
            there,
            ((handle_create_snapshot-Makes H M snapshot t q named p plain).made q done).0,
          ))
  ]

  -- Where the image of the active layer has no reference, blockdev-add makes the node of the
  -- snapshot and blockdev-snapshot fails, CreateSnapshot fails, leaves the server as it is and the
  -- node in the storage daemon, and the next CreateSnapshot of the snapshot fails as well.
  pub create_snapshot_orphan :
      (H.stat (join images_dir snapshot.source_volume_id) s.world).0 ≡ none
      → is_ok (qemu_img_snapshot H i.file (place_of snapshot q) w).0 ≡ true
      → is_ok
          (execute_command H
            (blockdev_add_overlay (place_of snapshot q) q)
            (prepared H i.file (place_of snapshot q) q w)).0
        ≡ true
      → is_ok
          (execute_command H
            (blockdev_snapshot i.qsd_id q)
            (added H i.file (place_of snapshot q) q w)).0
        ≡ false
      → (is_ok (handle_create_snapshot H snapshot s).0 ≡ false)
        × ((handle_create_snapshot H snapshot s).1.server ≡ s.server)
        × (M.has q (handle_create_snapshot H snapshot s).1.world ≡ true)
        × (is_ok (handle_create_snapshot H snapshot (handle_create_snapshot H snapshot s).1).0
            ≡ false)
  create_snapshot_orphan seen drawn made apart =
      let fine = is_plain-generate_qsd_id snapshot.id q (ground arith) named in
      let place = plain_snapshot snapshot.source_volume_id q (ground arith) in
      let half =
        create_snapshot_half H M i.qsd_id q i.file (place_of snapshot q) w
          (ground (arith, mirrored_plain H M s.server.images s.world R layer i found)) drawn made
          apart in
      let (ran, world) = snapshot_made H M snapshot s q named p layer active i found seen in
      let failed : is_ok (handle_create_snapshot H snapshot s).0 ≡ false =
        ground (arith, ran, half.0) in
      let same = create_snapshot_fails H snapshot s failed in
      let there : M.has q (handle_create_snapshot H snapshot s).1.world ≡ true =
        ground (arith, world, half.1) in
      (failed, same, there, orphan_blocks _ same there)
