-- ===== src/Qsd/Daemon/Taken.antt =====
-- Names that generateQSDID makes the same id of.
use csi_qsd.Base.{◌≡◌, true, false, ◌&&◌, some, [], arith, none, Bool-cases, Option-cases, inl, inr}
use csi_qsd.Go.Text.{Text}
use csi_qsd.Go.Plain.{is_plain}
use csi_qsd.Go.Table.{lookup}
use csi_qsd.Go.Exec.{is_ok}
use csi_qsd.Host.{Host}
use csi_qsd.Qsd.Message.{Image, Snapshot}
use csi_qsd.Qsd.Server.State.{QcowImage, Sys, generate_qsd_id}
use csi_qsd.Qsd.Server.Create.{handle_create_volume}
use csi_qsd.Qsd.Server.Snapshots.{handle_create_snapshot}
use csi_qsd.Qsd.Server.Effect.Creation.{create_volume_named}
use csi_qsd.Qsd.Server.Effect.Added.{create_volume_kept}
use csi_qsd.Qsd.Server.Effect.Overlay.{create_snapshot_named, create_snapshot_fails}
use csi_qsd.Qsd.Daemon.{IsDaemon}
use csi_qsd.Qsd.Daemon.Mirror.{IsMirrored}
use csi_qsd.Qsd.Daemon.Added.{volume-Makes, snapshot-Makes}
use csi_qsd.Qsd.Daemon.Runs.{PlainRuns, PlainRuns-IsSound}

module _ (H : Host) (M : IsDaemon H) where
  module _ (t : Sys H) (R : IsMirrored H M t.server.images t.world) (k : Text) (v : QcowImage)
      (found : lookup k t.server.images ≡ some v) where
    -- the node of an id that an image in the table has
    taken :
        (id q : Text)
        → generate_qsd_id id ≡ generate_qsd_id k
        → generate_qsd_id id ≡ some q
        → M.has q t.world ≡ true
    taken id q same e = ground (arith, found, R.named k v.qsd_id, R.present k v.qsd_id, same, e)

    pub volume_fails :
        (image : Image)
        → is_plain image.id ≡ true
        → generate_qsd_id image.id ≡ generate_qsd_id k
        → is_ok (handle_create_volume H image t).0 ≡ false
    volume_fails image p same = elim (Bool-cases (is_ok (handle_create_volume H image t).0)) [
      | inr failed ↦ failed
      | inl done ↦ elim (Option-cases (generate_qsd_id image.id)) [
        | inl e ↦ absurd (create_volume_named H image t done e)
        | inr (q, e) ↦ absurd (
            ground
              (arith, taken image.id q same e, ((volume-Makes H M image t R p q e).made q done).0))
      ]
    ]

    snapshot_fails :
        (snapshot : Snapshot)
        → (is_plain snapshot.id && is_plain snapshot.source_volume_id) ≡ true
        → generate_qsd_id snapshot.id ≡ generate_qsd_id k
        → is_ok (handle_create_snapshot H snapshot t).0 ≡ false
    snapshot_fails snapshot p same =
        elim (Bool-cases (is_ok (handle_create_snapshot H snapshot t).0)) [
          | inr failed ↦ failed
          | inl done ↦ elim (Option-cases (generate_qsd_id snapshot.id)) [
            | inl e ↦ absurd (create_snapshot_named H snapshot t done e)
            | inr (q, e) ↦ absurd (
                ground (
                  arith,
                  taken snapshot.id q same e,
                  ((snapshot-Makes H M snapshot t R p q e).made q done).0,
                ))
          ]
        ]

  -- Where the storage daemon answers as documented and os.Remove never fails: after any requests
  -- whose names need no escape in JSON, new names not empty and the table of fewer than 2^31 images,
  -- on a server that started with no image, CreateVolume and CreateSnapshot of a new image fail and
  -- leave the server as it is, if generateQSDID makes of its name the id of an image in the table.
  pub create_taken :
      (never : (path : Text) (w : H.World) → (H.remove path w).0 ≡ none) (s t : Sys H)
      → s.server.images ≡ []
      → PlainRuns H s t
      → (k : Text) (v : QcowImage) (image : Image) (snapshot : Snapshot)
      → lookup k t.server.images ≡ some v
      → generate_qsd_id image.id ≡ generate_qsd_id k
      → snapshot.id ≡ image.id
      → (is_plain image.id && is_plain snapshot.source_volume_id) ≡ true
      → (is_ok (handle_create_volume H image t).0 ≡ false)
        × ((handle_create_volume H image t).1.server ≡ t.server)
        × (is_ok (handle_create_snapshot H snapshot t).0 ≡ false)
        × ((handle_create_snapshot H snapshot t).1.server ≡ t.server)
  create_taken never s t e run k v image snapshot found same twin p =
      let R = (PlainRuns-IsSound H M never s t e run).mirror in
      let first = volume_fails t R k v found image (ground arith) same in
      let second = snapshot_fails t R k v found snapshot (ground arith) (ground arith) in
      (first, create_volume_kept H image t first, second, create_snapshot_fails H snapshot t second)
