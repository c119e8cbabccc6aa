-- ===== src/Driver/Laws.antt =====
-- What the services of the driver leave in its tables, whatever the remote side answers.
use csi_qsd.Base.{
  ◌≡◌, refl, true, false, Option, none, some, arith, if◌then◌else◌, Option-cases, inl, inr,
}
use csi_qsd.Go.Text.{Text, text, ◌==◌, ==_refl}
use csi_qsd.Go.Number.{ℤ}
use csi_qsd.Go.Table.{lookup, lookup-insert, lookup-delete, delete_absent}
use csi_qsd.Go.Exec.{ok, is_ok}
use csi_qsd.Driver.Csi.{Remote, CreateSnapshotRequest, CsiSnapshot}
use csi_qsd.Driver.State.{StoredSnapshot, Sys, delete_volume, delete_snapshot}
use csi_qsd.Driver.Volumes.{unexpose_and_delete, delete_stored, handle_delete_volume}
use csi_qsd.Driver.Snapshots.{
  create_stored, find_or_create, handle_create_snapshot, delete_stored_snapshot,
  handle_delete_snapshot,
}

-- the answer of CreateSnapshot for a stored snapshot
abbrev answer : CreateSnapshotRequest → StoredSnapshot → Option ℤ → CsiSnapshot
answer req t time = record {
  snapshot_id = req.name;
  source_volume_id = req.source_volume_id;
  ready_to_use = true;
  size_bytes = t.size;
  creation_time = time;
}

module _ (R : Remote) where
  -- DeleteVolume removes the volume from the table exactly where it succeeds, and changes nothing
  -- else of the driver.
  pub driver-delete_volume :
      (id : Text) (s : Sys R)
      → (handle_delete_volume R id s).1.driver
        ≡ (if is_ok (handle_delete_volume R id s).0 then delete_volume id s.driver else s.driver)
  unfolding handle_delete_volume delete_stored unexpose_and_delete delete_volume
  driver-delete_volume id s = ground (arith, delete_absent id s.driver.storage)

  -- a volume that is not stored is deleted without a call
  delete_volume_absent :
      (id : Text) (t : Sys R)
      → (id == text "") ≡ false
      → lookup id t.driver.storage ≡ none
      → handle_delete_volume R id t ≡ (ok tt, t)
  unfolding handle_delete_volume
  delete_volume_absent id t proper absent = ground arith

  delete_volume_named :
      (id : Text) (s : Sys R)
      → is_ok (handle_delete_volume R id s).0 ≡ true
      → (id == text "") ≡ false
  unfolding handle_delete_volume
  delete_volume_named id s h = ground arith

  -- After a DeleteVolume that succeeded, the same request succeeds again and changes nothing.
  pub delete_volume_again :
      (id : Text) (s : Sys R)
      → is_ok (handle_delete_volume R id s).0 ≡ true
      → handle_delete_volume R id (handle_delete_volume R id s).1
        ≡ (ok tt, (handle_delete_volume R id s).1)
  unfolding delete_volume
  delete_volume_again id s h =
      delete_volume_absent id (handle_delete_volume R id s).1 (delete_volume_named id s h) (
        rw (driver-delete_volume id s, h)
          (rw (lookup-delete id id s.driver.storage, ==_refl id) refl))

  -- DeleteSnapshot removes the snapshot from the table exactly where it succeeds, and changes nothing
  -- else of the driver.
  pub driver-delete_snapshot :
      (id : Text) (s : Sys R)
      → (handle_delete_snapshot R id s).1.driver ≡ (
          if is_ok (handle_delete_snapshot R id s).0 then delete_snapshot id s.driver else s.driver)
  unfolding handle_delete_snapshot delete_stored_snapshot delete_snapshot
  driver-delete_snapshot id s = ground (arith, delete_absent id s.driver.snapshots)

  delete_snapshot_absent :
      (id : Text) (t : Sys R)
      → lookup id t.driver.snapshots ≡ none
      → handle_delete_snapshot R id t ≡ (ok tt, t)
  unfolding handle_delete_snapshot
  delete_snapshot_absent id t absent = ground arith

  -- After a DeleteSnapshot that succeeded, the same request succeeds again and changes nothing.
  pub delete_snapshot_again :
      (id : Text) (s : Sys R)
      → is_ok (handle_delete_snapshot R id s).0 ≡ true
      → handle_delete_snapshot R id (handle_delete_snapshot R id s).1
        ≡ (ok tt, (handle_delete_snapshot R id s).1)
  unfolding delete_snapshot
  delete_snapshot_again id s h = delete_snapshot_absent id (handle_delete_snapshot R id s).1 (
      rw (driver-delete_snapshot id s, h)
        (rw (lookup-delete id id s.driver.snapshots, ==_refl id) refl))

  create_snapshot_stored :
      (req : CreateSnapshotRequest) (s : Sys R) (c : CsiSnapshot)
      → (handle_create_snapshot R req s).0 ≡ ok c
      → (t : StoredSnapshot) × (lookup req.name (handle_create_snapshot R req s).1.driver.snapshots
          ≡ some t)
        × (c ≡ answer req t c.creation_time)
  unfolding handle_create_snapshot find_or_create create_stored
  create_snapshot_stored req s c h = elim (Option-cases (lookup req.name s.driver.snapshots)) [
    | inr (t, old) ↦ (t, ground arith, ground arith)
    | inl new ↦ elim (Option-cases (lookup req.source_volume_id s.driver.storage)) [
      | inl lost ↦ absurd (ground arith)
      | inr (v, found) ↦
          let t : StoredSnapshot = record {
            base_id = req.name;
            node = v.node;
            source = req.source_volume_id;
            size = v.size;
          } in
          (
            t,
            ground (arith, lookup-insert req.name req.name t s.driver.snapshots, ==_refl req.name),
            ground arith,
          )
    ]
  ]

  create_snapshot_old :
      (req : CreateSnapshotRequest) (s : Sys R) (t : StoredSnapshot)
      → (req.name == text "") ≡ false
      → (req.source_volume_id == text "") ≡ false
      → lookup req.name s.driver.snapshots ≡ some t
      → handle_create_snapshot R req s ≡ (ok (answer req t none), s)
  unfolding handle_create_snapshot find_or_create
  create_snapshot_old req s t named sourced old = ground arith

  create_snapshot_named :
      (req : CreateSnapshotRequest) (s : Sys R) (c : CsiSnapshot)
      → (handle_create_snapshot R req s).0 ≡ ok c
      → ((req.name == text "") ≡ false) × ((req.source_volume_id == text "") ≡ false)
  unfolding handle_create_snapshot
  create_snapshot_named req s c h = (ground arith, ground arith)

  -- After a CreateSnapshot that succeeded, the same request gives the same answer, but for the
  -- creation time, which is left out, and changes nothing.
  pub create_snapshot_again :
      (req : CreateSnapshotRequest) (s : Sys R) (c : CsiSnapshot)
      → (handle_create_snapshot R req s).0 ≡ ok c
      → handle_create_snapshot R req (handle_create_snapshot R req s).1
        ≡ (ok (record c { creation_time = none }), (handle_create_snapshot R req s).1)
  create_snapshot_again req s c h =
      let (t, stored, same) = create_snapshot_stored req s c h in
      let (named, sourced) = create_snapshot_named req s c h in
      cc (create_snapshot_old req (handle_create_snapshot R req s).1 t named sourced stored, same)
