-- ===== src/Driver/Snapshots.antt =====
-- pkg/driver/controller.go: CreateSnapshot and DeleteSnapshot.
use csi_qsd.Base.{true, none, some, ◌++◌}
use csi_qsd.Go.Text.{Text, text, ◌==◌}
use csi_qsd.Go.Table.{lookup, insert}
use csi_qsd.Go.Exec.{pure, ◌>>=◌, ◌>>◌, refuse, from_option, or_fail, result}
use csi_qsd.Driver.Csi.{
  Remote, unknown, invalid, internal_error, CreateSnapshotRequest, CsiSnapshot,
}
use csi_qsd.Driver.State.{
  StoredVolume, StoredSnapshot, Service, on_world, get_driver, put_driver, with_client,
  delete_snapshot,
}
use csi_qsd.Driver.Volumes.{call, cannot_connect}

module _ (R : Remote) where
  -- the rest of CreateSnapshot for a new snapshot of a stored volume; the deferred Close runs
  -- after the timestamp is taken
  unfoldable pub create_stored : Text → Text → StoredVolume → Service R CsiSnapshot
  create_stored id image_id source = with_client R source.node (cannot_connect R source.node) (do
    call R (R.create_snapshot (record { id = id; source_volume_id = image_id }))
        (text "Error in creating the snapshot ")
    d ← get_driver R
    put_driver R (record d {
      snapshots =
          insert id
            (record { base_id = id; node = source.node; source = image_id; size = source.size })
            d.snapshots;
    })
    time ← or_fail (on_world R (result R.timestamp)) (λ e. record {
      code = unknown;
      message = text "couldn't convert protobuf timestamp to go time.Time: " ++ e.message;
    })
    pure (record {
      snapshot_id = id;
      source_volume_id = image_id;
      ready_to_use = true;
      size_bytes = source.size;
      creation_time = some time;
    }))

  -- CreateSnapshot behind its guards
  unfoldable pub find_or_create : Text → Text → Service R CsiSnapshot
  find_or_create id image_id = do
    d ← get_driver R
    elim (lookup id d.snapshots) [
      | some t ↦ pure (record {
        snapshot_id = id;
        source_volume_id = image_id;
        ready_to_use = true;
        size_bytes = t.size;
        creation_time = none;
      })
      | none ↦ do
        source ←
            from_option
              (internal_error
                (text "Source volume " ++ (image_id ++ text " not found in the storage")))
              (lookup image_id d.storage)
        create_stored id image_id source
    ]

  -- Driver.CreateSnapshot
  unfoldable pub handle_create_snapshot : CreateSnapshotRequest → Service R CsiSnapshot
  handle_create_snapshot req = do
    refuse (req.name == text "") (invalid (text "CreateSnapshot Name must be provided"))
    refuse (req.source_volume_id == text "")
        (invalid (text "CreateSnapshot Source Volume ID must be provided"))
    find_or_create req.name req.source_volume_id

  -- the rest of DeleteSnapshot for a stored snapshot
  unfoldable pub delete_stored_snapshot : Text → StoredSnapshot → Service R Unit
  delete_stored_snapshot id s = with_client R s.node (cannot_connect R s.node) (do
    call R (R.delete_snapshot (record { id = id; source_volume_id = s.source }))
        (text "Error for creating the exporter ")
    d ← get_driver R
    put_driver R (delete_snapshot id d))

  -- Driver.DeleteSnapshot
  unfoldable pub handle_delete_snapshot : Text → Service R Unit
  handle_delete_snapshot id = do
    d ← get_driver R
    elim (lookup id d.snapshots) [ none ↦ pure tt | some s ↦ delete_stored_snapshot id s ]
