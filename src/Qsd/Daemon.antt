-- ===== src/Qsd/Daemon.antt =====
-- What the server relies on of the QEMU storage daemon behind the monitor. The command texts are
-- those of pkg/qsd/commands.go; the daemon itself is not of this repository.
pub mod Commands
pub mod Manage
pub mod Mirror
pub mod Creation
pub mod Added
pub mod Deletion
pub mod Removal
pub mod Exports
pub mod Runs
pub mod Stuck
pub mod Taken
pub mod Orphan
pub mod Willing
use csi_qsd.Base.{Bool, true, false, not, ◌&&◌, ◌||◌, ◌≡◌, ◌⊎◌, inl, inr, none, List}
use csi_qsd.Go.Text.{Text, ◌==◌}
use csi_qsd.Go.Plain.{is_plain}
use csi_qsd.Host.{Host, Error}
use csi_qsd.Qsd.Commands.Json.{
  blockdev_add_file, blockdev_add_backed, blockdev_add_overlay, blockdev_del, blockdev_snapshot,
  block_export_add, block_export_del,
}

-- The QEMU storage daemon reference manual of the commands that the server sends, with texts that
-- need no escape in JSON. `has id` says that the node "node-" and id is there.
pub record IsDaemon (H : Host) : Type 0 where
  pub has : Text → H.World → Bool
  -- a command that fails changes no node
  pub refused :
      (c k : Text) (w : H.World) (e : Error) → (H.run c w).0 ≡ inl e → has k (H.run c w).1 ≡ has k w
  -- blockdev-add makes a node of a new name, and fails for a name that is taken
  pub added_file :
      (file id k raw : Text) (w : H.World)
      → (is_plain file && is_plain id) ≡ true
      → (H.run (blockdev_add_file file id) w).0 ≡ inr raw
      → (has id w ≡ false) × (has k (H.run (blockdev_add_file file id) w).1 ≡ (id == k || has k w))
  pub added_overlay :
      (file id k raw : Text) (w : H.World)
      → (is_plain file && is_plain id) ≡ true
      → (H.run (blockdev_add_overlay file id) w).0 ≡ inr raw
      → (has id w ≡ false)
        × (has k (H.run (blockdev_add_overlay file id) w).1 ≡ (id == k || has k w))
  pub added_backed :
      (file backing id k raw : Text) (w : H.World)
      → (is_plain file && (is_plain backing && is_plain id)) ≡ true
      → (H.run (blockdev_add_backed file backing id) w).0 ≡ inr raw
      → (has id w ≡ false)
        × (has k (H.run (blockdev_add_backed file backing id) w).1 ≡ (id == k || has k w))
  -- blockdev-del deletes a node that is there
  pub deleted :
      (id k raw : Text) (w : H.World)
      → is_plain id ≡ true
      → (H.run (blockdev_del id) w).0 ≡ inr raw
      → (has id w ≡ true) × (has k (H.run (blockdev_del id) w).1 ≡ (not (id == k) && has k w))
  -- the other commands make and delete no node
  pub snapshot_keeps :
      (id overlay k : Text) (w : H.World)
      → (is_plain id && is_plain overlay) ≡ true
      → has k (H.run (blockdev_snapshot id overlay) w).1 ≡ has k w
  pub export_keeps :
      (id socket k : Text) (w : H.World)
      → (is_plain id && is_plain socket) ≡ true
      → has k (H.run (block_export_add id socket) w).1 ≡ has k w
  pub unexport_keeps :
      (id k : Text) (w : H.World)
      → is_plain id ≡ true
      → has k (H.run (block_export_del id) w).1 ≡ has k w
  -- the reply of a command that succeeds is one that ExecuteCommand takes
  pub understood :
      (c raw : Text) (w : H.World) → (H.run c w).0 ≡ inr raw → H.unmarshal_status raw ≡ none
  -- the calls of the operating system make and delete no node
  pub mkdir_keeps : (path k : Text) (w : H.World) → has k (H.mkdir_all path w).1 ≡ has k w
  pub stat_keeps : (path k : Text) (w : H.World) → has k (H.stat path w).1 ≡ has k w
  pub remove_keeps : (path k : Text) (w : H.World) → has k (H.remove path w).1 ≡ has k w
  pub read_dir_keeps : (path k : Text) (w : H.World) → has k (H.read_dir path w).1 ≡ has k w
  pub output_keeps :
      (cmd : List Text) (k : Text) (w : H.World) → has k (H.combined_output cmd w).1 ≡ has k w
