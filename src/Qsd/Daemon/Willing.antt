-- ===== src/Qsd/Daemon/Willing.antt =====
-- CreateVolume and CreateSnapshot on a host whose calls succeed.
use csi_qsd.Base.{◌≡◌, Bool, true, false, ◌&&◌, Option, some, none, inr, List}
use csi_qsd.Go.Text.{Text}
use csi_qsd.Go.Plain.{is_plain}
use csi_qsd.Host.{Host}
use csi_qsd.Qsd.Commands.Json.{
  blockdev_add_file, blockdev_add_backed, blockdev_add_overlay, blockdev_snapshot,
}
use csi_qsd.Qsd.Server.State.{QcowImage}
use csi_qsd.Qsd.Daemon.{IsDaemon}

-- Directories are made, qemu-img succeeds, and the storage daemon does what it can do.
pub record IsWilling (H : Host) (M : IsDaemon H) : Type 0 where
  pub makes : (path : Text) (w : H.World) → (H.mkdir_all path w).0 ≡ none
  pub draws : (cmd : List Text) (w : H.World) → (H.combined_output cmd w).0.1 ≡ none
  pub adds_file :
      (file id : Text) (w : H.World)
      → (is_plain file && is_plain id) ≡ true
      → M.has id w ≡ false
      → (raw : Text) × ((H.run (blockdev_add_file file id) w).0 ≡ inr raw)
  pub adds_overlay :
      (file id : Text) (w : H.World)
      → (is_plain file && is_plain id) ≡ true
      → M.has id w ≡ false
      → (raw : Text) × ((H.run (blockdev_add_overlay file id) w).0 ≡ inr raw)
  pub adds_backed :
      (file backing id : Text) (w : H.World)
      → (is_plain file && (is_plain backing && is_plain id)) ≡ true
      → M.has id w ≡ false
      → M.has backing w ≡ true
      → (raw : Text) × ((H.run (blockdev_add_backed file backing id) w).0 ≡ inr raw)
  pub joins :
      (id overlay : Text) (w : H.World)
      → (is_plain id && is_plain overlay) ≡ true
      → M.has id w ≡ true
      → M.has overlay w ≡ true
      → (raw : Text) × ((H.run (blockdev_snapshot id overlay) w).0 ≡ inr raw)

abbrev pub is_some : Option QcowImage → Bool
is_some none = false
is_some (some v) = true
