-- ===== src/Driver/Node.antt =====
-- pkg/driver/node.go: the node service.
use csi_qsd.Base.{
  Bool, true, false, Option, none, some, List, [], ◌++◌, ◌=?◌, if◌then◌else◌, length,
}
use csi_qsd.Go.Text.{Text, text}
use csi_qsd.Go.Exec.{Exec, from_option, ◌>>=◌, ◌>>◌, refuse, or_fail, attempt}
use csi_qsd.Host.{Error, is_not_exist}
use csi_qsd.Driver.Csi.{
  Mounts, Status, invalid, internal_error, AccessType, block, NodePublishVolumeRequest,
  NodeUnpublishVolumeRequest,
}
use csi_qsd.Driver.State.{Driver, socket_dir}

-- GetBlock() != nil
abbrev pub is_block : AccessType → Bool
is_block block = true
is_block _ = false

-- an error other than os.IsNotExist
abbrev is_failure : Option Error → Option Error
is_failure none = none
is_failure (some e) = if is_not_exist (some e) then none else some e

module _ (M : Mounts) where
  abbrev pub NodeService : Type 0 → Type 0
  NodeService A = Exec M.World Status A

  -- Driver.NodePublishVolume
  unfoldable pub node_publish_volume : NodePublishVolumeRequest → NodeService Unit
  node_publish_volume req = do
    refuse (length req.volume_id =? 0) (invalid (text "no volume_id is provided"))
    refuse (length req.target_path =? 0) (invalid (text "no target_path is provided"))
    capability ←
        from_option (invalid (text "no volume_capability is provided")) req.volume_capability
    refuse (is_block capability) (invalid (text "Block devices not supported"))
    or_fail (attempt (M.mkdir_all req.target_path)) (λ e.
        internal_error
          (text "mkdir failed: target=" ++ (req.target_path ++ (text ", error=" ++ e.message))))
    or_fail (attempt (M.bind_mount (socket_dir ++ (text "/" ++ req.volume_id)) req.target_path))
        (λ e. internal_error (
          text "failed in mounting the socket dir for volume "
          ++ (req.volume_id ++ (text ": " ++ e.message))))

  -- Driver.NodeUnpublishVolume
  unfoldable pub node_unpublish_volume : NodeUnpublishVolumeRequest → NodeService Unit
  node_unpublish_volume req = do
    or_fail
        (attempt
          (λ w. (is_failure (M.unmount req.target_path w).0, (M.unmount req.target_path w).1)))
        (λ e. internal_error (
          text "failed in unmounting the target dir for volume "
          ++ (req.volume_id ++ (text ": " ++ e.message))))
    or_fail (attempt (M.remove_all req.target_path)) (λ e. internal_error (
        text "failed in removing the target dir for volume "
        ++ (req.volume_id ++ (text ": " ++ e.message))))

-- the node service announces no capability
pub data NodeCapability : Type 0 where

-- Driver.NodeGetCapabilities
unfoldable pub node_get_capabilities : List NodeCapability
node_get_capabilities = []

-- Driver.NodeGetInfo
unfoldable pub node_get_info : Driver → Text
node_get_info d = d.node_id
