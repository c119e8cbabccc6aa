-- ===== src/Driver/Publish.antt =====
-- NodePublishVolume of pkg/driver/node.go on every branch.
use csi_qsd.Base.{
  ◌≡◌, Bool, true, false, not, ◌&&◌, Option, none, some, ◌++◌, arith, ◌=?◌, if◌then◌else◌, length,
}
use csi_qsd.Go.Text.{text}
use csi_qsd.Go.Exec.{is_ok}
use csi_qsd.Host.{Error}
use csi_qsd.Driver.Csi.{Mounts, AccessType, NodePublishVolumeRequest}
use csi_qsd.Driver.State.{socket_dir}
use csi_qsd.Driver.Node.{is_block, node_publish_volume}

-- a capability that is given and asks for no block device
abbrev pub is_mountable : Option AccessType → Bool
is_mountable none = false
is_mountable (some c) = not (is_block c)

-- the requests that NodePublishVolume takes
abbrev pub is_publishable : NodePublishVolumeRequest → Bool
is_publishable req =
    not (length req.volume_id =? 0)
    && not (length req.target_path =? 0)
    && is_mountable req.volume_capability

abbrev pub succeeds : Option Error → Bool
succeeds none = true
succeeds (some e) = false

-- the calls of NodePublishVolume, the second one only behind a success of the first
module _ (M : Mounts) (req : NodePublishVolumeRequest) (w : M.World) where
  abbrev pub made : Option Error × M.World
  made = M.mkdir_all req.target_path w

  abbrev pub mounted : Option Error × M.World
  mounted = M.bind_mount (socket_dir ++ (text "/" ++ req.volume_id)) req.target_path made.1

  -- NodePublishVolume succeeds exactly for a request that it takes, if the target directory can be
  -- made and the socket directory of the volume be mounted there; it makes these two calls in this
  -- order, stops at the first that fails, and makes none for another request.
  pub node_publish_volume_lem :
      (is_ok (node_publish_volume M req w).0
        ≡ (is_publishable req && (succeeds made.0 && succeeds mounted.0)))
      × ((node_publish_volume M req w).1
          ≡ (if is_publishable req then (if succeeds made.0 then mounted.1 else made.1) else w))
  unfolding node_publish_volume
  node_publish_volume_lem = (ground arith, ground arith)
