-- ===== src/Tests/Node.antt =====
-- Publishing a volume where every call succeeds. The world is the list of the paths that were made
-- or mounted, the last one first.
use csi_qsd.Base.{◌≡◌, true, none, some, List, [], ◌∷◌}
use csi_qsd.Go.Text.{Text, text}
use csi_qsd.Go.Exec.{is_ok}
use csi_qsd.Driver.Csi.{Mounts, mount, NodePublishVolumeRequest}
use csi_qsd.Driver.Node.{node_publish_volume}
use csi_qsd.Driver.Publish.{node_publish_volume_lem}

abbrev willing : Mounts
willing = record {
  World = List Text;
  mkdir_all = λ path w. (none, path ∷ w);
  bind_mount = λ source target w. (none, source ∷ w);
  unmount = λ path w. (none, w);
  remove_all = λ path w. (none, w);
}

abbrev asked : NodePublishVolumeRequest
asked = record {
  volume_id = text "test0";
  target_path = text "/target";
  volume_capability = some mount;
}

node_publish_volume_lem_example :
    (is_ok (node_publish_volume willing asked []).0 ≡ true)
    × ((node_publish_volume willing asked []).1
        ≡ text "/var/run/qsd/sockets/test0" ∷ text "/target" ∷ [])
unfolding text
node_publish_volume_lem_example = node_publish_volume_lem willing asked []
