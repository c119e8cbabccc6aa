-- ===== src/Qsd/Commands/Nodes.antt =====
-- GetNameBlockNodes of pkg/qsd/commands.go and the types of its answer. json.Unmarshal is a
-- parameter.
use csi_qsd.Base.{Bool, ◌⊎◌, List, ◌++◌}
use csi_qsd.Go.Text.{Text, text}
use csi_qsd.Go.Number.{ℤ}
use csi_qsd.Go.Exec.{◌>>=◌, pure, or_fail, result}
use csi_qsd.Host.{Host, Error, errorf}
use csi_qsd.Qsd.Commands.Json.{query_named_block_nodes}
use csi_qsd.Qsd.Commands.Manager.{Manage, execute_command_raw}

pub record BackingImageInfo : Type 0 where
  pub filename : Text
  pub format : Text
  pub virtual_size : ℤ

pub record SnapshotInfo : Type 0 where
  pub id : Text
  pub name : Text
  pub vm_state_size : ℤ
  pub date_sec : ℤ
  pub date_nsec : ℤ
  pub vm_clock_sec : ℤ
  pub vm_clock_nsec : ℤ

pub record ImageInfo : Type 0 where
  pub filename : Text
  pub format : Text
  pub virtual_size : ℤ
  pub backing_file : Text
  pub full_backing_filename : Text
  pub backing_filename_format : Text
  pub snapshots : List SnapshotInfo
  pub backing_image : BackingImageInfo

pub record NameBlockNode : Type 0 where
  pub ro : Bool
  pub drv : Text
  pub encrypted : Bool
  pub file : Text
  pub node_name : Text
  pub backing_file_depth : ℤ
  pub bps : ℤ
  pub bps_rd : ℤ
  pub bps_wr : ℤ
  pub iops : ℤ
  pub iops_rd : ℤ
  pub iops_wr : ℤ
  pub bps_max : ℤ
  pub bps_rd_max : ℤ
  pub bps_wr_max : ℤ
  pub iops_max : ℤ
  pub iops_rd_max : ℤ
  pub iops_wr_max : ℤ
  pub iops_size : ℤ
  pub write_threshold : ℤ
  pub image : ImageInfo

pub record QueryNameBlockNodesReturn : Type 0 where
  pub id : Text
  pub nodes : List NameBlockNode

module _ (H : Host) (unmarshal : Text → Error ⊎ QueryNameBlockNodesReturn) where
  -- GetNameBlockNodes
  unfoldable pub get_name_block_nodes : Manage H (List NameBlockNode)
  get_name_block_nodes = do
    raw ← execute_command_raw H query_named_block_nodes
    r ←
        or_fail (result (λ w. (unmarshal raw, w)))
          (λ e. errorf (text "failed parsing result " ++ e.message))
    pure r.nodes
