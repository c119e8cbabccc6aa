-- ===== src/Qsd/Message.antt =====
-- The messages of pkg/qsd/qsd.proto, as pkg/qsd/qsd.pb.go declares them.
use csi_qsd.Base.{ℕ, Bool, List}
use csi_qsd.Go.Text.{Text}
use csi_qsd.Go.Number.{ℤ}

pub record Image : Type 0 where
  pub id : Text
  pub size : ℤ
  pub from_volume : Text

pub record Snapshot : Type 0 where
  pub id : Text
  pub source_volume_id : Text

pub record Response : Type 0 where
  pub success : Bool
  pub message : Text

-- ref_count is an int32 and depth a uint32, each as its bit pattern
pub record Volume : Type 0 where
  pub qsd_id : Text
  pub backing_image_id : Text
  pub file : Text
  pub ref_count : ℕ
  pub volume_ref : Text
  pub depth : ℕ

pub record ResponseListVolumes : Type 0 where
  pub volumes : List Volume
