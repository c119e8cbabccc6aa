-- ===== src/Driver/Csi.antt =====
-- What the driver finds outside itself: the messages of the container storage interface, gRPC
-- status errors, and the client of the QSD service behind a connection.
use csi_qsd.Base.{Bool, Option, ◌⊎◌}
use csi_qsd.Go.Text.{Text}
use csi_qsd.Go.Number.{ℤ}
use csi_qsd.Host.{Error}
use csi_qsd.Qsd.Message.{Image, Snapshot, Response}

-- the codes of google.golang.org/grpc/codes that the driver returns; an error that carries none is
-- unknown
pub data Code : Type 0 where
  invalid_argument internal unknown : Code

-- status.Error(code, message)
pub record Status : Type 0 where
  pub code : Code
  pub message : Text

abbrev pub invalid : Text → Status
invalid m = record { code = invalid_argument; message = m }

abbrev pub internal_error : Text → Status
internal_error m = record { code = internal; message = m }

-- the oneof of VolumeContentSource
pub data ContentSource : Type 0 where
  snapshot volume : Text → ContentSource
  unset : ContentSource

-- messages; an optional message is a pointer, which may be nil
pub record CreateVolumeRequest : Type 0 where
  pub name : Text
  -- CapacityRange, by its required_bytes
  pub capacity_range : Option ℤ
  pub volume_content_source : Option ContentSource

pub record CsiVolume : Type 0 where
  pub volume_id : Text
  pub capacity_bytes : ℤ
  pub content_source : Option ContentSource

pub record CreateSnapshotRequest : Type 0 where
  pub name : Text
  pub source_volume_id : Text

pub record CsiSnapshot : Type 0 where
  pub snapshot_id : Text
  pub source_volume_id : Text
  pub ready_to_use : Bool
  pub size_bytes : ℤ
  pub creation_time : Option ℤ

-- the kinds of volume that a capability asks for
pub data AccessType : Type 0 where
  block mount no_access : AccessType

pub record NodePublishVolumeRequest : Type 0 where
  pub volume_id : Text
  pub target_path : Text
  pub volume_capability : Option AccessType

pub record NodeUnpublishVolumeRequest : Type 0 where
  pub volume_id : Text
  pub target_path : Text

-- What stands behind the connection to a QSD server: grpc.Dial and Close, the client's calls with
-- their timeouts, and the time as a protobuf timestamp.
pub record Remote : Type 1 where
  pub World : Type 0
  pub dial : Text → World → Option Error × World
  pub close : World → World
  pub create_volume : Image → World → (Error ⊎ Response) × World
  pub expose_vhost_user : Image → World → (Error ⊎ Response) × World
  pub delete_volume : Image → World → (Error ⊎ Response) × World
  pub delete_exporter : Image → World → (Error ⊎ Response) × World
  pub create_snapshot : Snapshot → World → (Error ⊎ Response) × World
  pub delete_snapshot : Snapshot → World → (Error ⊎ Response) × World
  pub timestamp : World → (Error ⊎ ℤ) × World

-- The system calls of the node service.
pub record Mounts : Type 1 where
  pub World : Type 0
  pub mkdir_all : Text → World → Option Error × World
  pub bind_mount : Text → Text → World → Option Error × World
  pub unmount : Text → World → Option Error × World
  pub remove_all : Text → World → Option Error × World
