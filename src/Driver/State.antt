-- ===== src/Driver/State.antt =====
-- pkg/driver/driver.go: the state of `Driver` and its small methods.
use csi_qsd.Base.{Bool, true, false, Option, none, some, [], ◌++◌}
use csi_qsd.Go.Text.{Text, text, trim_prefix, slice_to}
use csi_qsd.Go.Number.{ℤ}
use csi_qsd.Go.Table.{Table, lookup, delete}
use csi_qsd.Go.Exec.{Exec, pure, ◌>>=◌, ◌>>◌, or_fail, attempt, deferring}
use csi_qsd.Host.{Error}
use csi_qsd.Driver.Csi.{Remote, Status}

abbrev pub default_driver_name : Text
default_driver_name = text "qsd.csi.com"

abbrev pub driver_version : Text
driver_version = text "0.0.0"

abbrev pub socket_dir : Text
socket_dir = text "/var/run/qsd/sockets"

pub record StoredVolume : Type 0 where
  pub id : Text
  pub size : ℤ
  pub node : Text

pub record StoredSnapshot : Type 0 where
  pub base_id : Text
  pub node : Text
  pub source : Text
  pub size : ℤ

-- the fields of Driver that the services read and write
pub record Driver : Type 0 where
  pub name : Text
  pub version : Text
  pub endpoint : Text
  pub ready : Bool
  pub port : Text
  pub storage : Table StoredVolume
  pub snapshots : Table StoredSnapshot
  pub node_id : Text

-- NewDriver, which never fails
unfoldable pub new_driver : Text → Text → Text → Text → Driver
new_driver endpoint driver_name node_id port = record {
  name = driver_name;
  version = driver_version;
  endpoint = endpoint;
  ready = true;
  port = port;
  storage = [];
  snapshots = [];
  node_id = node_id;
}

has {ℓ} : {V : Type ℓ} → Option V → Bool
has none = false
has (some v) = true

-- deleteVolume, isAVolume, isASnapshot, deleteSnapshot
unfoldable pub delete_volume : Text → Driver → Driver
delete_volume id d = record d { storage = delete id d.storage }

unfoldable pub is_a_volume : Text → Driver → Bool
unfolding has
is_a_volume id d = has (lookup id d.storage)

unfoldable pub is_a_snapshot : Text → Driver → Bool
unfolding has
is_a_snapshot id d = has (lookup id d.snapshots)

unfoldable pub delete_snapshot : Text → Driver → Driver
delete_snapshot id d = record d { snapshots = delete id d.snapshots }

-- createImageID and createSnapshotID; `none` is the panic of a slice past the end
unfoldable pub create_image_id : Text → Option Text
create_image_id id = slice_to 8 (trim_prefix id (text "pvc-"))

unfoldable pub create_snapshot_id : Text → Option Text
create_snapshot_id id = slice_to 8 (trim_prefix id (text "snapshot-"))

module _ (R : Remote) where
  open R use {World}

  pub record Sys : Type 0 where
    pub driver : Driver
    pub world : World

  abbrev pub Service : Type 0 → Type 0
  Service A = Exec Sys Status A

  -- an action of the world that leaves the driver alone
  abbrev pub on_world : {A : Type 0} → Exec World Error A → Exec Sys Error A
  on_world m s = ((m s.world).0, record s { world = (m s.world).1 })

  abbrev pub get_driver : Service Driver
  get_driver s = pure s.driver s

  abbrev pub put_driver : Driver → Service Unit
  put_driver d s = pure tt (record s { driver = d })

  -- grpc.Dial to the node with its error, the client's calls, and the deferred Close
  abbrev pub with_client : {A : Type 0} → Text → (Error → Status) → Service A → Service A
  with_client node fail body = do
    d ← get_driver
    or_fail (on_world (attempt (R.dial (node ++ (text ":" ++ d.port))))) fail
    deferring (λ s. record s { world = R.close s.world }) body
