-- ===== src/Qsd/Requests.antt =====
-- The requests of the QSD service, one at a time and in a row. The gRPC server runs each handler
-- in a goroutine of its own; the handlers take no lock, so only runs in which no two overlap are
-- modelled.
pub mod Safety
pub mod Counters
pub mod Reuse
pub mod Volumes
use csi_qsd.Base.{ℕ, ◌+◌, ◌^◌, ◌<◌, ◌≡◌, ◌≢◌, none, [], length}
use csi_qsd.Go.Text.{Text, text}
use csi_qsd.Go.Table.{lookup}
use csi_qsd.Host.{Host}
use csi_qsd.Qsd.Message.{Image, Snapshot, Response}
use csi_qsd.Qsd.Server.State.{Server, Sys, Handler}
use csi_qsd.Qsd.Server.Create.{handle_create_volume}
use csi_qsd.Qsd.Server.Delete.{handle_delete_volume}
use csi_qsd.Qsd.Server.Export.{handle_expose_vhost_user, handle_delete_exporter}
use csi_qsd.Qsd.Server.Snapshots.{handle_create_snapshot, handle_delete_snapshot}

-- the calls of QsdServiceServer that may change the server
pub data Request : Type 0 where
  create_volume expose_vhost_user delete_volume delete_exporter : Image → Request
  create_snapshot delete_snapshot : Snapshot → Request

-- A name that is not in use and not empty, and room for one more image.
pub record IsFresh (id : Text) (s : Server) : Type 0 where
  pub absent : lookup id s.images ≡ none
  pub proper : id ≢ text ""
  pub room : length s.images + 1 < 2 ^ 31

-- What a client has to respect: new images get fresh names.
abbrev pub IsAdmissible : Request → Server → Type 0
IsAdmissible (create_volume image) s = IsFresh image.id s
IsAdmissible (create_snapshot snapshot) s = IsFresh snapshot.id s
IsAdmissible _ s = Unit

module _ (H : Host) where
  unfoldable pub dispatch : Request → Handler H Response
  dispatch (create_volume image) = handle_create_volume H image
  dispatch (expose_vhost_user image) = handle_expose_vhost_user H image
  dispatch (delete_volume image) = handle_delete_volume H image
  dispatch (delete_exporter image) = handle_delete_exporter H image
  dispatch (create_snapshot snapshot) = handle_create_snapshot H snapshot
  dispatch (delete_snapshot snapshot) = handle_delete_snapshot H snapshot

  -- the state after any number of admissible requests, whatever their replies
  pub data Runs (s : Sys H) : Sys H → Type 0 where
    start : Runs s s
    serve : (r : Request) {t : Sys H} → Runs s t → IsAdmissible r t.server → Runs s (dispatch r t).1
