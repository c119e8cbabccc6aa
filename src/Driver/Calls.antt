-- ===== src/Driver/Calls.antt =====
-- The calls of the controller service of pkg/driver, one after the other, in front of the server of
-- pkg/qsd.
use csi_qsd.Base.{◌≡◌, true, ◌⊎◌, Option}
use csi_qsd.Go.Text.{Text}
use csi_qsd.Go.Number.{ℤ}
use csi_qsd.Host.{Host, Error}
use csi_qsd.Qsd.Server.State as Qsd
use csi_qsd.Qsd.Server.State.{Server}
use csi_qsd.Qsd.Requests.{IsFresh}
use csi_qsd.Driver.Csi.{Remote, CreateVolumeRequest, CreateSnapshotRequest}
use csi_qsd.Driver.State.{Sys, is_a_snapshot}
use csi_qsd.Driver.Volumes.{handle_create_volume, handle_delete_volume}
use csi_qsd.Driver.Snapshots.{handle_create_snapshot, handle_delete_snapshot}
use csi_qsd.Driver.Created.{R}

-- the calls of the controller service that change a state
pub data Call : Type 0 where
  create_volume : CreateVolumeRequest → Call
  delete_volume delete_snapshot : Text → Call
  create_snapshot : CreateSnapshotRequest → Call

module _ (H : Host) (dial : Text → Option Error) (clock : Qsd.Sys H → Error ⊎ ℤ) where
  abbrev pub D : Remote
  D = R H dial clock

  -- A new volume gets a name that the server has no image of, and so does a snapshot that the
  -- driver does not know.
  abbrev pub IsTakable : Call → Sys D → Type 0
  IsTakable (create_volume req) s = IsFresh req.name s.world.server
  IsTakable (create_snapshot req) s =
      (is_a_snapshot req.name s.driver ≡ true) ⊎ IsFresh req.name s.world.server
  IsTakable _ s = Unit

  -- driver and server after the call
  unfoldable pub after : Call → Sys D → Sys D
  after (create_volume req) s = (handle_create_volume D req s).1
  after (delete_volume id) s = (handle_delete_volume D id s).1
  after (create_snapshot req) s = (handle_create_snapshot D req s).1
  after (delete_snapshot id) s = (handle_delete_snapshot D id s).1

  -- what any number of such calls reach, whatever their answers
  pub data Calls (s : Sys D) : Sys D → Type 0 where
    idle : Calls s s
    call : (c : Call) {t : Sys D} → Calls s t → IsTakable c t → Calls s (after c t)
