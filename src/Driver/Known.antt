-- ===== src/Driver/Known.antt =====
-- What the driver holds against what the server holds.
pub mod Volumes
pub mod Snapshots
pub mod Rows
use mathlib.Core.Path.{subst}
use csi_qsd.Base.{
  ◌≡◌, refl, sym, ap, ◌∙◌, true, false, Bool, not, ◌&&◌, ◌||◌, ◌⊎◌, inl, inr, Option, none, some,
  List, [], ◌∷◌, arith, ◌++◌, if◌then◌else◌, Option-cases, Bool-cases,
}
use csi_qsd.Go.Text.{Text, text, ◌==◌, eq_iff, ==_refl}
use csi_qsd.Go.Number.{ℤ, pos}
use csi_qsd.Go.Table.{lookup, insert, delete, lookup-insert, lookup-delete}
use csi_qsd.Go.Exec.{replied, Outcome, ok, is_ok, ◌>>=◌, bind_after}
use csi_qsd.Host.{Host, Error}
use csi_qsd.Qsd.Message.{Image, Snapshot}
use csi_qsd.Qsd.Server.State as Qsd
use csi_qsd.Qsd.Server.State.{Server}
use csi_qsd.Qsd.Server.Effect.Held.{held}
use csi_qsd.Qsd.Server.Effect.Given.{held-create_volume, held-create_snapshot}
use csi_qsd.Qsd.Server.Effect.Cleared.{held-delete_volume, held-delete_snapshot}
use csi_qsd.Qsd.Requests.{Request, dispatch}
use csi_qsd.Qsd.Requests.Safety.{expose-server, unexpose-server}
use csi_qsd.Driver.Csi.{
  Remote, CreateVolumeRequest, CreateSnapshotRequest, ContentSource, snapshot, volume, unset,
}
use csi_qsd.Driver.State.{
  StoredVolume, StoredSnapshot, Driver, Sys, is_a_volume, is_a_snapshot, delete_volume,
  delete_snapshot,
}
use csi_qsd.Qsd.Server.Export.{handle_delete_exporter}
use csi_qsd.Driver.Volumes.{
  default_node, content_source, handle_create_volume, handle_delete_volume, delete_stored,
  unexpose_and_delete,
}
use csi_qsd.Driver.Snapshots.{
  handle_create_snapshot, handle_delete_snapshot, find_or_create, create_stored,
  delete_stored_snapshot,
}
use csi_qsd.Driver.Laws.{driver-delete_volume, driver-delete_snapshot}
use csi_qsd.Driver.OverServer.{capacity, is_accepted, with_volume, driver-create_volume}
use csi_qsd.Driver.Sent.{served, Created, create_volume-Created}
use csi_qsd.Driver.Calls.{D, Call, after}

abbrev pub is_some {ℓ} : {A : Type ℓ} → Option A → Bool
is_some none = false
is_some (some a) = true

-- the driver has the name as that of a volume or of a snapshot
abbrev pub is_known : Text → Driver → Bool
is_known k d = is_some (lookup k d.storage) || is_some (lookup k d.snapshots)

-- Every stored volume has its own name, and every image that carries a reference is one that the
-- driver knows.
pub record IsKnown (d : Driver) (s : Server) : Type 0 where
  pub keyed : (k : Text) (v : StoredVolume) → lookup k d.storage ≡ some v → v.id ≡ k
  pub known : (k : Text) → held k s.images ≡ true → is_known k d ≡ true
