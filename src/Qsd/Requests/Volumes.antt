-- ===== src/Qsd/Requests/Volumes.antt =====
-- Runs in which DeleteSnapshot is asked for snapshots only, and which handlers can panic then.
use csi_qsd.Base.{some, ◌≡◌, true, false, [], arith}
use csi_qsd.Go.Text.{Text}
use csi_qsd.Go.Table.{lookup}
use csi_qsd.Go.Exec.{returns}
use csi_qsd.Host.{Host}
use csi_qsd.Qsd.Server.State.{Server, Sys, generate_qsd_id}
use csi_qsd.Qsd.Server.Effect.Returns.{
  handle_create_volume-returns, handle_create_snapshot-returns, handle_expose_vhost_user-returns,
  handle_delete_exporter-returns, handle_delete_snapshot-returns,
}
use csi_qsd.Qsd.Server.Effect.Volumes.{has_layer, IsServed}
use csi_qsd.Qsd.Server.Effect.Added.{handle_create_volume-IsServed, handle_create_snapshot-IsServed}
use csi_qsd.Qsd.Server.Effect.Served.{
  handle_delete_volume-IsServed, handle_delete_snapshot-IsServed, handle_delete_volume-returns,
}
use csi_qsd.Qsd.Requests.{
  Request, create_volume, expose_vhost_user, delete_volume, delete_exporter, create_snapshot,
  delete_snapshot, IsAdmissible, dispatch,
}
use csi_qsd.Qsd.Requests.Safety.{expose-server, unexpose-server}

-- DeleteSnapshot does not name a volume that has an active layer
abbrev pub NamesSnapshot : Request → Server → Type 0
NamesSnapshot (delete_snapshot snapshot) s = has_layer snapshot.id s.active_layers ≡ false
NamesSnapshot _ s = Unit

-- generateQSDID does not panic on the name of a new image
abbrev pub TakesName : Request → Type 0
TakesName (create_volume image) = (q : Text) × (generate_qsd_id image.id ≡ some q)
TakesName (create_snapshot snapshot) = (q : Text) × (generate_qsd_id snapshot.id ≡ some q)
TakesName _ = Unit

module _ (H : Host) where
  -- the state after any number of admissible requests that take no volume for a snapshot
  pub data OrderlyRuns (s : Sys H) : Sys H → Type 0 where
    begin : OrderlyRuns s s
    then_serve :
        (r : Request) {t : Sys H}
        → OrderlyRuns s t
        → IsAdmissible r t.server
        → NamesSnapshot r t.server
        → OrderlyRuns s (dispatch H r t).1

  dispatch-IsServed :
      (r : Request) (s : Sys H)
      → IsAdmissible r s.server
      → NamesSnapshot r s.server
      → IsServed s.server
      → IsServed (dispatch H r s).1.server
  unfolding dispatch
  dispatch-IsServed (create_volume image) s a n served =
      handle_create_volume-IsServed H image s a.proper served
  dispatch-IsServed (expose_vhost_user image) s a n served = rw (expose-server H image s) served
  dispatch-IsServed (delete_volume image) s a n served =
      handle_delete_volume-IsServed H image s served
  dispatch-IsServed (delete_exporter image) s a n served = rw (unexpose-server H image s) served
  dispatch-IsServed (create_snapshot snapshot) s a n served =
      handle_create_snapshot-IsServed H snapshot s a.proper served
  dispatch-IsServed (delete_snapshot snapshot) s a n served =
      handle_delete_snapshot-IsServed H snapshot s n served

  -- After any such requests on a server that starts with no active layer, and whatever the host
  -- answered, every volume that has an active layer has an image of its own in the table, whose
  -- reference is not cleared.
  pub OrderlyRuns-IsServed :
      (s t : Sys H) → s.server.active_layers ≡ [] → OrderlyRuns s t → IsServed t.server
  unfolding lookup
  OrderlyRuns-IsServed s t e begin = λ k h. absurd (ground (arith, e))
  OrderlyRuns-IsServed s t e (then_serve r {t = u} run a n) =
      dispatch-IsServed r u a n (OrderlyRuns-IsServed s u e run)

  -- After any such requests on a server that starts with no active layer, every further request
  -- returns, if generateQSDID takes the name of a new image: no handler panics or runs for ever,
  -- whatever the host answers.
  pub OrderlyRuns-returns :
      (s t : Sys H) (r : Request)
      → s.server.active_layers ≡ []
      → OrderlyRuns s t
      → TakesName r
      → returns (dispatch H r t).0 ≡ true
  unfolding dispatch
  OrderlyRuns-returns s t (create_volume image) e run (q, named) =
      handle_create_volume-returns H image t q named
  OrderlyRuns-returns s t (expose_vhost_user image) e run n =
      handle_expose_vhost_user-returns H image t
  OrderlyRuns-returns s t (delete_volume image) e run n =
      handle_delete_volume-returns H image t (OrderlyRuns-IsServed s t e run)
  OrderlyRuns-returns s t (delete_exporter image) e run n = handle_delete_exporter-returns H image t
  OrderlyRuns-returns s t (create_snapshot snapshot) e run (q, named) =
      handle_create_snapshot-returns H snapshot t q named
  OrderlyRuns-returns s t (delete_snapshot snapshot) e run n =
      handle_delete_snapshot-returns H snapshot t
