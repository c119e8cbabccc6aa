-- ===== src/Tests/Volumes.antt =====
-- A run that creates a volume, takes a snapshot of it, and deletes the volume.
use csi_qsd.Base.{◌≡◌, refl, true}
use csi_qsd.Go.Exec.{returns}
use csi_qsd.Qsd.Requests.{Request, dispatch}
use csi_qsd.Qsd.Requests.Volumes.{
  OrderlyRuns, begin, then_serve, OrderlyRuns-IsServed, OrderlyRuns-returns,
}
use csi_qsd.Qsd.Server.Effect.Volumes.{IsServed}
use csi_qsd.Tests.Hosts.{quiet, fresh}
use csi_qsd.Tests.Server.{test0, snap0, layered, test0-IsFresh, snap0-IsFresh}

abbrev orderly : OrderlyRuns quiet fresh layered
orderly =
    then_serve (Request.create_snapshot snap0)
      (then_serve (Request.create_volume test0) begin test0-IsFresh tt) snap0-IsFresh tt

OrderlyRuns-IsServed_example : IsServed layered.server
OrderlyRuns-IsServed_example = OrderlyRuns-IsServed quiet fresh layered refl orderly

OrderlyRuns-returns_example :
    returns (dispatch quiet (Request.delete_volume test0) layered).0 ≡ true
OrderlyRuns-returns_example =
    OrderlyRuns-returns quiet fresh layered (Request.delete_volume test0) refl orderly tt
