-- ===== src/Tests/RoundTrips.antt =====
-- Volumes that are created and deleted again, on the server and through the driver.
use csi_qsd.Base.{◌≡◌, refl, none, inr}
use csi_qsd.Go.Text.{text}
use csi_qsd.Go.Number.{pos}
use csi_qsd.Go.Table.{lookup}
use csi_qsd.Qsd.Message.{Image}
use csi_qsd.Qsd.Server.State.{Sys}
use csi_qsd.Qsd.Server.Create
use csi_qsd.Qsd.Server.Delete
use csi_qsd.Qsd.Server.Delete.{delete_node}
use csi_qsd.Qsd.Server.RoundTrip.{delete-create_volume, delete-create_volume_released}
use csi_qsd.Qsd.Graph.Invariant.{IsForest}
use csi_qsd.Qsd.Requests.{Request, dispatch, Runs, serve}
use csi_qsd.Qsd.Requests.Safety.{Runs-IsForest}
use csi_qsd.Driver.Lifecycle.{delete-create_stored}
use csi_qsd.Driver.Volumes.{handle_delete_volume}
use csi_qsd.Tests.Hosts.{quiet, fresh}
use csi_qsd.Tests.Server.{program, snap0, snap0_image, layered, layered-IsForest, run}
use csi_qsd.Tests.Driver.{services, at_work, with_test0, wanted, working}

abbrev test1 : Image
test1 = record { id = text "test1"; size = pos 0; from_volume = text "test0" }

abbrev cloned : Sys quiet
cloned = (Create.handle_create_volume quiet test1 layered).1

delete-create_volume_example :
    (Delete.handle_delete_volume quiet test1 cloned).1.server ≡ layered.server
unfolding program delete_node
delete-create_volume_example =
    delete-create_volume quiet test1 layered layered-IsForest refl refl refl test1 cloned refl refl
      refl refl

-- the snapshot is deleted while it is the active layer of its volume
abbrev released : Sys quiet
released = (dispatch quiet (Request.delete_snapshot snap0) layered).1

released-IsForest : IsForest released.server.images
released-IsForest =
    Runs-IsForest quiet fresh released refl (serve (Request.delete_snapshot snap0) run tt)

abbrev test2 : Image
test2 = record { id = text "test2"; size = pos 0; from_volume = text "snap0" }

delete-create_volume_released_example :
    lookup
      (text "snap0")
      (Delete.handle_delete_volume quiet test2
        (Create.handle_create_volume quiet test2 released).1).1.server.images
    ≡ none
unfolding program delete_node
delete-create_volume_released_example =
    delete-create_volume_released quiet test2 released released-IsForest refl refl refl test2
      (Create.handle_create_volume quiet test2 released).1 refl refl refl
      (record snap0_image { volume_ref = text "" }) refl refl

fresh-IsForest : IsForest fresh.server.images
fresh-IsForest = Runs-IsForest quiet fresh fresh refl Runs.start

delete-create_stored_example :
    ((handle_delete_volume working (text "test0") with_test0).1.driver ≡ at_work.driver)
    × ((handle_delete_volume working (text "test0") with_test0).1.world.server
        ≡ at_work.world.server)
unfolding services
delete-create_stored_example =
    delete-create_stored quiet (λ _. none) (λ _. inr (pos 7)) wanted at_work refl fresh-IsForest
      refl refl refl refl refl
