-- ===== src/Tests/Driver.antt =====
-- The driver in front of a server on a quiet host and on a broken one.
use csi_qsd.Base.{◌≡◌, refl, true, false, none, some, inr, []}
use csi_qsd.Go.Text.{text}
use csi_qsd.Go.Number.{pos}
use csi_qsd.Go.Table.{lookup}
use csi_qsd.Go.Exec.{is_ok}
use csi_qsd.Driver.Csi.{Remote, CreateVolumeRequest, CreateSnapshotRequest, CsiSnapshot}
use csi_qsd.Driver.State.{Driver, Sys, new_driver, delete_volume, delete_snapshot}
use csi_qsd.Driver.Volumes.{
  content_source, find_or_store, create_and_expose, create_at, handle_create_volume,
  unexpose_and_delete, delete_stored, handle_delete_volume,
}
use csi_qsd.Driver.Snapshots.{
  create_stored, find_or_create, handle_create_snapshot, delete_stored_snapshot,
  handle_delete_snapshot,
}
use csi_qsd.Driver.OverServer.{with_volume, driver-create_volume, over_server, delete_volume_stuck}
use csi_qsd.Qsd.Server.Delete.{delete_node}
use csi_qsd.Qsd.Server.Export.{handle_expose_vhost_user, handle_delete_exporter}
use csi_qsd.Tests.Hosts.{quiet, broken, new, fresh}
use csi_qsd.Tests.Server.{program}

unfoldable pub services : Unit {0}
unfolding program new_driver delete_volume delete_snapshot content_source find_or_store
    create_and_expose create_at handle_create_volume unexpose_and_delete delete_stored
    handle_delete_volume create_stored find_or_create handle_create_snapshot delete_stored_snapshot
    handle_delete_snapshot handle_expose_vhost_user handle_delete_exporter delete_node
services = tt

abbrev pub working : Remote
working = over_server quiet (λ _. none) (λ _. inr (pos 7))

abbrev failing : Remote
failing = over_server broken (λ _. none) (λ _. inr (pos 7))

abbrev pub first_driver : Driver
first_driver =
    new_driver (text "unix:///csi.sock") (text "qsd.csi.com") (text "node0") (text "4444")

abbrev pub at_work : Sys working
at_work = record { driver = first_driver; world = fresh }

abbrev at_fault : Sys failing
at_fault = record { driver = first_driver; world = record { server = new; world = [] } }

abbrev pub wanted : CreateVolumeRequest
wanted = record {
  name = text "test0";
  capacity_range = some (pos 512000);
  volume_content_source = none;
}

abbrev pub taken : CreateSnapshotRequest
taken = record { name = text "snap0"; source_volume_id = text "test0" }

abbrev pub with_test0 : Sys working
with_test0 = (handle_create_volume working wanted at_work).1

abbrev with_snap0 : Sys working
with_snap0 = (handle_create_snapshot working taken with_test0).1

abbrev fault_test0 : Sys failing
fault_test0 = (handle_create_volume failing wanted at_fault).1

created : is_ok (handle_create_volume working wanted at_work).0 ≡ true
unfolding services
created = refl

not_created : is_ok (handle_create_volume failing wanted at_fault).0 ≡ false
unfolding services
not_created = refl

driver-create_volume_example :
    fault_test0.driver
    ≡ with_volume wanted (lookup (text "test0") at_fault.driver.storage) at_fault.driver
unfolding services
driver-create_volume_example = driver-create_volume failing wanted at_fault

delete_volume_stuck_example :
    (is_ok (handle_delete_volume failing (text "test0") fault_test0).0 ≡ false)
    × ((handle_delete_volume failing (text "test0") fault_test0).1 ≡ fault_test0)
unfolding services
delete_volume_stuck_example =
    delete_volume_stuck broken (λ _. none) (λ _. inr (pos 7)) (text "test0") fault_test0
      (record { id = text "test0"; size = pos 512000; node = text "k8s-qsd-control-plane" }) refl
      refl

abbrev snapshot_answer : CsiSnapshot
snapshot_answer = record {
  snapshot_id = text "snap0";
  source_volume_id = text "test0";
  ready_to_use = true;
  size_bytes = pos 512000;
  creation_time = some (pos 7);
}
