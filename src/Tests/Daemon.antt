-- ===== src/Tests/Daemon.antt =====
-- The server over a storage daemon that does as documented.
use csi_qsd.Base.{◌≡◌, refl, true, false, none, some, inr, [], ◌∷◌, arith}
use csi_qsd.Go.Text.{text}
use csi_qsd.Go.Plain.{is_plain}
use csi_qsd.Go.Number.{pos}
use csi_qsd.Go.Exec.{is_ok}
use csi_qsd.Host.{Host, Error, errorf}
use csi_qsd.Qsd.Message.{Image, Snapshot}
use csi_qsd.Qsd.Commands.Json.{
  blockdev_add_file, blockdev_add_overlay, blockdev_snapshot, blockdev_del, block_export_add,
}
use csi_qsd.Qsd.Server.State as Qsd
use csi_qsd.Qsd.Server.Create.{handle_create_volume}
use csi_qsd.Qsd.Server.Delete.{delete_image}
use csi_qsd.Qsd.Server.Snapshots.{handle_create_snapshot}
use csi_qsd.Qsd.Server.Effect.Creation.{new_volume}
use csi_qsd.Qsd.Requests.{Request, dispatch}
use csi_qsd.Qsd.Daemon.Deletion.{IsSound}
use csi_qsd.Qsd.Daemon.Runs.{PlainRuns, first, then_plain, PlainRuns-IsSound, IsNamed}
use csi_qsd.Qsd.Daemon.Taken.{create_taken}
use csi_qsd.Qsd.Daemon.Orphan.{create_snapshot_orphan}
use csi_qsd.Qsd.Daemon.Stuck.{delete_image_stuck}
use csi_qsd.Driver.Csi.{Remote}
use csi_qsd.Driver.State.{Sys}
use csi_qsd.Driver.Volumes
use csi_qsd.Driver.Calls.{Call, D, after}
use csi_qsd.Driver.Mirrored.{PlainCalls, rest, then_call, PlainCalls-IsSound}
use csi_qsd.Driver.Twice.{create_volume_twice}
use csi_qsd.Tests.Driver.{services, first_driver, wanted}
use csi_qsd.Tests.Hosts.{new}
use csi_qsd.Tests.Nodes.{storage, documented, answer, mem}
use csi_qsd.Tests.Server.{program, test0, snap0, ne_of_test}

abbrev working : Host
working = storage none none

unfoldable setup : Unit {0}
unfolding program answer mem is_plain blockdev_add_file blockdev_add_overlay blockdev_snapshot
    blockdev_del block_export_add
setup = tt

abbrev start : Qsd.Sys working
start = record { server = new; world = [] }

abbrev created : Qsd.Sys working
created = (dispatch working (Request.create_volume test0) start).1

abbrev layered : Qsd.Sys working
layered = (dispatch working (Request.create_snapshot snap0) created).1

nodes : layered.world ≡ text "snap0" ∷ text "test0" ∷ []
unfolding setup
nodes = refl

test0-IsNamed : IsNamed (text "test0") new
unfolding setup
test0-IsNamed = record {
  plain = refl;
  proper = ne_of_test (text "test0") (text "") refl;
  room = omega arith;
}

snap0-IsNamed : IsNamed (text "snap0") created.server
unfolding setup
snap0-IsNamed = record {
  plain = refl;
  proper = ne_of_test (text "snap0") (text "") refl;
  room = omega arith;
}

test0_plain : is_plain (text "test0") ≡ true
unfolding setup
test0_plain = refl

abbrev run : PlainRuns working start layered
run =
    then_plain (Request.create_snapshot snap0)
      (then_plain (Request.create_volume test0) first test0-IsNamed) (snap0-IsNamed, test0_plain)

PlainRuns-IsSound_example : IsSound working (documented none none) (λ path w. refl) layered
PlainRuns-IsSound_example =
    PlainRuns-IsSound working (documented none none) (λ path w. refl) start layered refl run

-- two names that the first eight bytes behind the prefix do not tell apart
abbrev first_volume : Image
first_volume = record { id = text "pvc-deadbeef-1"; size = pos 512000; from_volume = text "" }

abbrev second_volume : Image
second_volume = record { id = text "pvc-deadbeef-2"; size = pos 512000; from_volume = text "" }

abbrev second_snapshot : Snapshot
second_snapshot = record { id = text "pvc-deadbeef-2"; source_volume_id = text "pvc-deadbeef-1" }

first-IsNamed : IsNamed first_volume.id new
unfolding setup
first-IsNamed = record {
  plain = refl;
  proper = ne_of_test first_volume.id (text "") refl;
  room = omega arith;
}

abbrev claimed : Qsd.Sys working
claimed = (dispatch working (Request.create_volume first_volume) start).1

create_taken_example :
    (is_ok (handle_create_volume working second_volume claimed).0 ≡ false)
    × ((handle_create_volume working second_volume claimed).1.server ≡ claimed.server)
    × (is_ok (handle_create_snapshot working second_snapshot claimed).0 ≡ false)
    × ((handle_create_snapshot working second_snapshot claimed).1.server ≡ claimed.server)
unfolding setup
create_taken_example =
    create_taken working (documented none none) (λ path w. refl) start claimed refl
      (then_plain (Request.create_volume first_volume) first first-IsNamed) first_volume.id
      (new_volume first_volume (text "deadbeef") (text "") 0) second_volume second_snapshot refl
      refl refl refl

-- os.Remove fails on every file
abbrev no_removal : Error
no_removal = errorf (text "Permission denied")

abbrev failing : Host
failing = storage none (some no_removal)

abbrev stuck_start : Qsd.Sys failing
stuck_start = record { server = created.server; world = text "test0" ∷ [] }

delete_image_stuck_example :
    (is_ok (delete_image failing (text "test0") stuck_start).0 ≡ false)
    × ((delete_image failing (text "test0") stuck_start).1.server ≡ stuck_start.server)
    × (is_ok
          (delete_image failing
            (text "test0")
            (delete_image failing (text "test0") stuck_start).1).0
        ≡ false)
unfolding setup
delete_image_stuck_example =
    delete_image_stuck failing (documented none (some no_removal)) (text "test0")
      (new_volume test0 (text "test0") (text "") 0) refl stuck_start no_removal refl refl refl

-- the driver in front of the server
abbrev side : Remote
side = D working (λ _. none) (λ _. inr (pos 7))

abbrev driven : Sys side
driven = record { driver = first_driver; world = start }

abbrev twice : Call
twice = Call.create_volume wanted

abbrev after_one : Sys side
after_one = after working (λ _. none) (λ _. inr (pos 7)) twice driven

wanted-IsNamed : IsNamed (text "test0") after_one.world.server
unfolding setup services after
wanted-IsNamed = record {
  plain = refl;
  proper = ne_of_test (text "test0") (text "") refl;
  room = omega arith;
}

abbrev calls : PlainCalls working (λ _. none) (λ _. inr (pos 7)) driven after_one
calls = then_call twice rest test0-IsNamed

-- the volume is asked for twice
PlainCalls-IsSound_example :
    IsSound working
      (documented none none)
      (λ path w. refl)
      (after working (λ _. none) (λ _. inr (pos 7)) twice after_one).world
PlainCalls-IsSound_example =
    PlainCalls-IsSound working (λ _. none) (λ _. inr (pos 7)) (documented none none)
      (λ path w. refl) driven (after working (λ _. none) (λ _. inr (pos 7)) twice after_one) refl
      (then_call twice calls wanted-IsNamed)

create_volume_twice_example :
    (is_ok (Volumes.handle_create_volume side wanted after_one).0 ≡ false)
    × ((Volumes.handle_create_volume side wanted after_one).1.world.server ≡ after_one.world.server)
unfolding setup services after
create_volume_twice_example =
    create_volume_twice working (λ _. none) (λ _. inr (pos 7)) (documented none none)
      (λ path w. refl) driven after_one refl calls wanted
      (new_volume test0 (text "test0") (text "") 0) refl refl

-- blockdev-snapshot fails
abbrev no_snapshot : Error
no_snapshot = errorf (text "Cannot open the overlay")

abbrev halting : Host
halting = storage (some no_snapshot) none

abbrev one_volume : Qsd.Sys halting
one_volume =
    (dispatch halting (Request.create_volume test0) (record { server = new; world = [] })).1

one_volume-IsSound :
    IsSound halting (documented (some no_snapshot) none) (λ path w. refl) one_volume
one_volume-IsSound =
    PlainRuns-IsSound halting (documented (some no_snapshot) none) (λ path w. refl)
      (record { server = new; world = [] }) one_volume refl
      (then_plain (Request.create_volume test0) first test0-IsNamed)

create_snapshot_orphan_example :
    (is_ok (handle_create_snapshot halting snap0 one_volume).0 ≡ false)
    × ((handle_create_snapshot halting snap0 one_volume).1.server ≡ one_volume.server)
    × ((documented (some no_snapshot) none).has
          (text "snap0")
          (handle_create_snapshot halting snap0 one_volume).1.world
        ≡ true)
    × (is_ok
          (handle_create_snapshot halting snap0
            (handle_create_snapshot halting snap0 one_volume).1).0
        ≡ false)
unfolding setup
create_snapshot_orphan_example =
    create_snapshot_orphan halting (documented (some no_snapshot) none) snap0 one_volume
      one_volume-IsSound.mirror (text "test0") (text "snap0")
      (new_volume test0 (text "test0") (text "") 0) refl refl refl refl refl refl refl refl refl

-- a clone of the volume
abbrev clone0 : Image
clone0 = record { id = text "clone0"; size = pos 512000; from_volume = text "test0" }
