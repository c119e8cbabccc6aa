-- ===== src/Tests/Server.antt =====
-- The handlers of the QSD server on the quiet host.
use mathlib.Core.Option
use csi_qsd.Base.{◌^◌, ◌<◌, ◌≡◌, ◌≢◌, refl, true, false, none, some, [], ◌∷◌, ◌++◌, arith, length}
use csi_qsd.Go.Text.{Text, text, ◌==◌, eq_iff, contains, trim_prefix, slice_to}
use csi_qsd.Go.Number.{pos, increment, decrement, is_below_one, is_positive, format_int}
use csi_qsd.Go.Table.{lookup, insert, delete}
use csi_qsd.Go.Exec.{returns}
use csi_qsd.Qsd.Message.{Image, Snapshot}
use csi_qsd.Qsd.Commands.Json.{blockdev_add_file, blockdev_add_overlay, blockdev_snapshot}
use csi_qsd.Qsd.Commands.Manager.{
  execute_command, execute_commands, qemu_img_snapshot, create_file, create_image, create_volume,
  delete_volume, expose_vhost_user, delete_exporter, create_snapshot_with_backing_node,
  create_snapshot,
}
use csi_qsd.Qsd.Graph.Invariant.{IsForest}
use csi_qsd.Qsd.Graph.Change.{Changes}
use csi_qsd.Qsd.Server.State.{QcowImage, Sys, generate_qsd_id}
use csi_qsd.Qsd.Server.Create.{create_empty, create_clone, handle_create_volume}
use csi_qsd.Qsd.Server.Delete.{
  delete_image, collect, visit, delete_node_with_zero_reference, delete_if_empty_dir,
  delete_or_forget, clean_up, handle_delete_volume,
}
use csi_qsd.Qsd.Server.Snapshots.{delete_or_keep, handle_create_snapshot, handle_delete_snapshot}
use csi_qsd.Qsd.Server.Effect.Recursion.{
  delete_node_with_zero_reference_lem, delete_node_with_zero_reference-returns,
}
use csi_qsd.Qsd.Server.Effect.Creation.{new_volume, new_snapshot, raise_count}
use csi_qsd.Qsd.Server.Layers.{forgotten, delete_volume_used}
use csi_qsd.Qsd.Server.Names.{generate_qsd_id-pvc}
use csi_qsd.Qsd.Requests.{Request, dispatch, IsFresh, Runs, start, serve}
use csi_qsd.Qsd.Requests.Counters.{Runs_bounds}
use csi_qsd.Qsd.Requests.Safety.{dispatch-Changes, Runs-IsForest}
use csi_qsd.Tests.Hosts.{quiet, new, fresh}

unfoldable pub program : Unit {0}
unfolding text ◌==◌ contains trim_prefix slice_to increment decrement is_below_one is_positive
    format_int lookup insert delete execute_command execute_commands qemu_img_snapshot create_file
    create_image create_volume delete_volume expose_vhost_user delete_exporter
    create_snapshot_with_backing_node create_snapshot generate_qsd_id create_empty create_clone
    handle_create_volume delete_image collect delete_node_with_zero_reference delete_if_empty_dir
    delete_or_forget clean_up handle_delete_volume delete_or_keep handle_create_snapshot
    handle_delete_snapshot dispatch
program = tt

abbrev pub test0 : Image
test0 = record { id = text "test0"; size = pos 512000; from_volume = text "" }

abbrev pub snap0 : Snapshot
snap0 = record { id = text "snap0"; source_volume_id = text "test0" }

abbrev pub created : Sys quiet
created = (dispatch quiet (Request.create_volume test0) fresh).1

abbrev pub layered : Sys quiet
layered = (dispatch quiet (Request.create_snapshot snap0) created).1

created_images :
    Option.map (λ v. v.ref_count) (lookup (text "test0") created.server.images) ≡ some 0
unfolding program
created_images = refl

layered_count : Option.map (λ v. v.ref_count) (lookup (text "test0") layered.server.images) ≡ some 1
unfolding program
layered_count = refl

-- the commands of the two requests, the last one first
commands :
    layered.world
    ≡ blockdev_snapshot (text "test0") (text "snap0")
      ∷ blockdev_add_overlay (text "/var/run/qsd/images/test0/snap-snap0") (text "snap0")
      ∷ blockdev_add_file (text "/var/run/qsd/images/test0/disk.img") (text "test0")
      ∷ []
unfolding program
commands = refl

pub ne_of_test : (s t : Text) → (s == t) ≡ false → s ≢ t
ne_of_test s t h e = ground (arith, eq_iff s t)

pub test0-IsFresh : IsFresh (text "test0") new
unfolding program
test0-IsFresh = record {
  absent = refl;
  proper = ne_of_test (text "test0") (text "") refl;
  room = omega arith;
}

pub snap0-IsFresh : IsFresh (text "snap0") created.server
unfolding program
snap0-IsFresh = record {
  absent = refl;
  proper = ne_of_test (text "snap0") (text "") refl;
  room = omega arith;
}

abbrev pub run : Runs quiet fresh layered
run =
    serve (Request.create_snapshot snap0) (serve (Request.create_volume test0) start test0-IsFresh)
      snap0-IsFresh

pub layered-IsForest : IsForest layered.server.images
layered-IsForest = Runs-IsForest quiet fresh layered refl run

Runs-IsForest_example : IsForest layered.server.images
Runs-IsForest_example = Runs-IsForest quiet fresh layered refl run

dispatch-Changes_example : Changes created.server.images layered.server.images
dispatch-Changes_example =
    dispatch-Changes quiet (Request.create_snapshot snap0) created snap0-IsFresh

delete_node_with_zero_reference_lem_example :
    delete_node_with_zero_reference quiet (text "test0") layered
    ≡ visit quiet (delete_node_with_zero_reference quiet) (text "test0") layered
delete_node_with_zero_reference_lem_example =
    delete_node_with_zero_reference_lem quiet (text "test0") layered

delete_node_with_zero_reference-returns_example :
    returns (delete_node_with_zero_reference quiet (text "test0") layered).0 ≡ true
delete_node_with_zero_reference-returns_example =
    delete_node_with_zero_reference-returns quiet (text "test0") layered

abbrev pub test0_image : QcowImage
test0_image = raise_count (new_volume test0 (text "test0") (text "") 0)

abbrev pub snap0_image : QcowImage
snap0_image = new_snapshot snap0 (text "snap0") (text "test0") 1

delete_volume_used_example :
    (handle_delete_volume quiet test0 layered).1.server ≡ record (layered.server) {
      images = insert (text "test0") (forgotten test0_image) layered.server.images;
      active_layers = delete (text "test0") layered.server.active_layers;
    }
unfolding program
delete_volume_used_example =
    delete_volume_used quiet test0 layered layered-IsForest (text "snap0") snap0_image test0_image
      refl refl refl refl

generate_qsd_id-pvc_example : generate_qsd_id (text "pvc-" ++ text "0a1b") ≡ none
unfolding text
generate_qsd_id-pvc_example = generate_qsd_id-pvc (text "0a1b")

Runs_bounds_example :
    (snap0_image.depth < length layered.server.images)
    × (snap0_image.ref_count < length layered.server.images)
    × (length layered.server.images < 2 ^ 31)
unfolding program
Runs_bounds_example = Runs_bounds quiet fresh layered (text "snap0") snap0_image refl run refl
