-- ===== src/Tests/Processes.antt =====
-- Runs of the process of the QSD server on the quiet host.
use csi_qsd.Base.{◌≡◌, refl, Option, none, some, List, [], ◌∷◌}
use csi_qsd.Go.Text.{Text, text, ◌==◌}
use csi_qsd.Host.{Error}
use csi_qsd.Qsd.Commands.Manager.{new_volume_manager, create_new_unix_monitor}
use csi_qsd.Qsd.Server.State.{Server, new_server}
use csi_qsd.Qsd.Requests.{Request}
use csi_qsd.Process.Qsd.{
  Result, qsd_terminated, fatal, see_result, receive_result, serving, Move, poll, request,
  receive_pidfile, listen, connect, daemon_ends, Process, start, step, look, see_pidfile,
  try_listen, try_connect, answer, end_daemon, act,
}
use csi_qsd.Process.Stages.{stages, all_stages}
use csi_qsd.Tests.Hosts.{quiet, new}
use csi_qsd.Tests.Server.{program, test0}

abbrev listen_at : Text → List Text → Option Error × List Text
listen_at address w = (none, w)

abbrev State : Type 0
State = Process quiet listen_at

abbrev or_same : State → Option State → State
or_same p none = p
or_same p (some q) = q

abbrev after : Move → State → State
after m p = or_same p (step quiet listen_at m p)

abbrev port : Text
port = text "4444"

abbrev started : State
started = start quiet listen_at port []

abbrev looked : State
looked = after poll started

abbrev seen : State
seen = after receive_pidfile looked

abbrev bound : State
bound = after listen seen

abbrev up : State
up = after connect bound

abbrev filled : State
filled = after (request (Request.create_volume test0)) up

abbrev moves : List Move
moves = request (Request.create_volume test0) ∷ connect ∷ listen ∷ receive_pidfile ∷ poll ∷ []

abbrev broke : Result
broke = record { error = none; output = text "killed" }

unfoldable process : Unit {0}
unfolding program start step act look see_pidfile try_listen try_connect answer new_server
    new_volume_manager create_new_unix_monitor text ◌==◌
process = tt

filled_phase : (filled.phase ≡ serving) × (stages moves ≡ all_stages)
unfolding process
filled_phase = (refl, refl)

abbrev or_new : Option Server → Server
or_new none = new
or_new (some s) = s

-- the daemon ends while it serves: main comes to its end
lost : (after receive_result (after (daemon_ends broke) up)).phase ≡ fatal (qsd_terminated broke)
unfolding process end_daemon see_result
lost = refl
