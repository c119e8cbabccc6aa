-- ===== src/Tests/Hosts.antt =====
-- Concrete environments.
use csi_qsd.Base.{false, none, some, inl, inr, List, [], ◌∷◌}
use csi_qsd.Go.Text.{Text, text}
use csi_qsd.Host.{Host, errorf}
use csi_qsd.Qsd.Server.State.{Server, Sys}

-- A host on which every call succeeds. Its world is the list of the QMP commands that were run, the
-- last one first.
abbrev pub quiet : Host
quiet = record {
  World = List Text;
  mkdir_all = λ path w. (none, w);
  stat = λ path w. (none, w);
  remove = λ path w. (none, w);
  read_dir = λ path w. (inr [], w);
  combined_output = λ cmd w. (([], none), w);
  command_string = λ cmd. text "qemu-img";
  errorf_extra = λ out e. out;
  new_socket_monitor = λ socket w. (none, w);
  connect = λ w. (none, w);
  disconnect = λ w. w;
  run = λ cmd w. (inr [], cmd ∷ w);
  events = λ w. (none, w);
  next_event = λ w. (some (text "BLOCK_JOB_COMPLETED"), w);
  timer_fires = λ w. (false, w);
  unmarshal_status = λ raw. none;
}

-- a host on which no QMP command succeeds
abbrev pub broken : Host
broken = record quiet { run = λ cmd w. (inl (errorf (text "no monitor")), w) }

abbrev pub new : Server
new = record { qsd_sock = text "/var/run/qsd-qmp.sock"; images = []; active_layers = [] }

abbrev pub fresh : Sys quiet
fresh = record { server = new; world = [] }
