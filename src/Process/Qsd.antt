-- ===== src/Process/Qsd.antt =====
-- cmd/qsd/main.go: the process of the QSD server as a step function. The main goroutine, the
-- goroutine that runs the storage daemon, the one that waits for its pidfile and the gRPC server
-- take their steps in any order. A timer may fire at any time while it is waited for.
use csi_qsd.Base.{
  Bool, true, false, Option, none, some, List, [], ◌∷◌, ◌≡◌, not, ◌++◌, if◌then◌else◌,
}
use csi_qsd.Go.Text.{Text, text, ◌==◌}
use csi_qsd.Go.Exec.{Outcome, ok, err, panic, diverge}
use csi_qsd.Host.{Host, Error, is_not_exist}
use csi_qsd.Qsd.Server.State.{Server, new_server}
use csi_qsd.Qsd.Requests.{Request, IsAdmissible, dispatch}

abbrev pub qsd_pidfile : Text
qsd_pidfile = text "/var/run/qsd.pid"

abbrev pub qsd_sock : Text
qsd_sock = text "/var/run/qsd-qmp.sock"

-- the command that runs the storage daemon
abbrev pub daemon_command : List Text
daemon_command =
    text "qemu-storage-daemon"
    ∷ text "--pidfile"
    ∷ qsd_pidfile
    ∷ text "--chardev"
    ∷ (text "socket,server=on,path=" ++ (qsd_sock ++ text ",id=chardev0,wait=off"))
    ∷ text "--monitor"
    ∷ text "chardev=chardev0"
    ∷ []

-- what the storage daemon printed, and its error
pub record Result : Type 0 where
  pub error : Option Error
  pub output : Text

-- why log.Fatalf ended the process
pub data Reason : Type 0 where
  no_port : Reason
  qsd_terminated : Result → Reason
  late : Reason
  listen_failed : Error → Reason
  connect_failed : Error → Reason
  -- panic or no end of NewServer
  crashed : Reason
  grpc_failed : Option Error → Reason

-- where the main goroutine stands: at the first select, before Listen, before NewServer, at the
-- second select, or at its end
pub data Phase : Type 0 where
  starting listening connecting serving : Phase
  -- main returned
  stopped : Phase
  fatal : Reason → Phase
  -- a signal came before signal.Notify
  killed : Phase

-- the goroutine that runs the daemon, with what it sent to its channel
pub data Daemon : Type 0 where
  running : Daemon
  sent : Result → Daemon
  received : Daemon

-- the goroutine that looks for the pidfile: between two looks, or sending
pub data Poller : Type 0 where
  polling offering : Poller

-- srv.Serve in its goroutine
pub data Rpc : Type 0 where
  idle active : Rpc
  ended : Option Error → Rpc

pub data Move : Type 0 where
  -- of the goroutines
  daemon_ends : Result → Move
  poll : Move
  serve_ends : Option Error → Move
  -- of the environment
  signal : Move
  request : Request → Move
  -- of the main goroutine
  receive_pidfile receive_result time_out listen connect receive_signal receive_serve_error : Move

module _ (H : Host) (listen_at : Text → H.World → Option Error × H.World) where
  pub record Process : Type 0 where
    pub port : Text
    pub phase : Phase
    pub daemon : Daemon
    pub poller : Poller
    pub rpc : Rpc
    pub signalled : Bool
    pub server : Option Server
    pub world : H.World

  -- main, as far as the first select
  unfoldable pub start : Text → H.World → Process
  start port w = record {
    port = port;
    phase = if port == text "" then fatal no_port else starting;
    daemon = running;
    poller = polling;
    rpc = idle;
    signalled = false;
    server = none;
    world = w;
  }

  abbrev pub is_over : Phase → Bool
  is_over stopped = true
  is_over (fatal r) = true
  is_over killed = true
  is_over _ = false

  unfoldable pub end_daemon : Result → Daemon → Process → Option Process
  end_daemon r running p = some (record p { daemon = sent r })
  end_daemon r (sent r') p = none
  end_daemon r received p = none

  -- `if _, err := os.Stat(qsdPidfile); !os.IsNotExist(err)`
  unfoldable pub look : Poller → Process → Option Process
  look polling p =
      let (e, w) = H.stat qsd_pidfile p.world in
      some (record p { poller = if not (is_not_exist e) then offering else polling; world = w })
  look offering p = none

  unfoldable pub end_serve : Option Error → Rpc → Process → Option Process
  end_serve e active p = some (record p { rpc = ended e })
  end_serve e idle p = none
  end_serve e (ended e') p = none

  -- before signal.Notify a signal kills the process
  unfoldable pub take_signal : Phase → Process → Process
  take_signal serving p = record p { signalled = true }
  take_signal _ p = record p { phase = killed }

  unfoldable pub answer : Request → Rpc → Option Server → Process → Option Process
  answer r active (some s) p =
      let t = (dispatch H r (record { server = s; world = p.world })).1 in
      some (record p { server = some t.server; world = t.world })
  answer r active none p = none
  answer r idle s p = none
  answer r (ended e) s p = none

  -- the cases of the first select
  unfoldable pub see_pidfile : Phase → Poller → Process → Option Process
  see_pidfile starting offering p = some (record p { phase = listening; poller = polling })
  see_pidfile _ _ p = none

  unfoldable pub see_timer : Phase → Process → Option Process
  see_timer starting p = some (record p { phase = fatal late })
  see_timer _ p = none

  -- a case of both
  unfoldable pub see_result : Phase → Daemon → Process → Option Process
  see_result starting (sent r) p =
      some (record p { phase = fatal (qsd_terminated r); daemon = received })
  see_result serving (sent r) p =
      some (record p { phase = fatal (qsd_terminated r); daemon = received })
  see_result _ _ p = none

  -- the other cases of the second
  unfoldable pub see_signal : Phase → Bool → Process → Option Process
  see_signal serving true p = some (record p { phase = stopped; rpc = idle })
  see_signal _ _ p = none

  unfoldable pub see_serve_error : Phase → Rpc → Process → Option Process
  see_serve_error serving (ended e) p = some (record p { phase = fatal (grpc_failed e) })
  see_serve_error _ _ p = none

  abbrev pub listened : Option Error → Phase
  listened none = connecting
  listened (some e) = fatal (listen_failed e)

  unfoldable pub try_listen : Phase → Process → Option Process
  try_listen listening p =
      let (e, w) = listen_at (text "0.0.0.0:" ++ p.port) p.world in
      some (record p { phase = listened e; world = w })
  try_listen _ p = none

  abbrev pub connected : Outcome Error Server → Process → Process
  connected (ok s) p = record p { phase = serving; rpc = active; server = some s }
  connected (err e) p = record p { phase = fatal (connect_failed e) }
  connected panic p = record p { phase = fatal crashed }
  connected diverge p = record p { phase = fatal crashed }

  unfoldable pub try_connect : Phase → Process → Option Process
  try_connect connecting p =
      let (o, w) = new_server H qsd_sock p.world in some (connected o (record p { world = w }))
  try_connect _ p = none

  unfoldable pub act : Move → Process → Option Process
  act (daemon_ends r) p = end_daemon r p.daemon p
  act poll p = look p.poller p
  act (serve_ends e) p = end_serve e p.rpc p
  act signal p = some (take_signal p.phase p)
  act (request r) p = answer r p.rpc p.server p
  act receive_pidfile p = see_pidfile p.phase p.poller p
  act receive_result p = see_result p.phase p.daemon p
  act time_out p = see_timer p.phase p
  act listen p = try_listen p.phase p
  act connect p = try_connect p.phase p
  act receive_signal p = see_signal p.phase p.signalled p
  act receive_serve_error p = see_serve_error p.phase p.rpc p

  -- the process after a move, or `none` where it cannot be made
  unfoldable pub step : Move → Process → Option Process
  step m p = if is_over p.phase then none else act m p

  abbrev pub IsTaken : Move → Option Server → Type 0
  IsTaken (request r) (some s) = IsAdmissible r s
  IsTaken _ _ = Unit

  -- What a process reaches from its start, with its moves, the last one first, and admissible
  -- requests only.
  pub data Reaches (port : Text) (w : H.World) : List Move → Process → Type 0 where
    begin : Reaches port w [] (start port w)
    move :
        {ms : List Move} {p q : Process} (m : Move)
        → Reaches port w ms p
        → step m p ≡ some q
        → IsTaken m p.server
        → Reaches port w (m ∷ ms) q
