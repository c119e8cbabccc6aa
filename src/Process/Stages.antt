-- ===== src/Process/Stages.antt =====
-- The start of cmd/qsd/main.go: the order of its stages, and that it never gets stuck.
use csi_qsd.Base.{ℕ, Bool, true, false, Option, none, some, ◌⊎◌, List, [], ◌∷◌, ◌≡◌, not}
use csi_qsd.Go.Text.{Text}
use csi_qsd.Host.{Host, Error}
use csi_qsd.Process.Qsd.{
  no_port, qsd_terminated, late, listen_failed, connect_failed, crashed, grpc_failed, Phase,
  starting, listening, connecting, serving, stopped, fatal, killed, Daemon, running, sent, received,
  Rpc, ended, Move, receive_pidfile, receive_result, time_out, listen, connect, receive_signal,
  receive_serve_error, Process, is_over,
}

-- the moves by which main starts the service, the last one first
abbrev pub stages : List Move → List Move
stages [] = []
stages (receive_pidfile ∷ ms) = receive_pidfile ∷ stages ms
stages (listen ∷ ms) = listen ∷ stages ms
stages (connect ∷ ms) = connect ∷ stages ms
stages (_ ∷ ms) = stages ms

abbrev pub up_to_listen : List Move
up_to_listen = listen ∷ receive_pidfile ∷ []

abbrev pub all_stages : List Move
all_stages = connect ∷ up_to_listen

-- the stages that are behind a process
abbrev pub Behind : Phase → List Move → Type 0
Behind starting l = l ≡ []
Behind listening l = l ≡ receive_pidfile ∷ []
Behind connecting l = l ≡ up_to_listen
Behind serving l = l ≡ all_stages
Behind stopped l = l ≡ all_stages
Behind (fatal no_port) l = l ≡ []
Behind (fatal (qsd_terminated r)) l = (l ≡ []) ⊎ (l ≡ all_stages)
Behind (fatal late) l = l ≡ []
Behind (fatal (listen_failed e)) l = l ≡ up_to_listen
Behind (fatal (connect_failed e)) l = l ≡ all_stages
Behind (fatal crashed) l = l ≡ all_stages
Behind (fatal (grpc_failed e)) l = l ≡ all_stages
Behind killed l = Unit

module _ (H : Host) (listen_at : Text → H.World → Option Error × H.World) where
  abbrev State : Type 0
  State = Process H listen_at

  -- how far main is
  abbrev pub rank : Phase → ℕ
  rank starting = 0
  rank listening = 1
  rank connecting = 2
  rank serving = 3
  rank _ = 4

  -- a case of the second select can be taken
  abbrev pub is_woken : Bool → Daemon → Rpc → Bool
  is_woken true d r = true
  is_woken false (sent o) r = true
  is_woken false running (ended e) = true
  is_woken false received (ended e) = true
  is_woken false _ _ = false

  -- main need not wait: the timer of the first select is sure to fire, the second has no timer
  abbrev pub is_ready : Phase → State → Bool
  is_ready serving p = is_woken p.signalled p.daemon p.rpc
  is_ready f p = not (is_over H listen_at f)

  -- the move of main that is due
  abbrev wake : Bool → Daemon → Move
  wake true d = receive_signal
  wake false (sent o) = receive_result
  wake false _ = receive_serve_error

  abbrev due : Phase → State → Move
  due starting p = time_out
  due listening p = listen
  due connecting p = connect
  due _ p = wake p.signalled p.daemon

  abbrev moved : State → Option State → State
  moved p none = p
  moved p (some q) = q
