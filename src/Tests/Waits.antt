-- ===== src/Tests/Waits.antt =====
-- Waiting for a job: on a monitor with a script of events, and on one that always has news.
use csi_qsd.Base.{ℕ, suc, ◌≡◌, refl, false, Option, none, some, List, [], ◌∷◌, inr, arith}
use csi_qsd.Go.Text.{Text, text, ◌==◌}
use csi_qsd.Go.Exec.{ok, is_ok}
use csi_qsd.Host.{Host}
use csi_qsd.Qsd.Commands.Manager.{wait_events, wait_job_to_complete}
use csi_qsd.Qsd.Commands.Wait.{nothing, event, wait_events-Delivers, wait_job_to_complete-any_job}

abbrev next : List Text → Option Text × List Text
next [] = (none, [])
next (e ∷ es) = (some e, es)

-- the world is the list of the events to come
abbrev scripted : Host
scripted = record {
  World = List Text;
  mkdir_all = λ path w. (none, w);
  stat = λ path w. (none, w);
  remove = λ path w. (none, w);
  read_dir = λ path w. (inr [], w);
  combined_output = λ cmd w. (([], none), w);
  command_string = λ cmd. text "qemu-img";
  errorf_extra = λ out e. out;
  new_socket_monitor = λ socket w. (none, w);
  connect = λ w. (none, w);
  disconnect = λ w. w;
  run = λ cmd w. (inr [], w);
  events = λ w. (none, w);
  next_event = next;
  timer_fires = λ w. (false, w);
  unmarshal_status = λ raw. none;
}

abbrev script : List Text
script = text "JOB_STATUS_CHANGE" ∷ text "BLOCK_JOB_READY" ∷ text "BLOCK_JOB_COMPLETED" ∷ []

wait_events-Delivers_example : wait_events scripted 3 (text "job0") script ≡ (ok tt, [])
unfolding text ◌==◌
wait_events-Delivers_example =
    wait_events-Delivers scripted 3 (text "job0") {w = script} {u = text "BLOCK_JOB_COMPLETED" ∷ []}
      {names = text "JOB_STATUS_CHANGE" ∷ text "BLOCK_JOB_READY" ∷ []}
      (event (text "JOB_STATUS_CHANGE") refl refl
        (event (text "BLOCK_JOB_READY") refl refl nothing))
      refl (omega arith)

wait_job_to_complete-any_job_example :
    (is_ok (wait_job_to_complete scripted 3 (text "job0") script).0
      ≡ is_ok (wait_job_to_complete scripted 3 (text "job1") script).0)
    × ((wait_job_to_complete scripted 3 (text "job0") script).1
        ≡ (wait_job_to_complete scripted 3 (text "job1") script).1)
wait_job_to_complete-any_job_example =
    wait_job_to_complete-any_job scripted 3 (text "job0") (text "job1") script

-- a monitor that reports the progress of some job before each timer fires; the world counts
abbrev busy : Host
busy = record scripted {
  World = ℕ;
  mkdir_all = λ path w. (none, w);
  stat = λ path w. (none, w);
  remove = λ path w. (none, w);
  read_dir = λ path w. (inr [], w);
  combined_output = λ cmd w. (([], none), w);
  new_socket_monitor = λ socket w. (none, w);
  connect = λ w. (none, w);
  disconnect = λ w. w;
  run = λ cmd w. (inr [], w);
  events = λ w. (none, w);
  next_event = λ w. (some (text "JOB_STATUS_CHANGE"), suc w);
  timer_fires = λ w. (false, w);
}
