-- ===== src/Qsd/Commands/Wait.antt =====
-- How long waitJobToComplete waits, and for what.
use csi_qsd.Base.{
  ℕ, zero, suc, ◌<◌, ◌≡◌, refl, true, false, Bool, Option, none, some, List, [], ◌∷◌, ◌++◌, arith,
  length,
}
use csi_qsd.Go.Text.{Text, text, ◌==◌}
use csi_qsd.Go.Exec.{Outcome, ok, err, is_ok}
use csi_qsd.Host.{Host, Error, errorf}
use csi_qsd.Qsd.Commands.Manager.{wait_events, wait_job_to_complete}

-- the event that ends the wait
abbrev pub is_completed : Text → Bool
is_completed name = name == text "BLOCK_JOB_COMPLETED"

-- the wait is over: the timer fired, or a job completed
abbrev pub is_last : Option Text → Bool
is_last none = true
is_last (some name) = is_completed name

-- what the wait for the job returns then
abbrev pub verdict : Text → Option Text → Outcome Error Unit
verdict id none = err (errorf (text "Timeout in dismissing job " ++ id))
verdict id (some name) = ok tt

module _ (H : Host) where
  -- the world after the monitor has delivered the events, none of which ends the wait
  pub data Delivers : H.World → List Text → H.World → Type 0 where
    nothing : {w : H.World} → Delivers w [] w
    event :
        {w u : H.World} (name : Text) {names : List Text}
        → (H.next_event w).0 ≡ some name
        → is_completed name ≡ false
        → Delivers (H.next_event w).1 names u
        → Delivers w (name ∷ names) u

  -- The wait reads on past any other events, ends with the first event that a job completed or with
  -- the first pause as long as the timer, and needs one round for each event.
  pub wait_events-Delivers :
      (fuel : ℕ) (id : Text) {w u : H.World} {names : List Text}
      → Delivers w names u
      → is_last (H.next_event u).0 ≡ true
      → length names < fuel
      → wait_events H fuel id w ≡ (verdict id (H.next_event u).0, (H.next_event u).1)
  unfolding wait_events
  wait_events-Delivers zero id d last enough = absurd (omega arith)
  wait_events-Delivers (suc fuel) id nothing last enough = ground arith
  wait_events-Delivers (suc fuel) id (event name e other d) last enough =
      rw (e, other) (wait_events-Delivers fuel id d last (omega arith))

  -- the monitor delivers an event before each timer fires, and never that a job completed
  pub record IsChatty (P : H.World → Type 0) : Type 0 where
    pub name : H.World → Text
    pub speaks : (w : H.World) → P w → (H.next_event w).0 ≡ some (name w)
    pub other : (w : H.World) → P w → is_completed (name w) ≡ false
    pub goes_on : (w : H.World) → P w → P (H.next_event w).1

  -- The wait takes the completion of any job for that of its own: for every two jobs it does the
  -- same, but for the name in its errors.
  wait_events-any_job :
      (fuel : ℕ) (id other : Text) (w : H.World)
      → (is_ok (wait_events H fuel id w).0 ≡ is_ok (wait_events H fuel other w).0)
        × ((wait_events H fuel id w).1 ≡ (wait_events H fuel other w).1)
  unfolding wait_events
  wait_events-any_job zero id other w = (refl, refl)
  wait_events-any_job (suc fuel) id other w =
      let later = wait_events-any_job fuel id other (H.next_event w).1 in
      (ground (arith, later.0, later.1), ground (arith, later.0, later.1))

  pub wait_job_to_complete-any_job :
      (fuel : ℕ) (id other : Text) (w : H.World)
      → (is_ok (wait_job_to_complete H fuel id w).0 ≡ is_ok (wait_job_to_complete H fuel other w).0)
        × ((wait_job_to_complete H fuel id w).1 ≡ (wait_job_to_complete H fuel other w).1)
  unfolding wait_job_to_complete
  wait_job_to_complete-any_job fuel id other w =
      let later = wait_events-any_job fuel id other (H.events w).1 in
      (ground (arith, later.0, later.1), ground (arith, later.0, later.1))
