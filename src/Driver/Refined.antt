-- ===== src/Driver/Refined.antt =====
-- The requests that each call of the controller service makes of the server of pkg/qsd.
use mathlib.Core.Path.{subst}
use csi_qsd.Base.{◌≡◌, sym, true, false, ◌⊎◌, inl, inr, Option, [], arith}
use csi_qsd.Go.Text.{Text}
use csi_qsd.Go.Number.{ℤ}
use csi_qsd.Host.{Host, Error}
use csi_qsd.Qsd.Server.State as Qsd
use csi_qsd.Qsd.Server.State.{Server}
use csi_qsd.Qsd.Requests.{Request, dispatch, IsAdmissible, IsFresh, Runs, start, serve}
use csi_qsd.Driver.Csi.{Remote}
use csi_qsd.Driver.State.{Sys, is_a_snapshot}
use csi_qsd.Qsd.Graph.Invariant.{IsForest}
use csi_qsd.Qsd.Requests.Safety.{run-IsForest, empty-IsForest}
use csi_qsd.Driver.Calls.{
  Call, create_volume, delete_volume, delete_snapshot, create_snapshot, D, IsTakable, after, Calls,
  idle, call,
}
use csi_qsd.Driver.Kept.{Fits, after_keeps}

module _ (H : Host) (dial : Text → Option Error) (clock : Qsd.Sys H → Error ⊎ ℤ) where
  abbrev E : Remote
  E = D H dial clock

  unknown :
      (id : Text) (s : Sys E)
      → (is_a_snapshot id s.driver ≡ true) ⊎ IsFresh id s.world.server
      → is_a_snapshot id s.driver ≡ false
      → IsFresh id s.world.server
  unknown id s (inl known) new = absurd (ground arith)
  unknown id s (inr f) new = f

  module _ (s : Sys E) where
    -- one more request of a run
    more :
        (r : Request) (w : Qsd.Sys H)
        → IsAdmissible r w.server
        → Runs H s.world w
        → Runs H s.world (dispatch H r w).1
    more r w a run = serve r run a

    takable-Fits :
        (c : Call)
        → IsTakable H dial clock c s
        → Fits H dial clock IsAdmissible (Runs H s.world) more c s
    takable-Fits (create_volume req) t =
        λ i named. (subst (λ (k : Text). IsFresh k s.world.server) (sym named) t, λ v. tt)
    takable-Fits (delete_volume id) t = λ i v. (tt, tt)
    takable-Fits (create_snapshot req) t = unknown req.name s t
    takable-Fits (delete_snapshot id) t = λ i v. tt

  -- Every call of the controller service is, for the server, a row of admissible requests, whatever
  -- the answers on the way, if a new volume, and a snapshot that the driver does not know, gets a
  -- name that is not in use.
  pub after-Runs :
      (c : Call) (s : Sys E)
      → IsTakable H dial clock c s
      → Runs H s.world (after H dial clock c s).world
  after-Runs c s t =
      after_keeps H dial clock IsAdmissible (Runs H s.world) (more s) c s (takable-Fits s c t) start

  calls-IsForest :
      {s t : Sys E}
      → IsForest s.world.server.images
      → Calls H dial clock s t
      → IsForest t.world.server.images
  calls-IsForest F idle = F
  calls-IsForest F (call c {t} before k) =
      run-IsForest H (calls-IsForest F before) (after-Runs c t k)

  -- From a server with no image, after any calls of the controller service, whatever the driver
  -- holds and whatever dial, host and clock answer, the images of the server are a forest, if each
  -- new volume and each snapshot that the driver does not know gets a name that is not in use.
  pub Calls-IsForest :
      (s t : Sys E)
      → s.world.server.images ≡ []
      → Calls H dial clock s t
      → IsForest t.world.server.images
  Calls-IsForest s t e run = calls-IsForest (subst IsForest (sym e) (empty-IsForest H)) run
