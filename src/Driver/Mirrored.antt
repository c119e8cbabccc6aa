-- ===== src/Driver/Mirrored.antt =====
-- Calls of the controller service in front of a server whose storage daemon does as documented.
use mathlib.Core.Path.{subst}
use csi_qsd.Base.{◌≡◌, sym, true, none, ◌⊎◌, Option, []}
use csi_qsd.Go.Text.{Text}
use csi_qsd.Go.Number.{ℤ}
use csi_qsd.Go.Plain.{is_plain}
use csi_qsd.Host.{Host, Error}
use csi_qsd.Qsd.Server.State as Qsd
use csi_qsd.Qsd.Server.State.{Server}
use csi_qsd.Qsd.Daemon.{IsDaemon}
use csi_qsd.Qsd.Daemon.Deletion.{IsSound}
use csi_qsd.Qsd.Daemon.Runs.{IsNamed, IsPlainRequest, dispatch-IsSound, empty-IsSound}
use csi_qsd.Driver.Csi.{Remote}
use csi_qsd.Driver.State.{Sys}
use csi_qsd.Driver.Calls.{
  Call, create_volume, delete_volume, delete_snapshot, create_snapshot, D, after,
}
use csi_qsd.Driver.Kept.{Fits, after_keeps}

module _ (H : Host) (dial : Text → Option Error) (clock : Qsd.Sys H → Error ⊎ ℤ) where
  abbrev E : Remote
  E = D H dial clock

  -- names that need no escape in JSON, with room for one more image
  abbrev pub IsPlainCall : Call → Sys E → Type 0
  IsPlainCall (create_volume req) s = IsNamed req.name s.world.server
  IsPlainCall (create_snapshot req) s =
      IsNamed req.name s.world.server × (is_plain req.source_volume_id ≡ true)
  IsPlainCall _ s = Unit

  -- what any number of such calls reach, whatever their answers
  pub data PlainCalls (s : Sys E) : Sys E → Type 0 where
    rest : PlainCalls s s
    then_call :
        (c : Call) {t : Sys E}
        → PlainCalls s t
        → IsPlainCall c t
        → PlainCalls s (after H dial clock c t)

  module _ (M : IsDaemon H) (never : (path : Text) (w : H.World) → (H.remove path w).0 ≡ none) where
    plain-Fits :
        (c : Call) (s : Sys E)
        → IsPlainCall c s
        → Fits H dial clock IsPlainRequest (IsSound H M never) (dispatch-IsSound H M never) c s
    plain-Fits (create_volume req) s t = λ i named. (
      subst (λ (k : Text). IsNamed k s.world.server) (sym named) t,
      λ v. subst (λ (k : Text). is_plain k ≡ true) (sym named) t.plain,
    )
    plain-Fits (delete_volume id) s t = λ i v. (tt, tt)
    plain-Fits (create_snapshot req) s t = λ new. t
    plain-Fits (delete_snapshot id) s t = λ i v. tt

    -- Where the storage daemon answers as documented and os.Remove never fails: from a server with
    -- no image, after any calls of the controller service, whatever the driver holds and whatever
    -- dial, host and clock answer, the images of the server are a forest, and each has a node of its
    -- own in the daemon, if the names need no escape in JSON, those of new images are not empty and
    -- the table has fewer than 2^31 images. A call may name an image that is there.
    pub PlainCalls-IsSound :
        (s t : Sys E) → s.world.server.images ≡ [] → PlainCalls s t → IsSound H M never t.world
    PlainCalls-IsSound s t e rest = empty-IsSound H M never s.world e
    PlainCalls-IsSound s t e (then_call c {t = u} run a) =
        after_keeps H dial clock IsPlainRequest (IsSound H M never) (dispatch-IsSound H M never) c u
          (plain-Fits c u a) (PlainCalls-IsSound s u e run)
