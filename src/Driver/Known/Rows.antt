-- ===== src/Driver/Known/Rows.antt =====
-- Calls of the controller service in a row: no image that carries a reference is lost.
use csi_qsd.Base.{◌⊎◌, Option, List, [], ◌∷◌}
use csi_qsd.Go.Text.{Text}
use csi_qsd.Go.Number.{ℤ}
use csi_qsd.Host.{Host, Error}
use csi_qsd.Qsd.Server.State as Qsd
use csi_qsd.Qsd.Server.State.{Server}
use csi_qsd.Driver.Csi.{Remote}
use csi_qsd.Driver.State.{Sys}
use csi_qsd.Driver.Calls.{D, Call, after}

module _ (H : Host) (dial : Text → Option Error) (clock : Qsd.Sys H → Error ⊎ ℤ) where
  abbrev E : Remote
  E = D H dial clock

  -- driver and server after a row of calls
  unfoldable pub after_all : List Call → Sys E → Sys E
  after_all [] s = s
  after_all (c ∷ cs) s = after_all cs (after H dial clock c s)
