-- ===== src/Tests/Calls.antt =====
-- Calls of the driver in a row, with the server behind it.
use csi_qsd.Base.{none, inr, List, [], ◌∷◌}
use csi_qsd.Go.Text.{text}
use csi_qsd.Go.Number.{pos}
use csi_qsd.Qsd.Requests.{Runs}
use csi_qsd.Driver.State.{Sys}
use csi_qsd.Driver.Calls.{Call, after}
use csi_qsd.Driver.Refined.{after-Runs}
use csi_qsd.Driver.Known.Rows.{after_all}
use csi_qsd.Tests.Hosts.{quiet}
use csi_qsd.Tests.Server.{test0-IsFresh}
use csi_qsd.Tests.Driver.{taken, at_work, wanted, working}

abbrev next : Call → Sys working → Sys working
next c s = after quiet (λ _. none) (λ _. inr (pos 7)) c s

after-Runs_example : Runs quiet at_work.world (next (Call.create_volume wanted) at_work).world
after-Runs_example =
    after-Runs quiet (λ _. none) (λ _. inr (pos 7)) (Call.create_volume wanted) at_work
      test0-IsFresh

-- a volume and its deletion
abbrev emptied : Sys working
emptied = next (Call.delete_volume (text "test0")) (next (Call.create_volume wanted) at_work)

-- a volume, a snapshot of it, and the deletion of the volume
abbrev row : List Call
row =
    Call.create_volume wanted ∷ Call.create_snapshot taken ∷ Call.delete_volume (text "test0") ∷ []

abbrev end : Sys working
end = after_all quiet (λ _. none) (λ _. inr (pos 7)) row at_work
