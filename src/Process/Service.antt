-- ===== src/Process/Service.antt =====
-- The images of the QSD server in the process of cmd/qsd/main.go.
use csi_qsd.Base.{Bool, true, false, Option, none, some}
use csi_qsd.Go.Text.{Text}
use csi_qsd.Host.{Host, Error}
use csi_qsd.Qsd.Graph.Invariant.{IsForest}
use csi_qsd.Qsd.Server.State.{Server}
use csi_qsd.Process.Qsd.{Move, request, connect, Process}

module _ (H : Host) (listen_at : Text → H.World → Option Error × H.World) where
  abbrev State : Type 0
  State = Process H listen_at

  abbrev Holds : Option Server → Type 0
  Holds none = Unit
  Holds (some s) = IsForest s.images

  -- the other moves leave the images as they are
  abbrev is_other : Move → Bool
  is_other (request r) = false
  is_other connect = false
  is_other _ = true
