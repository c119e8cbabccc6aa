-- ===== src/Process/Plugins.antt =====
-- cmd/driver/main.go and cmd/metadata/main.go: the main functions that read flags, make a server
-- and let it run.
use csi_qsd.Base.{Bool, ◌++◌, Option, if◌then◌else◌}
use csi_qsd.Go.Text.{Text, text, ◌==◌}
use csi_qsd.Go.Exec.{Exec, pure, ◌>>◌, or_fail, refuse, attempt, observe}
use csi_qsd.Host.{Error, errorf}
use csi_qsd.Driver.State.{default_driver_name, new_driver}
use csi_qsd.Driver.Run.{Platform, run}
use csi_qsd.Metadata.Client.{ClientGo, new_metadata_server}

-- the flags of cmd/driver
pub record DriverFlags : Type 0 where
  pub endpoint : Text
  pub node_id : Text
  pub driver_name : Text
  pub port : Text
  pub help : Bool

-- and their values where the command line gives none
abbrev pub default_flags : DriverFlags
default_flags = record {
  endpoint = text "unix:///var/lib/kubelet/plugins/" ++ (default_driver_name ++ text "/csi.sock");
  node_id = text "";
  driver_name = default_driver_name;
  port = text "";
  help = Bool.false;
}

-- main of cmd/driver; an error is what log.Fatalln prints. The goroutine that waits for a signal
-- cancels a context that Run does not read, so it changes nothing.
unfoldable pub driver_main : (P : Platform) → DriverFlags → Exec P.World Error Unit
unfolding new_driver
driver_main P f =
    if f.help then pure tt else run P (new_driver f.endpoint f.driver_name f.node_id f.port)

-- net.Listen and the gRPC server of cmd/metadata
pub record Serving (W : Type 0) : Type 0 where
  pub listen : Text → W → Option Error × W
  pub serve : W → Option Error × W

-- main of cmd/metadata; what Serve returns is dropped
unfoldable pub metadata_main : (G : ClientGo) → Serving G.World → Text → Exec G.World Error Unit
unfolding new_metadata_server
metadata_main G S port = do
  refuse (port == text "") (errorf (text "Specify the port"))
  attempt (S.listen (text "0.0.0.0:" ++ port))
  or_fail (new_metadata_server G)
      (λ e. errorf (text "Failed creating the metadata server: " ++ e.message))
  observe S.serve
  pure tt
