-- ===== src/Driver/Identity.antt =====
-- pkg/driver/identity.go: the identity service.
use csi_qsd.Base.{Bool, List, [], ◌∷◌}
use csi_qsd.Go.Text.{Text}
use csi_qsd.Driver.State.{Driver}

pub record PluginInfo : Type 0 where
  pub name : Text
  pub vendor_version : Text

-- Driver.GetPluginInfo
unfoldable pub get_plugin_info : Driver → PluginInfo
get_plugin_info d = record { name = d.name; vendor_version = d.version }

-- the services of PluginCapability_Service that the driver announces
pub data PluginService : Type 0 where
  controller_service : PluginService

-- Driver.GetPluginCapabilities
unfoldable pub get_plugin_capabilities : List PluginService
get_plugin_capabilities = controller_service ∷ []

-- Driver.Probe; the lock around the read is left out, since nothing writes `ready`
unfoldable pub probe : Driver → Bool
probe d = d.ready
