-- ===== src/Metadata/Client.antt =====
-- The construction of the metadata server of pkg/metadata/metadata.go, over client-go.
use csi_qsd.Base.{◌⊎◌}
use csi_qsd.Go.Text.{Text, text}
use csi_qsd.Go.Exec.{Exec, pure, ◌>>=◌, result}
use csi_qsd.Host.{Error}

-- kubernetes.NewForConfig, rest.InClusterConfig and clientcmd.BuildConfigFromFlags, with the types
-- of configurations and clients
pub record ClientGo : Type 1 where
  pub World : Type 0
  pub Config : Type 0
  pub Client : Type 0
  pub new_for_config : Config → World → (Error ⊎ Client) × World
  pub in_cluster_config : World → (Error ⊎ Config) × World
  pub build_config_from_flags : Text → Text → World → (Error ⊎ Config) × World

module _ (G : ClientGo) where
  open G use {World, Config, Client}

  pub record MetadataServer : Type 0 where
    pub client : Client

  -- newK8sClient
  unfoldable pub new_k8s_client : Config → Exec World Error Client
  new_k8s_client config = result (G.new_for_config config)

  -- NewK8sClientFromCluster
  unfoldable pub new_k8s_client_from_cluster : Exec World Error Client
  unfolding new_k8s_client
  new_k8s_client_from_cluster = do config ← result G.in_cluster_config; new_k8s_client config

  -- NewK8sClientFromConfig
  unfoldable pub new_k8s_client_from_config : Text → Exec World Error Client
  unfolding new_k8s_client
  new_k8s_client_from_config kubeconfig = do
    config ← result (G.build_config_from_flags (text "") kubeconfig)
    new_k8s_client config

  -- NewMetadataServer
  unfoldable pub new_metadata_server : Exec World Error MetadataServer
  unfolding new_k8s_client_from_cluster
  new_metadata_server = do client ← new_k8s_client_from_cluster; pure (record { client = client })
