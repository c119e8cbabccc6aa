-- ===== src/Driver/Volumes.antt =====
-- pkg/driver/controller.go: CreateVolume, DeleteVolume and ControllerGetCapabilities.
use csi_qsd.Base.{not, ◌⊎◌, Option, none, some, List, [], ◌∷◌, ◌++◌}
use csi_qsd.Go.Text.{Text, text, ◌==◌}
use csi_qsd.Go.Number.{ℤ, pos}
use csi_qsd.Go.Table.{lookup, insert}
use csi_qsd.Go.Exec.{pure, ◌>>=◌, ◌>>◌, deref, refuse, or_fail, result}
use csi_qsd.Host.{Error}
use csi_qsd.Qsd.Message.{Image, Response}
use csi_qsd.Driver.Csi.{
  Remote, Status, invalid, internal_error, ContentSource, snapshot, volume, unset,
  CreateVolumeRequest, CsiVolume,
}
use csi_qsd.Driver.State.{
  StoredVolume, Service, on_world, get_driver, put_driver, with_client, delete_volume,
}

-- the node that the source hard codes
abbrev pub default_node : Text
default_node = text "k8s-qsd-control-plane"

-- the capabilities of the controller service that the driver announces
pub data Capability : Type 0 where
  create_delete_volume create_delete_snapshot clone_volume : Capability

-- ControllerGetCapabilities
unfoldable pub controller_get_capabilities : List Capability
controller_get_capabilities = create_delete_volume ∷ create_delete_snapshot ∷ clone_volume ∷ []

module _ (R : Remote) where
  -- the source of the content: its name, and what the response says of it
  unfoldable pub content_source : Option ContentSource → Service R (Text × Option ContentSource)
  content_source none = pure (text "", none)
  content_source (some (snapshot id)) = do
    refuse (id == text "") (invalid (text "snapshot ID is empty"))
    pure (id, some (snapshot id))
  content_source (some (volume id)) = do
    refuse (id == text "") (invalid (text "volume source ID is empty"))
    pure (id, some (volume id))
  content_source (some unset) = pure (text "", none)

  -- the stored volume, or a new one
  unfoldable pub find_or_store : Text → ℤ → Service R StoredVolume
  find_or_store name size = do
    d ← get_driver R
    elim (lookup name d.storage) [
      | some v ↦ pure v
      | none ↦ do
        let v : StoredVolume = record { id = name; size = size; node = default_node }
        put_driver R (record d { storage = insert name v d.storage })
        pure v
    ]

  -- a call of the client, with the prefix of its error
  abbrev pub call : (R.World → (Error ⊎ Response) × R.World) → Text → Service R Response
  call f message = or_fail (on_world R (result f)) (λ e. internal_error (message ++ e.message))

  abbrev pub cannot_connect : Text → Error → Status
  cannot_connect node e =
      internal_error
        (text "Failed to connect to the QSD server for node " ++ (node ++ (text ":" ++ e.message)))

  -- the two calls of CreateVolume
  unfoldable pub create_and_expose : Image → Service R Unit
  create_and_expose image = do
    created ← call (R.create_volume image) (text "Error for creating the volume ")
    refuse (not created.success) (internal_error created.message)
    exposed ← call (R.expose_vhost_user image) (text "Error for creating the exporter ")
    refuse (not exposed.success) (internal_error exposed.message)

  -- the rest of CreateVolume for the stored volume: the connection, the calls and the response
  unfoldable pub create_at :
      Text → ℤ → Text → Option ContentSource → StoredVolume → Service R CsiVolume
  create_at name size source answer v = with_client R v.node (cannot_connect v.node) (do
    create_and_expose (record { id = name; size = v.size; from_volume = source })
    pure (record { volume_id = name; capacity_bytes = size; content_source = answer }))

  -- Driver.CreateVolume
  unfoldable pub handle_create_volume : CreateVolumeRequest → Service R CsiVolume
  handle_create_volume req = do
    refuse (req.name == text "") (invalid (text "CreateVolume Name must be provided"))
    size ← deref req.capacity_range
    (source, answer) ← content_source req.volume_content_source
    v ← find_or_store req.name size
    create_at req.name size source answer v

  -- the two calls of DeleteVolume
  unfoldable pub unexpose_and_delete : Image → Service R Unit
  unexpose_and_delete image = do
    call (R.delete_exporter image) (text "Error for creating the exporter ")
    call (R.delete_volume image) (text "Error for creating the volume ")
    pure tt

  -- the rest of DeleteVolume for a stored volume; the deferred Close runs last
  unfoldable pub delete_stored : Text → StoredVolume → Service R Unit
  delete_stored id v = with_client R v.node (cannot_connect v.node) (do
    unexpose_and_delete (record { id = v.id; size = pos 0; from_volume = text "" })
    d ← get_driver R
    put_driver R (delete_volume id d))

  -- Driver.DeleteVolume
  unfoldable pub handle_delete_volume : Text → Service R Unit
  handle_delete_volume id = do
    refuse (id == text "") (invalid (text "DeleteVolume Volume ID must be provided"))
    d ← get_driver R
    elim (lookup id d.storage) [ none ↦ pure tt | some v ↦ delete_stored id v ]
