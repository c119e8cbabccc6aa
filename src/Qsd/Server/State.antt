-- ===== src/Qsd/Server/State.antt =====
-- The state of `Server`, the identifiers that it makes, and the steps its handlers are built of.
-- Every `*QCOWImage` of the table is reachable under one key only, so the table holds the images
-- themselves; log lines are left out.
use csi_qsd.Base.{ℕ, true, false, Option, none, some, [], ◌++◌, if◌then◌else◌, ltb, length}
use csi_qsd.Go.Text.{Text, text, trim_prefix, contains, slice_to}
use csi_qsd.Go.Table.{Table, lookup, insert, delete}
use csi_qsd.Go.Exec.{Exec, pure, crash, ◌>>◌, or_fail}
use csi_qsd.Host.{Host, Error, errorf}
use csi_qsd.Qsd.Message.{Response}
use csi_qsd.Qsd.Commands.Manager.{Manage, new_volume_manager, manager_disconnect}

abbrev pub images_dir : Text
images_dir = text "/var/run/qsd/images"

abbrev pub socket_dir : Text
socket_dir = text "/var/run/qsd/sockets"

abbrev pub disk_img : Text
disk_img = text "disk.img"

abbrev pub vhost_sock : Text
vhost_sock = text "vhost.sock"

abbrev pub snapshot_prefix : Text
snapshot_prefix = text "snap"

-- QCOWImage; ref_count is an int32 and depth a uint32, each as its bit pattern
pub record QcowImage : Type 0 where
  pub qsd_id : Text
  pub backing_image_id : Text
  pub file : Text
  pub ref_count : ℕ
  pub volume_ref : Text
  pub depth : ℕ

-- The maps of Server. The monitor stands in the world of the host.
pub record Server : Type 0 where
  pub qsd_sock : Text
  pub images : Table QcowImage
  pub active_layers : Table Text

-- a string that the Go code joins with a slash
abbrev pub join : Text → Text → Text
join dir name = dir ++ (text "/" ++ name)

-- generateQSDID; `none` is the panic of a slice past the end
unfoldable pub generate_qsd_id : Text → Option Text
generate_qsd_id id =
    let size = if ltb (length id) 8 then length id else 8 in
    if contains id (text "pvc-")
    then slice_to size (trim_prefix id (text "pvc-"))
    else if contains id (text "snapshot-")
    then slice_to size (trim_prefix id (text "snapshot-"))
    else slice_to size id

-- what a handler returns beside an error
pub record Failure : Type 0 where
  pub response : Response
  pub error : Error

abbrev pub response_success : Response
response_success = record { success = true; message = [] }

abbrev pub response_empty : Response
response_empty = record { success = false; message = [] }

-- failed(m, err)
unfoldable pub failed : Text → Error → Failure
failed m e = record { response = record { success = false; message = m }; error = e }

-- `return &Response{}, fmt.Errorf(m)`
unfoldable pub missing : Text → Failure
missing m = record { response = response_empty; error = errorf m }

module _ (H : Host) where
  open H use {World}

  pub record Sys : Type 0 where
    pub server : Server
    pub world : World

  -- a method that returns an error, and a handler
  abbrev pub Method : Type 0 → Type 0
  Method A = Exec Sys Error A

  abbrev pub Handler : Type 0 → Type 0
  Handler A = Exec Sys Failure A

  abbrev pub on_world : {A : Type 0} → Manage H A → Method A
  on_world m s = ((m s.world).0, record s { world = (m s.world).1 })

  module _ {E : Type 0} where
    abbrev pub get_image : Text → Exec Sys E (Option QcowImage)
    get_image id s = pure (lookup id s.server.images) s

    abbrev pub get_active_layer : Text → Exec Sys E (Option Text)
    get_active_layer id s = pure (lookup id s.server.active_layers) s

    -- c.images[id] = i
    abbrev pub put_image : Text → QcowImage → Exec Sys E Unit
    put_image id i s =
        pure tt (record s { server = record (s.server) { images = insert id i s.server.images } })

    -- delete(c.images, id)
    abbrev pub drop_image : Text → Exec Sys E Unit
    drop_image id s =
        pure tt (record s { server = record (s.server) { images = delete id s.server.images } })

    -- c.activeLayers[id] = layer
    abbrev pub put_active_layer : Text → Text → Exec Sys E Unit
    put_active_layer id layer s = pure tt (record s {
      server = record (s.server) { active_layers = insert id layer s.server.active_layers };
    })

    -- delete(c.activeLayers, id)
    abbrev pub drop_active_layer : Text → Exec Sys E Unit
    drop_active_layer id s = pure tt (record s {
      server = record (s.server) { active_layers = delete id s.server.active_layers };
    })

    -- generateQSDID at its use
    abbrev pub qsd_id_of : Text → Exec Sys E Text
    qsd_id_of id = elim (generate_qsd_id id) [ none ↦ crash | some q ↦ pure q ]

  -- NewServer
  unfoldable pub new_server : Text → Manage H Server
  new_server sock = do
    or_fail (new_volume_manager H sock)
        (λ _. errorf (text "Failed creating the qsd monitor connection"))
    pure (record { qsd_sock = sock; images = []; active_layers = [] })

  -- Server.Disconnect
  unfoldable pub disconnect : Method Unit
  disconnect = on_world (manager_disconnect H true)
