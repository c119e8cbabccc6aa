-- ===== src/Driver/Lifecycle.antt =====
-- A volume of the driver from CreateVolume to DeleteVolume, with the server of pkg/qsd behind it.
use csi_qsd.Base.{◌≡◌, refl, ◌∙◌, true, ◌⊎◌, inl, inr, Option, none, some, arith, Option-cases}
use csi_qsd.Go.Text.{Text, text, ==_refl}
use csi_qsd.Go.Number.{ℤ, pos}
use csi_qsd.Go.Table.{lookup, insert, lookup-insert}
use csi_qsd.Go.Restore.{delete-insert}
use csi_qsd.Go.Exec.{is_ok}
use csi_qsd.Host.{Host, Error}
use csi_qsd.Qsd.Message.{Image}
use csi_qsd.Qsd.Server.State as Qsd
use csi_qsd.Qsd.Server.State.{Server}
use csi_qsd.Qsd.Server.Delete
use csi_qsd.Qsd.Server.Export.{handle_delete_exporter}
use csi_qsd.Qsd.Server.Undo.{settled}
use csi_qsd.Qsd.Server.RoundTrip.{delete-create_volume}
use csi_qsd.Qsd.Graph.Invariant.{IsForest}
use csi_qsd.Qsd.Requests.{dispatch}
use csi_qsd.Qsd.Requests.Safety.{unexpose-server}
use csi_qsd.Driver.Csi.{Remote, CreateVolumeRequest, ContentSource, snapshot, volume, unset}
use csi_qsd.Driver.State.{StoredVolume, Sys, delete_volume}
use csi_qsd.Driver.Volumes.{
  content_source, handle_create_volume, unexpose_and_delete, delete_stored, handle_delete_volume,
  default_node,
}
use csi_qsd.Driver.Laws.{driver-delete_volume}
use csi_qsd.Driver.OverServer.{capacity, is_accepted, driver-create_volume}
use csi_qsd.Driver.Created.{source_name, R, image_of, server-create_volume}

-- a request that CreateVolume succeeds for is one that it takes
create_volume_accepts :
    (P : Remote) (req : CreateVolumeRequest) (s : Sys P)
    → is_ok (handle_create_volume P req s).0 ≡ true
    → is_accepted req ≡ true
unfolding handle_create_volume content_source
create_volume_accepts P req s done = elim (Option-cases (req.volume_content_source)) [
  | inl plain ↦ ground (arith, done, plain)
  | inr (c, sourced) ↦ sourced_accepts c sourced
]
  where
    sourced_accepts :
        (c : ContentSource) → req.volume_content_source ≡ some c → is_accepted req ≡ true
    sourced_accepts (snapshot id) e = ground (arith, done, e)
    sourced_accepts (volume id) e = ground (arith, done, e)
    sourced_accepts unset e = ground (arith, done, e)

module _ (H : Host) (dial : Text → Option Error) (clock : Qsd.Sys H → Error ⊎ ℤ) where
  abbrev D : Remote
  D = R H dial clock

  abbrev target : Text → Image
  target id = record { id = id; size = pos 0; from_volume = text "" }

  abbrev unexported : Text → Sys D → Qsd.Sys H
  unexported id s = (handle_delete_exporter H (target id) s.world).1

  -- A DeleteVolume that succeeds for a stored volume has deleted it on the server.
  pub server-delete_volume :
      (id : Text) (v : StoredVolume) (s : Sys D)
      → lookup id s.driver.storage ≡ some v
      → is_ok (handle_delete_volume D id s).0 ≡ true
      → (is_ok (Delete.handle_delete_volume H (target v.id) (unexported v.id s)).0 ≡ true)
        × ((handle_delete_volume D id s).1.world.server
            ≡ (Delete.handle_delete_volume H (target v.id) (unexported v.id s)).1.server)
  unfolding handle_delete_volume delete_stored unexpose_and_delete dispatch
  server-delete_volume id v s stored done =
      (ground (arith, stored, done), ground (arith, stored, done))

  -- CreateVolume of a volume that is not stored stores it
  stored_new :
      (req : CreateVolumeRequest) (s : Sys D)
      → lookup req.name s.driver.storage ≡ none
      → is_ok (handle_create_volume D req s).0 ≡ true
      → (v : StoredVolume) × (v.id ≡ req.name)
        × ((handle_create_volume D req s).1.driver
            ≡ record (s.driver) { storage = insert req.name v s.driver.storage })
  stored_new req s new done = (
    record { id = req.name; size = capacity req.capacity_range; node = default_node },
    refl,
    ground (arith, create_volume_accepts D req s done, new, driver-create_volume D req s),
  )

  -- A volume is created and deleted without a trace: where CreateVolume of a volume that is not
  -- stored and then DeleteVolume of it both succeed, driver and server are as they were before, if no
  -- image and no layer of the server had the name, its images were a forest, and the image that was
  -- cloned, if any, has a reference or images on top.
  pub delete-create_stored :
      (req : CreateVolumeRequest) (s : Sys D)
      → lookup req.name s.driver.storage ≡ none
      → IsForest s.world.server.images
      → lookup req.name s.world.server.images ≡ none
      → lookup req.name s.world.server.active_layers ≡ none
      → settled (lookup (source_name req.volume_content_source) s.world.server.images) ≡ true
      → is_ok (handle_create_volume D req s).0 ≡ true
      → is_ok (handle_delete_volume D req.name (handle_create_volume D req s).1).0 ≡ true
      → ((handle_delete_volume D req.name (handle_create_volume D req s).1).1.driver ≡ s.driver)
        × ((handle_delete_volume D req.name (handle_create_volume D req s).1).1.world.server
            ≡ s.world.server)
  unfolding delete_volume
  delete-create_stored req s new F absent inactive kept created deleted =
      let t = (handle_create_volume D req s).1 in
      let (v, named, stored) = stored_new req s new created in
      let (size, _, made_there, server) = server-create_volume H dial clock req s new created in
      let found : lookup req.name t.driver.storage ≡ some v =
        ground
          (arith, stored, lookup-insert req.name req.name v s.driver.storage, ==_refl req.name) in
      let gone = server-delete_volume req.name v t found deleted in
      let driver : (handle_delete_volume D req.name t).1.driver ≡ s.driver = ground (
        arith,
        stored,
        deleted,
        driver-delete_volume D req.name t,
        delete-insert req.name v s.driver.storage new,
      ) in
      (
        driver,
        gone.1
            ∙ delete-create_volume H (image_of H dial clock req size) s.world F absent made_there
                inactive (target v.id) (unexported v.id t) named
                (unexpose-server H (target v.id) t.world ∙ server) gone.0 kept,
      )
