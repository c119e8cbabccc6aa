-- ===== src/Driver/OverServer.antt =====
-- The driver of pkg/driver in front of the server of pkg/qsd: the client's calls reach the handlers
-- of the server. gRPC hands a client the error of a handler or its response, and a broken
-- connection where the handler's process died.
use csi_qsd.Base.{
  ◌≡◌, refl, ◌∙◌, true, false, Bool, not, ◌&&◌, ◌⊎◌, inl, inr, Option, none, some, arith,
  if◌then◌else◌, Option-cases, Bool-cases,
}
use csi_qsd.Go.Text.{Text, text, ◌==◌}
use csi_qsd.Go.Number.{ℤ, pos}
use csi_qsd.Go.Table.{lookup, insert}
use csi_qsd.Go.Exec.{Outcome, ok, err, panic, diverge, is_ok, ◌>>=◌, bind_after}
use csi_qsd.Host.{Host, Error, errorf}
use csi_qsd.Qsd.Message.{Image, Response}
use csi_qsd.Qsd.Server.State as Qsd
use csi_qsd.Qsd.Server.State.{Failure, Server}
use csi_qsd.Qsd.Requests.{
  Request, create_volume, expose_vhost_user, delete_volume, delete_exporter, create_snapshot,
  delete_snapshot, dispatch,
}
use csi_qsd.Qsd.Server.Export.{handle_delete_exporter}
use csi_qsd.Driver.Csi.{Remote, CreateVolumeRequest, ContentSource, snapshot, volume, unset}
use csi_qsd.Driver.State.{StoredVolume, Driver, Sys}
use csi_qsd.Driver.Volumes.{
  default_node, content_source, find_or_store, create_and_expose, create_at, handle_create_volume,
  unexpose_and_delete, delete_stored, handle_delete_volume,
}

abbrev reply : Outcome Failure Response → Error ⊎ Response
reply (ok r) = inr r
reply (err f) = inl f.error
reply panic = inl (errorf (text "transport is closing"))
reply diverge = inl (errorf (text "context deadline exceeded"))

-- The requests that CreateVolume takes: a name, a capacity, and a source that has a name if there
-- is one.
abbrev pub names_source : Option ContentSource → Bool
names_source none = true
names_source (some (snapshot id)) = not (id == text "")
names_source (some (volume id)) = not (id == text "")
names_source (some unset) = true

abbrev pub has_capacity : Option ℤ → Bool
has_capacity none = false
has_capacity (some z) = true

abbrev pub is_accepted : CreateVolumeRequest → Bool
is_accepted req =
    not (req.name == text "")
    && (has_capacity req.capacity_range && names_source req.volume_content_source)

abbrev pub capacity : Option ℤ → ℤ
capacity none = pos 0
capacity (some z) = z

-- the table with the volume of the request, as it was stored before or as it is stored now
abbrev pub with_volume : CreateVolumeRequest → Option StoredVolume → Driver → Driver
with_volume req (some v) d = d
with_volume req none d = record d {
  storage =
      insert req.name
        (record { id = req.name; size = capacity req.capacity_range; node = default_node })
        d.storage;
}

module _ (R : Remote) where
  driver-create_at :
      (name : Text) (size : ℤ) (source : Text) (answer : Option ContentSource) (v : StoredVolume)
      (s : Sys R)
      → (create_at R name size source answer v s).1.driver ≡ s.driver
  unfolding create_at create_and_expose
  driver-create_at name size source answer v s = ground arith

  driver-find_or_store :
      (req : CreateVolumeRequest) (size : ℤ) (s : Sys R)
      → (is_ok (find_or_store R req.name size s).0 ≡ true)
        × ((find_or_store R req.name size s).1.driver
            ≡ with_volume
                (record req { capacity_range = some size })
                (lookup req.name s.driver.storage)
                s.driver)
  unfolding find_or_store
  driver-find_or_store req size s = (ground arith, ground arith)

  driver-create_sourced :
      (req : CreateVolumeRequest) (size : ℤ) (source : Text) (answer : Option ContentSource)
      (s : Sys R)
      → ((find_or_store R req.name size >>= create_at R req.name size source answer) s).1.driver
        ≡ with_volume
            (record req { capacity_range = some size })
            (lookup req.name s.driver.storage)
            s.driver
  driver-create_sourced req size source answer s =
      let stored = (driver-find_or_store req size s).1 in
      bind_after
        (λ (t : Sys R).
          t.driver
          ≡ with_volume (record req { capacity_range = some size })
              (lookup req.name s.driver.storage) s.driver)
        (find_or_store R req.name size) (create_at R req.name size source answer) s stored
        (λ v _. driver-create_at req.name size source answer v _ ∙ stored)

  driver-create_from :
      (req : CreateVolumeRequest) (size : ℤ) (o : Option ContentSource) (s : Sys R)
      → ((content_source R o >>= λ x.
            find_or_store R req.name size >>= create_at R req.name size x.0 x.1)
          s).1.driver
        ≡ (if names_source o
            then with_volume
                (record req { capacity_range = some size })
                (lookup req.name s.driver.storage)
                s.driver
            else s.driver)
  unfolding content_source
  driver-create_from req size none s = driver-create_sourced req size (text "") none s
  driver-create_from req size (some (snapshot id)) s = elim (Bool-cases (id == text "")) [
    | inl e ↦ rw e refl
    | inr e ↦ rw e (driver-create_sourced req size id (some (snapshot id)) s)
  ]
  driver-create_from req size (some (volume id)) s = elim (Bool-cases (id == text "")) [
    | inl e ↦ rw e refl
    | inr e ↦ rw e (driver-create_sourced req size id (some (volume id)) s)
  ]
  driver-create_from req size (some unset) s = driver-create_sourced req size (text "") none s

  -- CreateVolume stores the volume of every request that it accepts, also where a call of the
  -- remote side fails, and changes nothing else of the driver.
  pub driver-create_volume :
      (req : CreateVolumeRequest) (s : Sys R)
      → (handle_create_volume R req s).1.driver ≡ (
          if is_accepted req
          then with_volume req (lookup req.name s.driver.storage) s.driver
          else s.driver)
  unfolding handle_create_volume
  driver-create_volume req s = elim (Bool-cases (req.name == text "")) [
    | inl e ↦ rw e refl
    | inr e ↦ elim (Option-cases (req.capacity_range)) [
      | inl c ↦ rw (e, c) refl
      | inr (z, c) ↦ rw (e, c) (driver-create_from req z req.volume_content_source s)
    ]
  ]

module _ (H : Host) (dial : Text → Option Error) (clock : Qsd.Sys H → Error ⊎ ℤ) where
  abbrev serve : Request → Qsd.Sys H → (Error ⊎ Response) × Qsd.Sys H
  serve r w = (reply (dispatch H r w).0, (dispatch H r w).1)

  -- the remote side of a driver that is connected to the server
  abbrev pub over_server : Remote
  over_server = record {
    World = Qsd.Sys H;
    dial = λ address w. (dial address, w);
    close = λ w. w;
    create_volume = λ i. serve (create_volume i);
    expose_vhost_user = λ i. serve (expose_vhost_user i);
    delete_volume = λ i. serve (delete_volume i);
    delete_exporter = λ i. serve (delete_exporter i);
    create_snapshot = λ i. serve (create_snapshot i);
    delete_snapshot = λ i. serve (delete_snapshot i);
    timestamp = λ w. (clock w, w);
  }

  unexport_absent :
      (image : Image) (w : Qsd.Sys H)
      → lookup image.id w.server.images ≡ none
      → (is_ok (handle_delete_exporter H image w).0 ≡ false)
        × ((handle_delete_exporter H image w).1 ≡ w)
  unfolding handle_delete_exporter
  unexport_absent image w absent = (ground arith, ground arith)

  -- DeleteVolume of a stored volume that the server has no image of fails, and leaves the driver
  -- and the server as they are, so that it fails again.
  pub delete_volume_stuck :
      (id : Text) (s : Sys over_server) (v : StoredVolume)
      → lookup id s.driver.storage ≡ some v
      → lookup v.id s.world.server.images ≡ none
      → (is_ok (handle_delete_volume over_server id s).0 ≡ false)
        × ((handle_delete_volume over_server id s).1 ≡ s)
  unfolding handle_delete_volume delete_stored unexpose_and_delete dispatch
  delete_volume_stuck id s v stored absent =
      let image : Image = record { id = v.id; size = pos 0; from_volume = text "" } in
      let gone = unexport_absent image s.world absent in
      (ground (arith, stored, gone.0, gone.1), ground (arith, stored, gone.0, gone.1))
