-- ===== src/Driver/Created.antt =====
-- What CreateVolume of the driver leaves on the server of pkg/qsd behind it.
use csi_qsd.Base.{
  ◌≡◌, ap, sym, ◌∙◌, true, ◌⊎◌, inl, inr, Option, none, some, arith, Option-cases, Bool-cases,
}
use csi_qsd.Go.Text.{Text, text, ◌==◌}
use csi_qsd.Go.Number.{ℤ}
use csi_qsd.Go.Table.{lookup, insert}
use csi_qsd.Go.Exec.{Outcome, is_ok, ◌>>=◌}
use csi_qsd.Host.{Host, Error}
use csi_qsd.Qsd.Message.{Image}
use csi_qsd.Qsd.Server.State as Qsd
use csi_qsd.Qsd.Server.State.{Server}
use csi_qsd.Qsd.Server.Create
use csi_qsd.Qsd.Requests.{dispatch}
use csi_qsd.Qsd.Requests.Safety.{expose-server}
use csi_qsd.Driver.Csi.{
  Remote, CreateVolumeRequest, ContentSource, snapshot, volume, unset, Status, CsiVolume,
}
use csi_qsd.Driver.State.{StoredVolume, Sys}
use csi_qsd.Driver.Volumes.{
  content_source, find_or_store, create_and_expose, create_at, handle_create_volume, default_node,
}
use csi_qsd.Driver.OverServer.{over_server}

-- the name of the volume or the snapshot that the content comes from, or the empty name
abbrev pub source_name : Option ContentSource → Text
source_name none = text ""
source_name (some (snapshot id)) = id
source_name (some (volume id)) = id
source_name (some unset) = text ""

module _ (H : Host) (dial : Text → Option Error) (clock : Qsd.Sys H → Error ⊎ ℤ) where
  abbrev pub R : Remote
  R = over_server H dial clock

  -- the request to the server is for the stored size
  abbrev pub image_of : CreateVolumeRequest → ℤ → Image
  image_of req size = record {
    id = req.name;
    size = size;
    from_volume = source_name req.volume_content_source;
  }

  abbrev pub made : Image → Sys R → Qsd.Sys H
  made i s = (Create.handle_create_volume H i s.world).1

  create_and_expose-server :
      (i : Image) (s : Sys R)
      → (is_ok (create_and_expose R i s).0 ≡ true
          → is_ok (Create.handle_create_volume H i s.world).0 ≡ true)
        × ((create_and_expose R i s).1.world.server ≡ (made i s).server)
  unfolding create_and_expose dispatch
  create_and_expose-server i s = (λ h. ground arith, ground (arith, expose-server H i (made i s)))

  pub create_at-server :
      (name source : Text) (size : ℤ) (answer : Option ContentSource) (v : StoredVolume) (s : Sys R)
      → is_ok (create_at R name size source answer v s).0 ≡ true
      → (is_ok
            (Create.handle_create_volume H
              (record { id = name; size = v.size; from_volume = source })
              s.world).0
          ≡ true)
        × ((create_at R name size source answer v s).1.world.server
            ≡ (made (record { id = name; size = v.size; from_volume = source }) s).server)
  unfolding create_at
  create_at-server name source size answer v s done =
      let i : Image = record { id = name; size = v.size; from_volume = source } in
      let both = create_and_expose-server i s in
      (ground (arith, done, both.0), ground (arith, done, both.1))

  -- the end of CreateVolume, behind its tests of the request
  create_new-server :
      (name source : Text) (size : ℤ) (answer : Option ContentSource) (s : Sys R)
      → lookup name s.driver.storage ≡ none
      → is_ok ((find_or_store R name size >>= create_at R name size source answer) s).0 ≡ true
      → (is_ok
            (Create.handle_create_volume H
              (record { id = name; size = size; from_volume = source })
              s.world).0
          ≡ true)
        × (((find_or_store R name size >>= create_at R name size source answer) s).1.world.server
            ≡ (made (record { id = name; size = size; from_volume = source }) s).server)
  unfolding find_or_store
  create_new-server name source size answer s new done =
      let v : StoredVolume = record { id = name; size = size; node = default_node } in
      let t : Sys R = record s {
        driver = record (s.driver) { storage = insert name v s.driver.storage };
      } in
      let stored : (find_or_store R name size >>= create_at R name size source answer) s
          ≡ create_at R name size source answer v t =
        ground (arith, new) in
      let both =
        create_at-server name source size answer v t
          (ap (λ (x : Outcome Status CsiVolume × Sys R). is_ok x.0) (sym stored) ∙ done) in
      (both.0, ap (λ (x : Outcome Status CsiVolume × Sys R). x.1.world.server) stored ∙ both.1)

  create_from-server :
      (req : CreateVolumeRequest) (size : ℤ) (o : Option ContentSource) (s : Sys R)
      → lookup req.name s.driver.storage ≡ none
      → is_ok
          ((content_source R o >>= λ x.
              find_or_store R req.name size >>= create_at R req.name size x.0 x.1)
            s).0
        ≡ true
      → (is_ok
            (Create.handle_create_volume H
              (record { id = req.name; size = size; from_volume = source_name o })
              s.world).0
          ≡ true)
        × (((content_source R o >>= λ x.
                find_or_store R req.name size >>= create_at R req.name size x.0 x.1)
              s).1.world.server
            ≡ (made (record { id = req.name; size = size; from_volume = source_name o }) s).server)
  unfolding content_source
  create_from-server req size none s new done =
      create_new-server req.name (text "") size none s new done
  create_from-server req size (some unset) s new done =
      create_new-server req.name (text "") size none s new done
  create_from-server req size (some (snapshot id)) s new done = elim (Bool-cases (id == text "")) [
    | inl e ↦ absurd (ground (arith, e, done))
    | inr e ↦ rw e (create_new-server req.name id size (some (snapshot id)) s new (rw e at done))
  ]
  create_from-server req size (some (volume id)) s new done = elim (Bool-cases (id == text "")) [
    | inl e ↦ absurd (ground (arith, e, done))
    | inr e ↦ rw e (create_new-server req.name id size (some (volume id)) s new (rw e at done))
  ]

  -- A CreateVolume that succeeds for a new name has made the image on the server, and nothing else
  -- of it changed.
  pub server-create_volume :
      (req : CreateVolumeRequest) (s : Sys R)
      → lookup req.name s.driver.storage ≡ none
      → is_ok (handle_create_volume R req s).0 ≡ true
      → (size : ℤ) × (req.capacity_range ≡ some size)
        × (is_ok (Create.handle_create_volume H (image_of req size) s.world).0 ≡ true)
        × ((handle_create_volume R req s).1.world.server ≡ (made (image_of req size) s).server)
  unfolding handle_create_volume
  server-create_volume req s new done = elim (Bool-cases (req.name == text "")) [
    | inl e ↦ absurd (ground (arith, e, done))
    | inr e ↦ elim (Option-cases (req.capacity_range)) [
      | inl c ↦ absurd (ground (arith, e, c, done))
      | inr (z, c) ↦
          let both = create_from-server req z req.volume_content_source s new (rw (e, c) at done) in
          (z, c, both.0, rw (e, c) both.1)
    ]
  ]
