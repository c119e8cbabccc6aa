-- ===== src/Qsd/Server/Effect/Creation.antt =====
-- CreateVolume and CreateSnapshot.
use csi_qsd.Base.{
  ℕ, ◌+◌, ◌^◌, ◌<◌, ◌≡◌, ◌≢◌, true, false, Bool, none, some, arith, ◌++◌, length, Bool-cases,
  Option-cases, inl, inr, refl,
}
use csi_qsd.Go.Text.{Text, text, ◌==◌}
use csi_qsd.Go.Number.{increment}
use csi_qsd.Go.Table.{Table, lookup, insert}
use csi_qsd.Go.Exec.{is_ok}
use csi_qsd.Host.{Host}
use csi_qsd.Qsd.Message.{Image, Snapshot}
use csi_qsd.Qsd.Graph.Change.{Changes, stay, one, add_root, add_child}
use csi_qsd.Qsd.Server.State.{
  QcowImage, Sys, generate_qsd_id, join, images_dir, disk_img, snapshot_prefix,
}
use csi_qsd.Qsd.Server.Create.{create_empty, create_clone, handle_create_volume}

-- the images that CreateVolume and CreateSnapshot add
abbrev pub new_volume : Image → Text → Text → ℕ → QcowImage
new_volume image q backing depth = record {
  qsd_id = q;
  backing_image_id = backing;
  file = join (join images_dir image.id) disk_img;
  ref_count = 0;
  volume_ref = image.id;
  depth = depth;
}

abbrev pub new_snapshot : Snapshot → Text → Text → ℕ → QcowImage
new_snapshot snapshot q layer depth = record {
  qsd_id = q;
  backing_image_id = layer;
  file = join (join images_dir snapshot.source_volume_id) (snapshot_prefix ++ (text "-" ++ q));
  ref_count = 0;
  volume_ref = snapshot.id;
  depth = depth;
}

abbrev pub raise_count : QcowImage → QcowImage
raise_count b = record b { ref_count = increment b.ref_count }

module _ (H : Host) (image : Image) (s : Sys H) where
  abbrev after : Table QcowImage
  after = (handle_create_volume H image s).1.server.images

  abbrev done : Bool
  done = is_ok (handle_create_volume H image s).0

  pub create_volume_fails : done ≡ false → after ≡ s.server.images
  unfolding handle_create_volume create_empty create_clone
  create_volume_fails h = ground arith

  pub create_volume_named : done ≡ true → generate_qsd_id image.id ≢ none
  unfolding handle_create_volume
  create_volume_named h e = ground arith

  pub create_volume_empty :
      (q : Text)
      → generate_qsd_id image.id ≡ some q
      → (image.from_volume == text "") ≡ true
      → done ≡ true
      → after ≡ insert image.id (new_volume image q (text "") 0) s.server.images
  unfolding handle_create_volume create_empty
  create_volume_empty q e root h = ground arith

  pub create_volume_sourced :
      (image.from_volume == text "") ≡ false
      → done ≡ true
      → lookup image.from_volume s.server.images ≢ none
  unfolding handle_create_volume create_clone
  create_volume_sourced child h e = ground arith

  pub create_volume_clone :
      (q : Text) (b : QcowImage)
      → generate_qsd_id image.id ≡ some q
      → (image.from_volume == text "") ≡ false
      → lookup image.from_volume s.server.images ≡ some b
      → done ≡ true
      → after
        ≡ insert image.id
            (new_volume image q image.from_volume (increment b.depth))
            (insert image.from_volume (raise_count b) s.server.images)
  unfolding handle_create_volume create_clone
  create_volume_clone q b e child found h = ground arith

  -- CreateVolume of a new name adds one image to the forest, or none.
  pub handle_create_volume-Changes :
      lookup image.id s.server.images ≡ none
      → image.id ≢ text ""
      → length s.server.images + 1 < 2 ^ 31
      → Changes s.server.images after
  handle_create_volume-Changes absent proper room = elim (Bool-cases done) [
    | inr h ↦ rw (create_volume_fails h) stay
    | inl h ↦ elim (Option-cases (generate_qsd_id image.id)) [
      | inl e ↦ absurd (create_volume_named h e)
      | inr (q, e) ↦ elim (Bool-cases (image.from_volume == text "")) [
        | inl root ↦ one (
            add_root image.id (new_volume image q (text "") 0) absent proper room refl refl refl
              refl (create_volume_empty q e root h))
        | inr child ↦ elim (Option-cases (lookup image.from_volume s.server.images)) [
          | inl lost ↦ absurd (create_volume_sourced child h lost)
          | inr (b, found) ↦ one (
              add_child image.id (new_volume image q image.from_volume (increment b.depth))
                image.from_volume b absent proper room found refl refl refl refl
                (create_volume_clone q b e child found h))
        ]
      ]
    ]
  ]
