-- ===== src/Qsd/Server/Effect/Deletion.antt =====
-- deleteImage and deleteNodeWithZeroReference.
use csi_qsd.Base.{
  ◌+◌, ◌≤◌, ◌≡◌, ◌≢◌, refl, true, false, Option, none, some, arith, if◌then◌else◌, length,
  Bool-cases, Option-cases, inl, inr,
}
use csi_qsd.Go.Text.{Text, text, ◌==◌, eq_iff}
use csi_qsd.Go.Number.{decrement, is_below_one}
use csi_qsd.Go.Table.{
  Table, lookup, insert, delete, length-insert_present, length-delete_lt, lookup-insert,
}
use csi_qsd.Go.Exec.{is_ok, returns}
use csi_qsd.Host.{Host}
use csi_qsd.Qsd.Graph.Change.{Changes, stay, one, drop_root, drop_child}
use csi_qsd.Qsd.Commands.Manager.{delete_volume, execute_command}
use csi_qsd.Qsd.Server.State.{QcowImage, Sys}
use csi_qsd.Qsd.Server.Delete.{delete_image}

-- the backing image with one reference less
abbrev pub lower : Text → Option QcowImage → Table QcowImage → Table QcowImage
lower backing none m = m
lower backing (some b) m = insert backing (record b { ref_count = decrement b.ref_count }) m

-- the table without the image
abbrev pub without : Text → Option QcowImage → Table QcowImage → Table QcowImage
without id none m = m
without id (some v) m = delete id (
    if v.backing_image_id == text ""
    then m
    else lower v.backing_image_id (lookup v.backing_image_id m) m)

length-lower :
    (k : Text) (o : Option QcowImage) (m : Table QcowImage)
    → lookup k m ≡ o
    → length (lower k o m) ≡ length m
length-lower k none m h = refl
length-lower k (some b) m h = length-insert_present k _ b m h

length-delete_found :
    (k : Text) (m : Table QcowImage) → lookup k m ≢ none → length (delete k m) + 1 ≤ length m
length-delete_found k m h = elim (Option-cases (lookup k m)) [
  | inl absent ↦ absurd (h absent)
  | inr (v, found) ↦ length-delete_lt k v m found
]

lookup-lower :
    (k j : Text) (o : Option QcowImage) (m : Table QcowImage)
    → lookup j m ≢ none
    → lookup j (lower k o m) ≢ none
lookup-lower k j none m h = h
lookup-lower k j (some b) m h =
    λ e. ground (arith, lookup-insert k j (record b { ref_count = decrement b.ref_count }) m, h)

length-without :
    (id : Text) (v : QcowImage) (m : Table QcowImage)
    → lookup id m ≡ some v
    → length (without id (some v) m) + 1 ≤ length m
length-without id v m h = elim (Bool-cases (v.backing_image_id == text "")) [
  | inl root ↦ rw root (length-delete_lt id v m h)
  | inr child ↦
      let backing = v.backing_image_id in
      rw child (
        omega (
          arith,
          length-lower backing (lookup backing m) m refl,
          length-delete_found id (lower backing (lookup backing m) m)
              (lookup-lower backing id (lookup backing m) m (λ e. cc (h, e))),
        ))
]

module _ (H : Host) where
  -- deleteImage deletes the image on success, and changes no table on an error.
  pub images-delete_image :
      (id : Text) (s : Sys H)
      → (delete_image H id s).1.server.images ≡ (
          if is_ok (delete_image H id s).0
          then without id (lookup id s.server.images) s.server.images
          else s.server.images)
  unfolding delete_image
  images-delete_image id s = ground arith

  pub layers-delete_image :
      (id : Text) (s : Sys H)
      → (delete_image H id s).1.server.active_layers ≡ s.server.active_layers
  unfolding delete_image
  layers-delete_image id s = ground arith

  -- deleteImage returns.
  pub delete_image-returns : (id : Text) (s : Sys H) → returns (delete_image H id s).0 ≡ true
  unfolding delete_image delete_volume execute_command
  delete_image-returns id s = ground arith

  backing_found :
      (id : Text) (s : Sys H) (v : QcowImage)
      → lookup id s.server.images ≡ some v
      → (v.backing_image_id == text "") ≡ false
      → is_ok (delete_image H id s).0 ≡ true
      → lookup v.backing_image_id s.server.images ≢ none
  unfolding delete_image
  backing_found id s v h child done missing = ground arith

  image_found :
      (id : Text) (s : Sys H)
      → is_ok (delete_image H id s).0 ≡ true
      → lookup id s.server.images ≢ none
  unfolding delete_image
  image_found id s done missing = ground arith

  -- An image that nothing stands on is deleted by one change of the forest, or not at all.
  pub delete_image-Changes :
      (id : Text) (s : Sys H) (v : QcowImage)
      → lookup id s.server.images ≡ some v
      → is_below_one v.ref_count ≡ true
      → Changes s.server.images (delete_image H id s).1.server.images
  delete_image-Changes id s v h free = elim (Bool-cases (is_ok (delete_image H id s).0)) [
    | inr failed ↦ rw (images-delete_image id s, failed) stay
    | inl done ↦ elim (Bool-cases (v.backing_image_id == text "")) [
      | inl root ↦ one (
          drop_root id v h free (ground (arith, eq_iff v.backing_image_id (text "")))
            (ground (arith, images-delete_image id s)))
      | inr child ↦ elim (Option-cases (lookup v.backing_image_id s.server.images)) [
        | inl lost ↦ absurd (backing_found id s v h child done lost)
        | inr (b, found) ↦ one (
            drop_child id v b h free (ground (arith, eq_iff v.backing_image_id (text ""))) found
              (ground (arith, images-delete_image id s)))
      ]
    ]
  ]

  -- a successful deleteImage leaves fewer images
  pub length-delete_image :
      (id : Text) (s : Sys H)
      → is_ok (delete_image H id s).0 ≡ true
      → length (delete_image H id s).1.server.images + 1 ≤ length s.server.images
  length-delete_image id s done = elim (Option-cases (lookup id s.server.images)) [
    | inl lost ↦ absurd (image_found id s done lost)
    | inr (v, h) ↦ rw (images-delete_image id s, done, h) (length-without id v s.server.images h)
  ]
