-- ===== src/Qsd/Daemon/Added.antt =====
-- CreateVolume and CreateSnapshot keep a node for each image, and refuse a name whose node is there.
use csi_qsd.Base.{
  ◌≡◌, ◌≢◌, refl, ◌∙◌, true, false, ◌&&◌, some, none, ◌+◌, ◌<◌, ◌^◌, arith, Bool-cases,
  Option-cases, inl, inr, length, ap, if◌then◌else◌,
}
use csi_qsd.Go.Text.{Text, text, ◌==◌}
use csi_qsd.Go.Number.{increment}
use csi_qsd.Go.Plain.{is_plain}
use csi_qsd.Go.Table.{Table, lookup, insert}
use csi_qsd.Go.Exec.{is_ok}
use csi_qsd.Host.{Host}
use csi_qsd.Qsd.Message.{Image, Snapshot}
use csi_qsd.Qsd.Graph.Change.{Changes, stay}
use csi_qsd.Qsd.Server.State.{QcowImage, Server, Sys, generate_qsd_id, join, images_dir}
use csi_qsd.Qsd.Server.Create.{handle_create_volume}
use csi_qsd.Qsd.Server.Snapshots.{handle_create_snapshot}
use csi_qsd.Qsd.Server.Effect.Creation.{
  new_volume, new_snapshot, raise_count, create_volume_fails, create_volume_named,
  create_volume_empty, create_volume_sourced, create_volume_clone, handle_create_volume-Changes,
}
use csi_qsd.Qsd.Server.Effect.Overlay.{
  create_snapshot_fails, create_snapshot_named, create_snapshot_active, create_snapshot_found,
  create_snapshot_lem, handle_create_snapshot-Changes,
}
use csi_qsd.Qsd.Daemon.{IsDaemon}
use csi_qsd.Qsd.Daemon.Commands.{Makes}
use csi_qsd.Qsd.Daemon.Mirror.{
  IsMirrored, node_of, node_of-insert, node_of-update, same-IsMirrored, add-IsMirrored, unused,
}
use csi_qsd.Qsd.Daemon.Creation.{
  is_plain-generate_qsd_id, handle_create_volume-Makes, handle_create_snapshot-Makes,
}

-- one more image on top of an image that is written over
node_of-child :
    (id k j : Text) (v b c : QcowImage) (m : Table QcowImage)
    → lookup k m ≡ some b
    → c.qsd_id ≡ b.qsd_id
    → node_of j (insert id v (insert k c m)) ≡ (if id == j then some v.qsd_id else node_of j m)
node_of-child id k j v b c m h e =
    ground (arith, node_of-insert id j v (insert k c m), node_of-update k j b c m h e)

module _ (H : Host) (M : IsDaemon H) where
  pub mirrored_plain :
      (m : Table QcowImage) (w : H.World)
      → IsMirrored H M m w
      → (k : Text) (b : QcowImage) → lookup k m ≡ some b
      → is_plain b.qsd_id ≡ true
  mirrored_plain m w R k b h = R.plain k b.qsd_id (ground (arith, h))

  module _ (image : Image) (s : Sys H) (R : IsMirrored H M s.server.images s.world)
      (p : is_plain image.id ≡ true) where
    volume_nodes :
        (q : Text)
        → generate_qsd_id image.id ≡ some q
        → is_ok (handle_create_volume H image s).0 ≡ true
        → (j : Text)
        → node_of j (handle_create_volume H image s).1.server.images
          ≡ (if image.id == j then some q else node_of j s.server.images)
    volume_nodes q e done j = elim (Bool-cases (image.from_volume == text "")) [
      | inl root ↦
          rw (create_volume_empty H image s q e root done)
            (node_of-insert image.id j (new_volume image q (text "") 0) s.server.images)
      | inr child ↦ elim (Option-cases (lookup image.from_volume s.server.images)) [
        | inl lost ↦ absurd (create_volume_sourced H image s child done lost)
        | inr (b, found) ↦ rw (create_volume_clone H image s q b e child found done) (
            node_of-child image.id image.from_volume j
              (new_volume image q image.from_volume (increment b.depth)) b (raise_count b)
              s.server.images found refl)
      ]
    ]

    pub volume-Makes :
        (q : Text)
        → generate_qsd_id image.id ≡ some q
        → Makes H M q
            (is_ok (handle_create_volume H image s).0)
            s.world
            (handle_create_volume H image s).1.world
    volume-Makes q e =
        handle_create_volume-Makes H M image s q e p (mirrored_plain s.server.images s.world R)

    create_volume_unnamed :
        generate_qsd_id image.id ≡ none → is_ok (handle_create_volume H image s).0 ≡ false
    create_volume_unnamed e = elim (Bool-cases (is_ok (handle_create_volume H image s).0)) [
      | inl done ↦ absurd (create_volume_named H image s done e)
      | inr failed ↦ failed
    ]

    volume_unnamed :
        (k : Text)
        → generate_qsd_id image.id ≡ none
        → M.has k (handle_create_volume H image s).1.world ≡ M.has k s.world
    unfolding handle_create_volume
    volume_unnamed k e = ground (arith, e, M.mkdir_keeps (join images_dir image.id) k s.world)

    -- a CreateVolume that succeeds has a name that was not in use
    pub create_volume_unused :
        is_ok (handle_create_volume H image s).0 ≡ true → lookup image.id s.server.images ≡ none
    create_volume_unused done = elim (Option-cases (generate_qsd_id image.id)) [
      | inl e ↦ absurd (create_volume_named H image s done e)
      | inr (q, e) ↦
          unused H M s.server.images s.server.images s.world s.world R image.id q e
            ((volume-Makes q e).made (text "") done).0
    ]

    pub handle_create_volume-IsMirrored :
        IsMirrored H M
          (handle_create_volume H image s).1.server.images
          (handle_create_volume H image s).1.world
    handle_create_volume-IsMirrored = elim (Option-cases (generate_qsd_id image.id)) [
      | inl e ↦
          same-IsMirrored H M s.server.images _ s.world _ R
            (λ j. ap (node_of j) (create_volume_fails H image s (create_volume_unnamed e)))
            (λ k h. volume_unnamed k e ∙ h)
      | inr (q, e) ↦ elim (Bool-cases (is_ok (handle_create_volume H image s).0)) [
        | inl done ↦
            add-IsMirrored H M s.server.images _ s.world _ R image.id q e
              (is_plain-generate_qsd_id image.id q p e) ((volume-Makes q e).made (text "") done).0
              (volume_nodes q e done) (λ k. ((volume-Makes q e).made k done).1)
        | inr failed ↦
            same-IsMirrored H M s.server.images _ s.world _ R
              (λ j. ap (node_of j) (create_volume_fails H image s failed)) (volume-Makes q e).keeps
      ]
    ]

    -- CreateVolume of any plain name keeps the forest.
    pub create_volume-Changes :
        image.id ≢ text ""
        → length s.server.images + 1 < 2 ^ 31
        → Changes s.server.images (handle_create_volume H image s).1.server.images
    create_volume-Changes proper room =
        elim (Bool-cases (is_ok (handle_create_volume H image s).0)) [
          | inl done ↦
              handle_create_volume-Changes H image s (create_volume_unused done) proper room
          | inr failed ↦ rw (create_volume_fails H image s failed) stay
        ]

  module _ (snapshot : Snapshot) (s : Sys H) (R : IsMirrored H M s.server.images s.world)
      (p : (is_plain snapshot.id && is_plain snapshot.source_volume_id) ≡ true) where
    snapshot_nodes :
        (q : Text)
        → generate_qsd_id snapshot.id ≡ some q
        → is_ok (handle_create_snapshot H snapshot s).0 ≡ true
        → (j : Text)
        → node_of j (handle_create_snapshot H snapshot s).1.server.images
          ≡ (if snapshot.id == j then some q else node_of j s.server.images)
    snapshot_nodes q e done j =
        elim (Option-cases (lookup snapshot.source_volume_id s.server.active_layers)) [
          | inl idle ↦ absurd (create_snapshot_active H snapshot s done idle)
          | inr (layer, active) ↦ elim (Option-cases (lookup layer s.server.images)) [
            | inl lost ↦ absurd (create_snapshot_found H snapshot s layer active done lost)
            | inr (b, found) ↦ rw (create_snapshot_lem H snapshot s layer q b e active found done) (
                node_of-child snapshot.id layer j
                  (new_snapshot snapshot q layer (increment b.depth)) b (raise_count b)
                  s.server.images found (λ i. b.qsd_id))
          ]
        ]

    pub snapshot-Makes :
        (q : Text)
        → generate_qsd_id snapshot.id ≡ some q
        → Makes H M q
            (is_ok (handle_create_snapshot H snapshot s).0)
            s.world
            (handle_create_snapshot H snapshot s).1.world
    snapshot-Makes q e =
        handle_create_snapshot-Makes H M snapshot s q e p (mirrored_plain s.server.images s.world R)

    create_snapshot_unnamed :
        generate_qsd_id snapshot.id ≡ none → is_ok (handle_create_snapshot H snapshot s).0 ≡ false
    create_snapshot_unnamed e = elim (Bool-cases (is_ok (handle_create_snapshot H snapshot s).0)) [
      | inl done ↦ absurd (create_snapshot_named H snapshot s done e)
      | inr failed ↦ failed
    ]

    snapshot_unnamed :
        (k : Text)
        → generate_qsd_id snapshot.id ≡ none
        → M.has k (handle_create_snapshot H snapshot s).1.world ≡ M.has k s.world
    unfolding handle_create_snapshot
    snapshot_unnamed k e =
        ground (arith, e, M.stat_keeps (join images_dir snapshot.source_volume_id) k s.world)

    -- a CreateSnapshot that succeeds has a name that was not in use
    pub create_snapshot_unused :
        is_ok (handle_create_snapshot H snapshot s).0 ≡ true
        → lookup snapshot.id s.server.images ≡ none
    create_snapshot_unused done = elim (Option-cases (generate_qsd_id snapshot.id)) [
      | inl e ↦ absurd (create_snapshot_named H snapshot s done e)
      | inr (q, e) ↦
          unused H M s.server.images s.server.images s.world s.world R snapshot.id q e
            ((snapshot-Makes q e).made (text "") done).0
    ]

    snapshot_images :
        is_ok (handle_create_snapshot H snapshot s).0 ≡ false
        → (handle_create_snapshot H snapshot s).1.server.images ≡ s.server.images
    snapshot_images failed =
        ap (λ (t : Server). t.images) (create_snapshot_fails H snapshot s failed)

    pub handle_create_snapshot-IsMirrored :
        IsMirrored H M
          (handle_create_snapshot H snapshot s).1.server.images
          (handle_create_snapshot H snapshot s).1.world
    handle_create_snapshot-IsMirrored = elim (Option-cases (generate_qsd_id snapshot.id)) [
      | inl e ↦
          same-IsMirrored H M s.server.images _ s.world _ R
            (λ j. ap (node_of j) (snapshot_images (create_snapshot_unnamed e)))
            (λ k h. snapshot_unnamed k e ∙ h)
      | inr (q, e) ↦ elim (Bool-cases (is_ok (handle_create_snapshot H snapshot s).0)) [
        | inl done ↦
            add-IsMirrored H M s.server.images _ s.world _ R snapshot.id q e
              (is_plain-generate_qsd_id snapshot.id q (ground arith) e)
              ((snapshot-Makes q e).made (text "") done).0 (snapshot_nodes q e done)
              (λ k. ((snapshot-Makes q e).made k done).1)
        | inr failed ↦
            same-IsMirrored H M s.server.images _ s.world _ R
              (λ j. ap (node_of j) (snapshot_images failed)) (snapshot-Makes q e).keeps
      ]
    ]

    -- CreateSnapshot of any plain name keeps the forest.
    pub create_snapshot-Changes :
        snapshot.id ≢ text ""
        → length s.server.images + 1 < 2 ^ 31
        → Changes s.server.images (handle_create_snapshot H snapshot s).1.server.images
    create_snapshot-Changes proper room =
        elim (Bool-cases (is_ok (handle_create_snapshot H snapshot s).0)) [
          | inl done ↦
              handle_create_snapshot-Changes H snapshot s (create_snapshot_unused done) proper room
          | inr failed ↦ rw (snapshot_images failed) stay
        ]
