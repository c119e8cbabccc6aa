-- ===== src/Qsd/Server/Effect/Added.antt =====
-- CreateVolume and CreateSnapshot keep an image of its own for every volume that has an active layer.
use csi_qsd.Base.{
  ◌≡◌, ◌≢◌, refl, false, true, none, some, arith, ◌||◌, ◌⊎◌, Bool-cases, Option-cases, inl, inr,
}
use csi_qsd.Go.Text.{Text, text, ◌==◌, eq_iff}
use csi_qsd.Go.Number.{increment}
use csi_qsd.Go.Table.{lookup, insert, lookup-insert}
use csi_qsd.Go.Exec.{is_ok}
use csi_qsd.Host.{Host}
use csi_qsd.Qsd.Message.{Image, Snapshot}
use csi_qsd.Qsd.Server.State.{QcowImage, Server, Sys, generate_qsd_id}
use csi_qsd.Qsd.Server.Create.{create_empty, create_clone, handle_create_volume}
use csi_qsd.Qsd.Server.Snapshots.{handle_create_snapshot}
use csi_qsd.Qsd.Server.Effect.Creation.{
  new_volume, new_snapshot, raise_count, create_volume_named, create_volume_empty,
  create_volume_sourced, create_volume_clone,
}
use csi_qsd.Qsd.Server.Effect.Overlay.{
  create_snapshot_fails, create_snapshot_named, create_snapshot_active, create_snapshot_found,
  create_snapshot_lem,
}
use csi_qsd.Qsd.Server.Effect.Held.{held}
use csi_qsd.Qsd.Server.Effect.Volumes.{has_layer, IsServed}

-- one more volume with its image, where another image may have been written over by one with the
-- same reference
added :
    (id other : Text) (v b b' : QcowImage) (s : Server)
    → id ≢ text ""
    → v.volume_ref ≡ id
    → lookup other s.images ≡ some b
    → b'.volume_ref ≡ b.volume_ref
    → IsServed s
    → (k : Text) → (has_layer k s.active_layers || id == k) ≡ true
    → held k (insert id v (insert other b' s.images)) ≡ true
added id other v b b' s proper own found same served k h = ground (
  arith,
  lookup-insert id k v (insert other b' s.images),
  lookup-insert other k b' s.images,
  eq_iff id k,
  eq_iff other k,
  eq_iff id (text ""),
  served k,
)

module _ (H : Host) where
  pub create_volume_kept :
      (image : Image) (s : Sys H)
      → is_ok (handle_create_volume H image s).0 ≡ false
      → (handle_create_volume H image s).1.server ≡ s.server
  unfolding handle_create_volume create_empty create_clone
  create_volume_kept image s h = ground arith

  pub layers-create_volume :
      (image : Image) (s : Sys H)
      → is_ok (handle_create_volume H image s).0 ≡ true
      → (handle_create_volume H image s).1.server.active_layers
        ≡ insert image.id image.id s.server.active_layers
  unfolding handle_create_volume create_empty create_clone
  layers-create_volume image s h = ground arith

  -- CreateVolume of a proper name keeps the images of the other volumes, and gives the new one its own.
  pub handle_create_volume-IsServed :
      (image : Image) (s : Sys H)
      → image.id ≢ text ""
      → IsServed s.server
      → IsServed (handle_create_volume H image s).1.server
  handle_create_volume-IsServed image s proper served =
      elim (Bool-cases (is_ok (handle_create_volume H image s).0)) [
        | inr failed ↦ rw (create_volume_kept image s failed) served
        | inl done ↦ λ k h.
            let layered : (has_layer k s.server.active_layers || image.id == k) ≡ true = ground (
              arith,
              layers-create_volume image s done,
              lookup-insert image.id k image.id s.server.active_layers,
            ) in
            created k layered done (Option-cases (generate_qsd_id image.id))
              (Bool-cases (image.from_volume == text ""))
              (Option-cases (lookup image.from_volume s.server.images))
      ]
    where
      created :
          (k : Text)
          → (has_layer k s.server.active_layers || image.id == k) ≡ true
          → is_ok (handle_create_volume H image s).0 ≡ true
          → (generate_qsd_id image.id ≡ none) ⊎ ((q : Text) × (generate_qsd_id image.id ≡ some q))
          → ((image.from_volume == text "") ≡ true) ⊎ ((image.from_volume == text "") ≡ false)
          → (lookup image.from_volume s.server.images ≡ none)
            ⊎ ((b : QcowImage) × (lookup image.from_volume s.server.images ≡ some b))
          → held k (handle_create_volume H image s).1.server.images ≡ true
      created k h done (inl panics) root found = absurd (create_volume_named H image s done panics)
      created k h done (inr (q, e)) (inl root) found =
          let v = new_volume image q (text "") 0 in
          rw (create_volume_empty H image s q e root done) (
            ground (
              arith,
              lookup-insert image.id k v s.server.images,
              eq_iff image.id k,
              eq_iff image.id (text ""),
              served k,
            ))
      created k h done (inr (q, e)) (inr child) (inl lost) =
          absurd (create_volume_sourced H image s child done lost)
      created k h done (inr (q, e)) (inr child) (inr (b, found)) =
          rw (create_volume_clone H image s q b e child found done) (
            added image.id image.from_volume
              (new_volume image q image.from_volume (increment b.depth)) b (raise_count b) s.server
              proper refl found refl served k h)

  -- CreateSnapshot of a proper name keeps the images of the volumes.
  pub handle_create_snapshot-IsServed :
      (snapshot : Snapshot) (s : Sys H)
      → snapshot.id ≢ text ""
      → IsServed s.server
      → IsServed (handle_create_snapshot H snapshot s).1.server
  handle_create_snapshot-IsServed snapshot s proper served =
      elim (Bool-cases (is_ok (handle_create_snapshot H snapshot s).0)) [
        | inr failed ↦ rw (create_snapshot_fails H snapshot s failed) served
        | inl done ↦ elim (Option-cases (lookup snapshot.source_volume_id s.server.active_layers)) [
          | inl e ↦ absurd (create_snapshot_active H snapshot s done e)
          | inr (layer, active) ↦ elim (Option-cases (lookup layer s.server.images)) [
            | inl lost ↦ absurd (create_snapshot_found H snapshot s layer active done lost)
            | inr (b, found) ↦ elim (Option-cases (generate_qsd_id snapshot.id)) [
              | inl e ↦ absurd (create_snapshot_named H snapshot s done e)
              | inr (q, named) ↦
                  rw (create_snapshot_lem H snapshot s layer q b named active found done) (λ k h.
                    added snapshot.id layer (new_snapshot snapshot q layer (increment b.depth)) b
                      (raise_count b) s.server proper refl found refl served k
                      (ground (
                        arith,
                        active,
                        eq_iff snapshot.source_volume_id k,
                        lookup-insert snapshot.source_volume_id k snapshot.id
                            s.server.active_layers,
                      )))
            ]
          ]
        ]
      ]
