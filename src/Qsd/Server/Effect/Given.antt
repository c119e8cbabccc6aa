-- ===== src/Qsd/Server/Effect/Given.antt =====
-- Which images CreateVolume and CreateSnapshot give a reference.
use csi_qsd.Base.{
  ◌≡◌, refl, sym, ap, ◌∙◌, true, some, arith, ◌⊎◌, Bool-cases, Option-cases, inl, inr,
}
use csi_qsd.Go.Text.{Text, text, ◌==◌, eq_iff}
use csi_qsd.Go.Number.{increment}
use csi_qsd.Go.Table.{Table, lookup, insert, lookup-insert}
use csi_qsd.Go.Exec.{is_ok}
use csi_qsd.Host.{Host}
use csi_qsd.Qsd.Message.{Image, Snapshot}
use csi_qsd.Qsd.Server.State.{QcowImage, Server, Sys, generate_qsd_id}
use csi_qsd.Qsd.Server.Create.{handle_create_volume}
use csi_qsd.Qsd.Server.Snapshots.{handle_create_snapshot}
use csi_qsd.Qsd.Server.Effect.Creation.{
  new_volume, new_snapshot, raise_count, create_volume_fails, create_volume_named,
  create_volume_empty, create_volume_sourced, create_volume_clone,
}
use csi_qsd.Qsd.Server.Effect.Overlay.{
  create_snapshot_fails, create_snapshot_named, create_snapshot_active, create_snapshot_found,
  create_snapshot_lem,
}
use csi_qsd.Qsd.Server.Effect.Held.{held}

-- one more image, over another whose reference stays
held-added :
    (id other k : Text) (v b b' : QcowImage) (m : Table QcowImage)
    → lookup other m ≡ some b
    → b'.volume_ref ≡ b.volume_ref
    → held k (insert id v (insert other b' m)) ≡ true
    → (held k m ≡ true) ⊎ ((id == k) ≡ true)
held-added id other k v b b' m found same h = elim (Bool-cases (id == k)) [
  | inl new ↦ inr new
  | inr old ↦ inl (
      ground (
        arith,
        old,
        h,
        found,
        same,
        lookup-insert id k v (insert other b' m),
        lookup-insert other k b' m,
        eq_iff other k,
      ))
]

module _ (H : Host) where
  -- CreateVolume gives a reference to no other image.
  pub held-create_volume :
      (i : Image) (s : Sys H) (k : Text)
      → held k (handle_create_volume H i s).1.server.images ≡ true
      → (held k s.server.images ≡ true) ⊎ ((i.id == k) ≡ true)
  held-create_volume i s k h = elim (Bool-cases (is_ok (handle_create_volume H i s).0)) [
    | inr failed ↦ inl (ap (held k) (sym (create_volume_fails H i s failed)) ∙ h)
    | inl done ↦ elim (Option-cases (generate_qsd_id i.id)) [
      | inl e ↦ absurd (create_volume_named H i s done e)
      | inr (q, e) ↦ elim (Bool-cases (i.from_volume == text "")) [
        | inl root ↦ elim (Bool-cases (i.id == k)) [
          | inl new ↦ inr new
          | inr old ↦ inl (
              ground (
                arith,
                old,
                h,
                create_volume_empty H i s q e root done,
                lookup-insert i.id k (new_volume i q (text "") 0) s.server.images,
              ))
        ]
        | inr child ↦ elim (Option-cases (lookup i.from_volume s.server.images)) [
          | inl lost ↦ absurd (create_volume_sourced H i s child done lost)
          | inr (b, there) ↦
              held-added i.id i.from_volume k (new_volume i q i.from_volume (increment b.depth)) b
                (raise_count b) s.server.images there refl
                (ap (held k) (sym (create_volume_clone H i s q b e child there done)) ∙ h)
        ]
      ]
    ]
  ]

  -- CreateSnapshot gives a reference to the snapshot at most, and that only where it succeeds.
  pub held-create_snapshot :
      (n : Snapshot) (s : Sys H) (k : Text)
      → held k (handle_create_snapshot H n s).1.server.images ≡ true
      → (held k s.server.images ≡ true)
        ⊎ ((is_ok (handle_create_snapshot H n s).0 ≡ true) × ((n.id == k) ≡ true))
  held-create_snapshot n s k h = elim (Bool-cases (is_ok (handle_create_snapshot H n s).0)) [
    | inr failed ↦
        inl (ap (λ (t : Server). held k t.images) (sym (create_snapshot_fails H n s failed)) ∙ h)
    | inl done ↦ elim (Option-cases (lookup n.source_volume_id s.server.active_layers)) [
      | inl e ↦ absurd (create_snapshot_active H n s done e)
      | inr (layer, active) ↦ elim (Option-cases (lookup layer s.server.images)) [
        | inl lost ↦ absurd (create_snapshot_found H n s layer active done lost)
        | inr (b, found) ↦ elim (Option-cases (generate_qsd_id n.id)) [
          | inl e ↦ absurd (create_snapshot_named H n s done e)
          | inr (q, named) ↦
              elim (held-added n.id layer k (new_snapshot n q layer (increment b.depth)) b
                (raise_count b) s.server.images found refl
                (ap (λ (t : Server). held k t.images)
                    (sym (create_snapshot_lem H n s layer q b named active found done))
                  ∙ h)) [ inl old ↦ inl old | inr new ↦ inr (done, new) ]
        ]
      ]
    ]
  ]
