-- ===== src/Qsd/Server/Effect/Cleared.antt =====
-- Which images carry a reference after DeleteVolume and DeleteSnapshot.
use csi_qsd.Base.{
  ◌≡◌, refl, sym, ◌∙◌, false, true, Bool, Option, none, some, arith, ◌&&◌, not, Bool-cases,
  Option-cases, inl, inr,
}
use csi_qsd.Go.Text.{Text, text, ◌==◌, eq_iff, ==_refl}
use csi_qsd.Go.Number.{is_below_one}
use csi_qsd.Go.Table.{lookup, lookup-insert}
use csi_qsd.Go.Exec.{replied, is_ok, bind_after, or_fail}
use csi_qsd.Host.{Host}
use csi_qsd.Qsd.Message.{Image, Snapshot}
use csi_qsd.Qsd.Server.State.{QcowImage, Sys, on_world}
use csi_qsd.Qsd.Server.Delete.{
  delete_image, delete_if_empty_dir, delete_or_forget, clean_up, handle_delete_volume,
  delete_node_with_zero_reference,
}
use csi_qsd.Qsd.Server.Snapshots.{is_layer, delete_or_keep, handle_delete_snapshot}
use csi_qsd.Qsd.Server.Released.{lookup-delete_image_self}
use csi_qsd.Qsd.Server.Effect.Deletion.{images-delete_image}
use csi_qsd.Qsd.Server.Effect.Held.{
  held, held-delete_image, lookup-delete_image_absent, delete_node_with_zero_reference-Spares,
}

module _ (H : Host) where
  held-delete_image_any :
      (id k : Text) (s : Sys H)
      → held k (delete_image H id s).1.server.images ≡ true
      → held k s.server.images ≡ true
  held-delete_image_any id k s h = elim (Bool-cases (id == k)) [
    | inr other ↦ sym (held-delete_image H id k s other) ∙ h
    | inl same ↦ elim (Bool-cases (is_ok (delete_image H id s).0)) [
      | inr failed ↦ ground (arith, h, failed, images-delete_image H id s)
      | inl done ↦ elim (Option-cases (lookup id s.server.images)) [
        | inl absent ↦ ground (arith, h, done, absent, images-delete_image H id s)
        | inr (i, found) ↦
            absurd
              (ground (arith, h, eq_iff id k, same, lookup-delete_image_self H id i s found done))
      ]
    ]
  ]

  -- a deletion that succeeds leaves no reference
  held-delete_image_self :
      (id : Text) (s : Sys H)
      → is_ok (delete_image H id s).0 ≡ true
      → held id (delete_image H id s).1.server.images ≡ false
  held-delete_image_self id s done = elim (Option-cases (lookup id s.server.images)) [
    | inl absent ↦ ground (arith, lookup-delete_image_absent H id id s absent)
    | inr (i, found) ↦ ground (arith, lookup-delete_image_self H id i s found done)
  ]

  module _ (volume id : Text) (i : QcowImage) (s : Sys H) where
    held-delete_or_forget :
        (k : Text)
        → held k (delete_or_forget H volume id i s).1.server.images ≡ true
        → held k s.server.images ≡ true
    unfolding delete_or_forget
    held-delete_or_forget k h = elim (Bool-cases (is_below_one i.ref_count && id == volume)) [
      | inl free ↦ ground (arith, free, h, held-delete_image_any id k s)
      | inr used ↦ elim (Option-cases (lookup volume s.server.images)) [
        | inl lost ↦ ground (arith, used, lost, h)
        | inr (v, there) ↦ ground (
          arith,
          used,
          there,
          h,
          eq_iff volume k,
          ==_refl (text ""),
          lookup-insert volume k (record v { volume_ref = text "" }) s.server.images,
        )
      ]
    ]

    held-delete_or_forget_self :
        is_ok (delete_or_forget H volume id i s).0 ≡ true
        → held volume (delete_or_forget H volume id i s).1.server.images ≡ false
    unfolding delete_or_forget
    held-delete_or_forget_self done = elim (Bool-cases (is_below_one i.ref_count && id == volume)) [
      | inl free ↦ ground (arith, free, done, eq_iff id volume, held-delete_image_self id s)
      | inr used ↦ elim (Option-cases (lookup volume s.server.images)) [
        | inl lost ↦ ground (arith, used, lost)
        | inr (v, there) ↦ ground (
          arith,
          used,
          there,
          ==_refl volume,
          ==_refl (text ""),
          lookup-insert volume volume (record v { volume_ref = text "" }) s.server.images,
        )
      ]
    ]

  held-clean_up :
      (image : Image) (target : Option QcowImage) (s : Sys H) (k : Text)
      → held k (clean_up H image target s).1.server.images ≡ held k s.server.images
  unfolding clean_up
  held-clean_up image none s k =
      bind_after (λ (t : Sys H). held k t.server.images ≡ held k s.server.images)
        (or_fail (on_world H (delete_if_empty_dir H _)) _) _ _ refl (λ _ _. refl)
  held-clean_up image (some v) s k =
      bind_after (λ (t : Sys H). held k t.server.images ≡ held k s.server.images)
        (or_fail (on_world H (delete_if_empty_dir H _)) _) _ _ refl
        (λ _ _.
          let kept = (delete_node_with_zero_reference-Spares H v.backing_image_id _).same k in
          bind_after (λ (t : Sys H). held k t.server.images ≡ held k s.server.images)
            (or_fail (delete_node_with_zero_reference H v.backing_image_id) _) _ _ kept
            (λ _ _. kept))

  -- DeleteVolume gives a reference to no image, and where it succeeds it clears that of the volume.
  pub held-delete_volume :
      (i : Image) (s : Sys H) (k : Text)
      → held k (handle_delete_volume H i s).1.server.images ≡ true
      → (held k s.server.images ≡ true)
        × ((is_ok (handle_delete_volume H i s).0 && i.id == k) ≡ false)
  unfolding handle_delete_volume
  held-delete_volume i s k h = elim (Option-cases (lookup i.id s.server.active_layers)) [
    | inl inactive ↦ (ground (arith, inactive, h), ground (arith, inactive))
    | inr (id, active) ↦ elim (Option-cases (lookup id s.server.images)) [
      | inl lost ↦ (ground (arith, active, lost, h), ground (arith, active, lost))
      | inr (v, found) ↦ elim (replied (delete_or_forget H i.id id v s).0) [
        | inr failed ↦ (
          ground (arith, active, found, failed, h, held-delete_or_forget i.id id v s k),
          ground (arith, active, found, failed),
        )
        | inl (target, deleted) ↦
            let t = (delete_or_forget H i.id id v s).1 in
            let before : held k t.server.images ≡ true =
              ground (arith, active, found, deleted, h, held-clean_up i target t k) in
            (
              held-delete_or_forget i.id id v s k before,
              ground
                  (arith, before, eq_iff i.id k, deleted, held-delete_or_forget_self i.id id v s),
            )
      ]
    ]
  ]

  held-delete_or_keep :
      (id k : Text) (active : Bool) (v : QcowImage) (s : Sys H)
      → lookup id s.server.images ≡ some v
      → held k (delete_or_keep H id active v s).1.server.images ≡ true
      → (held k s.server.images ≡ true)
        × ((is_ok (delete_or_keep H id active v s).0 && id == k) ≡ false)
  unfolding delete_or_keep
  held-delete_or_keep id k active v s found h =
      elim (Bool-cases (is_below_one v.ref_count && not active)) [
        | inl free ↦ (
          ground (arith, free, h, held-delete_image_any id k s),
          ground (arith, free, h, eq_iff id k, held-delete_image_self id s),
        )
        | inr used ↦ (
          ground (
            arith,
            used,
            h,
            eq_iff id k,
            ==_refl (text ""),
            lookup-insert id k (record v { volume_ref = text "" }) s.server.images,
          ),
          ground (
            arith,
            used,
            h,
            eq_iff id k,
            ==_refl (text ""),
            lookup-insert id k (record v { volume_ref = text "" }) s.server.images,
          ),
        )
      ]

  -- DeleteSnapshot likewise.
  pub held-delete_snapshot :
      (n : Snapshot) (s : Sys H) (k : Text)
      → held k (handle_delete_snapshot H n s).1.server.images ≡ true
      → (held k s.server.images ≡ true)
        × ((is_ok (handle_delete_snapshot H n s).0 && n.id == k) ≡ false)
  unfolding handle_delete_snapshot
  held-delete_snapshot n s k h = elim (Option-cases (lookup n.id s.server.images)) [
    | inl lost ↦ (ground (arith, lost, h), ground (arith, lost))
    | inr (v, found) ↦
        let active = is_layer (lookup n.source_volume_id s.server.active_layers) n.id in
        let t = (delete_or_keep H n.id active v s).1 in
        elim (replied (delete_or_keep H n.id active v s).0) [
          | inr failed ↦
              let both =
                held-delete_or_keep n.id k active v s found (ground (arith, found, failed, h)) in
              (both.0, ground (arith, found, failed))
          | inl (done, kept) ↦
              let same = (delete_node_with_zero_reference-Spares H v.backing_image_id t).same k in
              let both =
                held-delete_or_keep n.id k active v s found
                  (ground (arith, found, kept, h, same)) in
              (both.0, ground (arith, kept, both.1))
        ]
  ]
