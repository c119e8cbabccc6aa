-- ===== src/Qsd/Server/Effect/Served.antt =====
-- DeleteVolume and DeleteSnapshot keep an image of its own for every volume that has an active layer.
use csi_qsd.Base.{
  ◌≡◌, ◌≢◌, refl, ap, false, true, Bool, Option, none, some, arith, ◌&&◌, not, Bool-cases,
  Option-cases, inl, inr,
}
use csi_qsd.Go.Text.{Text, text, eq_iff}
use csi_qsd.Go.Number.{is_below_one}
use csi_qsd.Go.Table.{lookup, lookup-insert}
use csi_qsd.Go.Exec.{bind_split, bind_after, bind-returns, returns, ok, or_fail}
use csi_qsd.Host.{Host}
use csi_qsd.Qsd.Message.{Image, Snapshot}
use csi_qsd.Qsd.Server.State.{QcowImage, Sys}
use csi_qsd.Qsd.Server.Delete.{
  delete_or_forget, clean_up, handle_delete_volume, delete_node_with_zero_reference,
}
use csi_qsd.Qsd.Server.Snapshots.{is_layer, delete_or_keep, handle_delete_snapshot}
use csi_qsd.Qsd.Server.Effect.Deletion.{layers-delete_image}
use csi_qsd.Qsd.Server.Effect.Held.{held, held-delete_image, delete_node_with_zero_reference-Spares}
use csi_qsd.Qsd.Server.Effect.Volumes.{
  has_layer, IsServed, spared, delete_or_forget-ServedBut, delete_or_forget-fails,
  delete_or_forget-returns, clean_up-IsServed, clean_up-returns,
}

module _ (H : Host) where
  -- DeleteVolume keeps the images of the other volumes.
  pub handle_delete_volume-IsServed :
      (image : Image) (s : Sys H)
      → IsServed s.server
      → IsServed (handle_delete_volume H image s).1.server
  unfolding handle_delete_volume
  handle_delete_volume-IsServed image s served =
      elim (Option-cases (lookup image.id s.server.active_layers)) [
        | inl inactive ↦ rw inactive served
        | inr (id, active) ↦ elim (Option-cases (lookup id s.server.images)) [
          | inl lost ↦ rw (active, lost) served
          | inr (i, found) ↦
              rw (active, found)
                (bind_split (λ (t : Sys H). IsServed t.server) (delete_or_forget H image.id id i) _
                  s
                  (λ failed k h.
                    let kept = delete_or_forget-fails H image.id id i s found failed in
                    ground (arith, kept.0, kept.1, served k))
                  (λ target _.
                    clean_up-IsServed H image target _
                      (delete_or_forget-ServedBut H image.id id i s found served)))
        ]
      ]

  -- DeleteVolume returns, if every volume with an active layer has an image of its own.
  pub handle_delete_volume-returns :
      (image : Image) (s : Sys H)
      → IsServed s.server
      → returns (handle_delete_volume H image s).0 ≡ true
  unfolding handle_delete_volume
  handle_delete_volume-returns image s served =
      elim (Option-cases (lookup image.id s.server.active_layers)) [
        | inl inactive ↦ rw inactive refl
        | inr (id, active) ↦ elim (Option-cases (lookup id s.server.images)) [
          | inl lost ↦ rw (active, lost) refl
          | inr (i, found) ↦
              let own : held image.id s.server.images ≡ true =
                served image.id (ground (arith, active)) in
              let back = delete_or_forget-returns H image.id id i s found own in
              rw (active, found)
                (bind-returns (delete_or_forget H image.id id i) _ s back.0
                  (λ target e. cleaned target _ (λ lost. back.1 (rw e (ap ok lost)))))
        ]
      ]
    where
      cleaned :
          (target : Option QcowImage) (t : Sys H)
          → target ≢ none
          → returns (clean_up H image target t).0 ≡ true
      cleaned none t h = absurd (h refl)
      cleaned (some v) t h = clean_up-returns H image v t

  delete_or_keep-IsServed :
      (id : Text) (layer : Bool) (v : QcowImage) (s : Sys H)
      → has_layer id s.server.active_layers ≡ false
      → IsServed s.server
      → IsServed (delete_or_keep H id layer v s).1.server
  unfolding delete_or_keep
  delete_or_keep-IsServed id layer v s free served k h =
      elim (Bool-cases (is_below_one v.ref_count && not layer)) [
        | inl gone ↦
            ground
              (arith, held-delete_image H id k s, eq_iff id k, layers-delete_image H id s, served k)
        | inr kept ↦ ground (
          arith,
          lookup-insert id k (record v { volume_ref = text "" }) s.server.images,
          eq_iff id k,
          served k,
        )
      ]

  -- DeleteSnapshot of a name that is no volume keeps the images of the volumes.
  pub handle_delete_snapshot-IsServed :
      (snapshot : Snapshot) (s : Sys H)
      → has_layer snapshot.id s.server.active_layers ≡ false
      → IsServed s.server
      → IsServed (handle_delete_snapshot H snapshot s).1.server
  unfolding handle_delete_snapshot
  handle_delete_snapshot-IsServed snapshot s free served =
      elim (Option-cases (lookup snapshot.id s.server.images)) [
        | inl lost ↦ rw lost served
        | inr (v, found) ↦
            let layer =
              is_layer (lookup snapshot.source_volume_id s.server.active_layers) snapshot.id in
            let first = delete_or_keep-IsServed snapshot.id layer v s free served in
            rw found (
              bind_after (λ (t : Sys H). IsServed t.server) (delete_or_keep H snapshot.id layer v) _
                s first
                (λ _ _.
                  let last =
                    spared first (delete_node_with_zero_reference-Spares H v.backing_image_id _) in
                  bind_after (λ (t : Sys H). IsServed t.server)
                    (or_fail (delete_node_with_zero_reference H v.backing_image_id) _) _ _ last
                    (λ _ _. last)))
      ]
