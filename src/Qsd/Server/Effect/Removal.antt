-- ===== src/Qsd/Server/Effect/Removal.antt =====
-- DeleteVolume and DeleteSnapshot.
use csi_qsd.Base.{
  ◌≡◌, true, Bool, Option, none, some, arith, ◌&&◌, not, Bool-cases, Option-cases, inl, inr, refl,
}
use csi_qsd.Go.Text.{Text, ◌==◌}
use csi_qsd.Go.Number.{is_below_one}
use csi_qsd.Go.Table.{lookup}
use csi_qsd.Go.Exec.{bind_after, or_fail}
use csi_qsd.Host.{Host}
use csi_qsd.Qsd.Message.{Image, Snapshot}
use csi_qsd.Qsd.Graph.Change.{Changes, stay, one, chain, forget}
use csi_qsd.Qsd.Server.State.{QcowImage, Sys, on_world}
use csi_qsd.Qsd.Server.Delete.{
  delete_image, delete_or_forget, clean_up, handle_delete_volume, delete_if_empty_dir,
  delete_node_with_zero_reference,
}
use csi_qsd.Qsd.Server.Snapshots.{is_layer, delete_or_keep, handle_delete_snapshot}
use csi_qsd.Qsd.Server.Effect.Deletion.{delete_image-Changes}
use csi_qsd.Qsd.Server.Effect.Recursion.{delete_node_with_zero_reference-Changes}

pub and_left : (a b : Bool) → (a && b) ≡ true → a ≡ true
and_left a b h = ground arith

module _ (H : Host) where
  -- the server came from `s` by changes of the forest
  abbrev From : Sys H → Sys H → Type 0
  From s t = Changes s.server.images t.server.images

  delete_or_forget-Changes :
      (volume id : Text) (i : QcowImage) (s : Sys H)
      → lookup id s.server.images ≡ some i
      → From s (delete_or_forget H volume id i s).1
  unfolding delete_or_forget
  delete_or_forget-Changes volume id i s h =
      elim (Bool-cases (is_below_one i.ref_count && id == volume)) [
        | inl free ↦
            let deleted = delete_image-Changes H id s i h (and_left _ _ free) in
            rw free
              (bind_after (From s) (or_fail (delete_image H id) _) _ s deleted (λ _ _. deleted))
        | inr used ↦ elim (Option-cases (lookup volume s.server.images)) [
          | inl lost ↦ rw (used, lost) stay
          | inr (v, found) ↦ rw (used, found) (one (forget volume v found refl))
        ]
      ]

  collected :
      (s t : Sys H) (v : QcowImage)
      → From s t
      → From s (delete_node_with_zero_reference H v.backing_image_id t).1
  collected s t v c = chain c (delete_node_with_zero_reference-Changes H v.backing_image_id t)

  clean_up-Changes :
      (image : Image) (target : Option QcowImage) (s t : Sys H)
      → From s t
      → From s (clean_up H image target t).1
  unfolding clean_up
  clean_up-Changes image none s t c =
      bind_after (From s) (or_fail (on_world H (delete_if_empty_dir H _)) _) _ _ c (λ _ _. c)
  clean_up-Changes image (some v) s t c =
      bind_after (From s) (or_fail (on_world H (delete_if_empty_dir H _)) _) _ _ c (λ _ _.
        bind_after (From s) (or_fail (delete_node_with_zero_reference H v.backing_image_id) _) _ _
          (collected s _ v c) (λ _ _. collected s _ v c))

  -- DeleteVolume changes the table by changes of the forest alone.
  pub handle_delete_volume-Changes :
      (image : Image) (s : Sys H) → From s (handle_delete_volume H image s).1
  unfolding handle_delete_volume
  handle_delete_volume-Changes image s =
      elim (Option-cases (lookup image.id s.server.active_layers)) [
        | inl inactive ↦ rw inactive stay
        | inr (id, active) ↦ elim (Option-cases (lookup id s.server.images)) [
          | inl lost ↦ rw (active, lost) stay
          | inr (i, found) ↦
              let first = delete_or_forget-Changes image.id id i s found in
              rw (active, found)
                (bind_after (From s) (delete_or_forget H image.id id i) _ s first
                  (λ target _. clean_up-Changes image target s _ first))
        ]
      ]

  delete_or_keep-Changes :
      (id : Text) (layer : Bool) (v : QcowImage) (s : Sys H)
      → lookup id s.server.images ≡ some v
      → From s (delete_or_keep H id layer v s).1
  unfolding delete_or_keep
  delete_or_keep-Changes id layer v s h =
      elim (Bool-cases (is_below_one v.ref_count && not layer)) [
        | inl free ↦ rw free (delete_image-Changes H id s v h (and_left _ _ free))
        | inr used ↦ rw used (one (forget id v h refl))
      ]

  -- DeleteSnapshot changes the table by changes of the forest alone.
  pub handle_delete_snapshot-Changes :
      (snapshot : Snapshot) (s : Sys H) → From s (handle_delete_snapshot H snapshot s).1
  unfolding handle_delete_snapshot
  handle_delete_snapshot-Changes snapshot s =
      elim (Option-cases (lookup snapshot.id s.server.images)) [
        | inl lost ↦ rw lost stay
        | inr (v, found) ↦
            let layer =
              is_layer (lookup snapshot.source_volume_id s.server.active_layers) snapshot.id in
            let first = delete_or_keep-Changes snapshot.id layer v s found in
            rw found (
              bind_after (From s) (delete_or_keep H snapshot.id layer v) _ s first (λ _ _.
                bind_after (From s)
                  (or_fail (delete_node_with_zero_reference H v.backing_image_id) _) _ _
                  (collected s _ v first) (λ _ _. collected s _ v first)))
      ]
