-- ===== src/Qsd/Daemon/Removal.antt =====
-- DeleteVolume and DeleteSnapshot against the nodes of the storage daemon, where os.Remove never
-- fails.
use csi_qsd.Base.{
  ◌≡◌, refl, ◌∙◌, Bool, not, ◌&&◌, Option, some, none, arith, Bool-cases, Option-cases, inl, inr,
}
use csi_qsd.Go.Text.{Text, text, ◌==◌}
use csi_qsd.Go.Number.{is_below_one}
use csi_qsd.Go.Table.{lookup, insert, delete}
use csi_qsd.Go.Exec.{bind_after, or_fail}
use csi_qsd.Host.{Host}
use csi_qsd.Qsd.Message.{Image, Snapshot}
use csi_qsd.Qsd.Graph.Change.{one, forget}
use csi_qsd.Qsd.Graph.Preserve.{Changes-IsForest}
use csi_qsd.Qsd.Server.State.{QcowImage, Sys, on_world, join, images_dir}
use csi_qsd.Qsd.Server.Delete.{
  delete_image, delete_or_forget, clean_up, handle_delete_volume, delete_if_empty_dir,
  delete_node_with_zero_reference,
}
use csi_qsd.Qsd.Server.Snapshots.{is_layer, delete_or_keep, handle_delete_snapshot}
use csi_qsd.Qsd.Server.Effect.Removal.{and_left}
use csi_qsd.Qsd.Daemon.{IsDaemon}
use csi_qsd.Qsd.Daemon.Mirror.{node_of-update, same-IsMirrored}
use csi_qsd.Qsd.Daemon.Deletion.{
  IsSound, delete_image-IsSound, delete_node_with_zero_reference-IsSound,
}

module _ (H : Host) (M : IsDaemon H)
    (never : (path : Text) (w : H.World) → (H.remove path w).0 ≡ none) where
  abbrev Sound : Sys H → Type 0
  Sound = IsSound H M never

  forget-IsSound :
      (id : Text) (v : QcowImage) (s : Sys H)
      → lookup id s.server.images ≡ some v
      → Sound s
      → Sound (record s {
        server = record (s.server) {
          images = insert id (record v { volume_ref = text "" }) s.server.images;
        };
      })
  forget-IsSound id v s h S = record {
    forest = Changes-IsForest S.forest (one (forget id v h refl));
    mirror =
        same-IsMirrored H M s.server.images _ s.world s.world S.mirror
          (λ j. node_of-update id j v _ s.server.images h refl) (λ k there. there);
  }

  delete_or_forget-IsSound :
      (volume id : Text) (i : QcowImage) (s : Sys H)
      → lookup id s.server.images ≡ some i
      → Sound s
      → Sound (delete_or_forget H volume id i s).1
  unfolding delete_or_forget
  delete_or_forget-IsSound volume id i s h S =
      elim (Bool-cases (is_below_one i.ref_count && id == volume)) [
        | inl free ↦
            let T = delete_image-IsSound H M never id i s h (and_left _ _ free) S in
            rw free (bind_after Sound (or_fail (delete_image H id) _) _ s T (λ _ _. T))
        | inr used ↦ elim (Option-cases (lookup volume s.server.images)) [
          | inl lost ↦ rw (used, lost) S
          | inr (v, found) ↦ rw (used, found) (forget-IsSound volume v s found S)
        ]
      ]

  empty_dir-has :
      (path k : Text) (w : H.World) → M.has k (delete_if_empty_dir H path w).1 ≡ M.has k w
  unfolding delete_if_empty_dir
  empty_dir-has path k w =
      ground (arith, M.read_dir_keeps path k w, M.remove_keeps path k (H.read_dir path w).1)

  -- the active layer dropped, and the directory if it is empty
  abbrev cleared : Text → Sys H → Sys H
  cleared id s = record {
    server = record (s.server) { active_layers = delete id s.server.active_layers };
    world = (delete_if_empty_dir H (join images_dir id) s.world).1;
  }

  cleared-IsSound : (id : Text) (s : Sys H) → Sound s → Sound (cleared id s)
  cleared-IsSound id s S = record {
    forest = S.forest;
    mirror =
        same-IsMirrored H M s.server.images _ s.world _ S.mirror (λ j. refl)
          (λ k there. empty_dir-has (join images_dir id) k s.world ∙ there);
  }

  clean_up-IsSound :
      (image : Image) (target : Option QcowImage) (s : Sys H)
      → Sound s
      → Sound (clean_up H image target s).1
  unfolding clean_up
  clean_up-IsSound image none s S =
      let C = cleared-IsSound image.id s S in
      bind_after Sound (or_fail (on_world H (delete_if_empty_dir H _)) _) _ _ C (λ _ _. C)
  clean_up-IsSound image (some v) s S =
      let C = cleared-IsSound image.id s S in
      bind_after Sound (or_fail (on_world H (delete_if_empty_dir H _)) _) _ _ C (λ _ _.
        let T = delete_node_with_zero_reference-IsSound H M never v.backing_image_id _ C in
        bind_after Sound (or_fail (delete_node_with_zero_reference H v.backing_image_id) _) _ _ T
          (λ _ _. T))

  pub handle_delete_volume-IsSound :
      (image : Image) (s : Sys H) → Sound s → Sound (handle_delete_volume H image s).1
  unfolding handle_delete_volume
  handle_delete_volume-IsSound image s S =
      elim (Option-cases (lookup image.id s.server.active_layers)) [
        | inl inactive ↦ rw inactive S
        | inr (id, active) ↦ elim (Option-cases (lookup id s.server.images)) [
          | inl lost ↦ rw (active, lost) S
          | inr (i, found) ↦
              let T = delete_or_forget-IsSound image.id id i s found S in
              rw (active, found)
                (bind_after Sound (delete_or_forget H image.id id i) _ s T
                  (λ target _. clean_up-IsSound image target _ T))
        ]
      ]

  delete_or_keep-IsSound :
      (id : Text) (layer : Bool) (v : QcowImage) (s : Sys H)
      → lookup id s.server.images ≡ some v
      → Sound s
      → Sound (delete_or_keep H id layer v s).1
  unfolding delete_or_keep
  delete_or_keep-IsSound id layer v s h S =
      elim (Bool-cases (is_below_one v.ref_count && not layer)) [
        | inl free ↦ rw free (delete_image-IsSound H M never id v s h (and_left _ _ free) S)
        | inr used ↦ rw used (forget-IsSound id v s h S)
      ]

  pub handle_delete_snapshot-IsSound :
      (snapshot : Snapshot) (s : Sys H) → Sound s → Sound (handle_delete_snapshot H snapshot s).1
  unfolding handle_delete_snapshot
  handle_delete_snapshot-IsSound snapshot s S =
      elim (Option-cases (lookup snapshot.id s.server.images)) [
        | inl lost ↦ rw lost S
        | inr (v, found) ↦
            let layer =
              is_layer (lookup snapshot.source_volume_id s.server.active_layers) snapshot.id in
            let T = delete_or_keep-IsSound snapshot.id layer v s found S in
            let U = delete_node_with_zero_reference-IsSound H M never v.backing_image_id _ T in
            rw found (
              bind_after Sound (delete_or_keep H snapshot.id layer v) _ s T (λ _ _.
                bind_after Sound (or_fail (delete_node_with_zero_reference H v.backing_image_id) _)
                  _ _ U (λ _ _. U)))
      ]
