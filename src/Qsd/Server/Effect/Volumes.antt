-- ===== src/Qsd/Server/Effect/Volumes.antt =====
-- Volumes with an active layer keep an image of their own, and DeleteVolume of such a volume does
-- not panic.
use csi_qsd.Base.{
  ◌≡◌, ◌≢◌, refl, sym, ◌∙◌, false, true, Bool, Option, none, some, arith, ◌&&◌, Bool-cases,
  Option-cases, inl, inr,
}
use csi_qsd.Go.Text.{Text, text, ◌==◌, eq_iff}
use csi_qsd.Go.Number.{is_below_one}
use csi_qsd.Go.Table.{Table, lookup, delete, lookup-insert, lookup-delete}
use csi_qsd.Go.Exec.{Exec, bind-returns, bind_after, is_ok, returns, ok, or_fail}
use csi_qsd.Host.{Host}
use csi_qsd.Qsd.Message.{Image}
use csi_qsd.Qsd.Server.State.{QcowImage, Server, Sys, on_world}
use csi_qsd.Qsd.Server.Delete.{
  delete_or_forget, clean_up, delete_if_empty_dir, delete_node_with_zero_reference,
}
use csi_qsd.Qsd.Server.Effect.Deletion.{
  images-delete_image, layers-delete_image, delete_image-returns,
}
use csi_qsd.Qsd.Server.Effect.Recursion.{delete_node_with_zero_reference-returns}
use csi_qsd.Qsd.Server.Effect.Held.{
  held, Spares, held-delete_image, delete_node_with_zero_reference-Spares,
}

abbrev pub has_layer : Text → Table Text → Bool
has_layer k m = elim (lookup k m) [ none ↦ false | some l ↦ true ]

-- every volume that has an active layer has an image of its own with a reference
abbrev pub IsServed : Server → Type 0
IsServed s = (k : Text) → has_layer k s.active_layers ≡ true → held k s.images ≡ true

-- the volume alone may have lost its image
abbrev pub ServedBut : Text → Server → Type 0
ServedBut id s =
    (k : Text) → (id == k) ≡ false → has_layer k s.active_layers ≡ true → held k s.images ≡ true

module _ (id : Text) (s : Server) (served : ServedBut id s) where
  -- forgetting the layer of that volume makes it whole
  layer_dropped : IsServed (record s { active_layers = delete id s.active_layers })
  layer_dropped k h = elim (Bool-cases (id == k)) [
    | inl same ↦ absurd (ground (arith, lookup-delete id k s.active_layers))
    | inr other ↦ served k other (ground (arith, lookup-delete id k s.active_layers))
  ]

pub spared : {s t : Server} → IsServed s → Spares s t → IsServed t
spared served c k h = c.same k ∙ served k (rw (sym c.layers) h)

module _ (H : Host) where
  module _ (volume id : Text) (i : QcowImage) (s : Sys H)
      (found : lookup id s.server.images ≡ some i) where
    -- the branches of DeleteVolume change no other volume
    pub delete_or_forget-ServedBut :
        IsServed s.server → ServedBut volume (delete_or_forget H volume id i s).1.server
    unfolding delete_or_forget
    delete_or_forget-ServedBut served k other h =
        elim (Bool-cases (is_below_one i.ref_count && id == volume)) [
          | inl free ↦ ground (
            arith,
            held-delete_image H id k s,
            eq_iff id volume,
            layers-delete_image H id s,
            served k,
          )
          | inr used ↦ elim (Option-cases (lookup volume s.server.images)) [
            | inl lost ↦ ground (arith, served k)
            | inr (v, there) ↦ ground (
              arith,
              served k,
              lookup-insert volume k (record v { volume_ref = text "" }) s.server.images,
            )
          ]
        ]

    pub delete_or_forget-fails :
        is_ok (delete_or_forget H volume id i s).0 ≡ false
        → ((delete_or_forget H volume id i s).1.server.images ≡ s.server.images)
          × ((delete_or_forget H volume id i s).1.server.active_layers ≡ s.server.active_layers)
    unfolding delete_or_forget
    delete_or_forget-fails h =
        (ground (arith, images-delete_image H id s), ground (arith, layers-delete_image H id s))

    -- where the volume has an image, the variable `i` is not nil
    pub delete_or_forget-returns :
        held volume s.server.images ≡ true
        → (returns (delete_or_forget H volume id i s).0 ≡ true)
          × ((delete_or_forget H volume id i s).0 ≢ ok none)
    unfolding delete_or_forget
    delete_or_forget-returns h = (
      ground (arith, delete_image-returns H id s),
      λ e. ground (arith, delete_image-returns H id s, e),
    )

  pub clean_up-IsServed :
      (image : Image) (target : Option QcowImage) (s : Sys H)
      → ServedBut image.id s.server
      → IsServed (clean_up H image target s).1.server
  unfolding clean_up
  clean_up-IsServed image none s served =
      let dropped = layer_dropped image.id s.server served in
      bind_after (λ (t : Sys H). IsServed t.server)
        (or_fail (on_world H (delete_if_empty_dir H _)) _) _ _ dropped (λ _ _. dropped)
  clean_up-IsServed image (some v) s served =
      let dropped = layer_dropped image.id s.server served in
      bind_after (λ (t : Sys H). IsServed t.server)
        (or_fail (on_world H (delete_if_empty_dir H _)) _) _ _ dropped
        (λ _ _.
          let collected =
            spared dropped (delete_node_with_zero_reference-Spares H v.backing_image_id _) in
          bind_after (λ (t : Sys H). IsServed t.server)
            (or_fail (delete_node_with_zero_reference H v.backing_image_id) _) _ _ collected
            (λ _ _. collected))

  empty_dir-returns : (path : Text) (s : H.World) → returns (delete_if_empty_dir H path s).0 ≡ true
  unfolding delete_if_empty_dir
  empty_dir-returns path s = ground arith

  pub or_fail-returns :
      {E F A : Type 0} (m : Exec (Sys H) E A) (g : E → F) (s : Sys H)
      → returns (m s).0 ≡ true
      → returns (or_fail m g s).0 ≡ true
  or_fail-returns m g s h = ground arith

  pub clean_up-returns :
      (image : Image) (v : QcowImage) (s : Sys H) → returns (clean_up H image (some v) s).0 ≡ true
  unfolding clean_up
  clean_up-returns image v s =
      let t : Sys H = record s {
        server = record (s.server) { active_layers = delete image.id s.server.active_layers };
      } in
      bind-returns (or_fail (on_world H (delete_if_empty_dir H _)) _) _ t
        (or_fail-returns (on_world H (delete_if_empty_dir H _)) _ t (empty_dir-returns _ t.world))
        (λ _ _.
          bind-returns (or_fail (delete_node_with_zero_reference H v.backing_image_id) _) _ _
            (or_fail-returns (delete_node_with_zero_reference H v.backing_image_id) _ _
              (delete_node_with_zero_reference-returns H v.backing_image_id _))
            (λ _ _. refl))
