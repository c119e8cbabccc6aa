-- ===== src/Qsd/Server/Effect/Recursion.antt =====
-- deleteNodeWithZeroReference: what it changes, and that it ends.
use csi_qsd.Base.{
  ℕ, zero, suc, ◌+◌, ◌<◌, ◌≤◌, ◌≡◌, true, false, Bool, some, arith, ◌||◌, not, if◌then◌else◌,
  length, Bool-cases, Option-cases, inl, inr,
}
use csi_qsd.Go.Text.{Text, text, ◌==◌}
use csi_qsd.Go.Number.{is_below_one, is_positive}
use csi_qsd.Go.Table.{lookup}
use csi_qsd.Go.Exec.{returns, bind_after, pure}
use csi_qsd.Host.{Host}
use csi_qsd.Qsd.Graph.Change.{Changes, stay, chain}
use csi_qsd.Qsd.Server.State.{QcowImage, Sys, Method}
use csi_qsd.Qsd.Server.Delete.{
  delete_image, collect, visit, delete_node, delete_node_with_zero_reference,
}
use csi_qsd.Qsd.Server.Effect.Deletion.{
  delete_image-Changes, delete_image-returns, length-delete_image,
}

-- an image that the guard lets through has no reference
pub unpositive : (r : ℕ) (b : Bool) → (is_positive r || b) ≡ false → is_below_one r ≡ true
unfolding is_positive is_below_one
unpositive r b h = ground arith

module _ (H : Host) where
  module _ (again : Text → Method H Unit)
      (keep : (k : Text) (t : Sys H) → Changes t.server.images (again k t).1.server.images) where
    next-Changes :
        (s t : Sys H) (more : Bool) (k : Text)
        → Changes s.server.images t.server.images
        → Changes s.server.images ((if more then again k else pure tt) t).1.server.images
    next-Changes s t true k c = chain c (keep k t)
    next-Changes s t false k c = c

    collect-Changes :
        (id : Text) (i : QcowImage) (s : Sys H)
        → lookup id s.server.images ≡ some i
        → Changes s.server.images (collect H again id i s).1.server.images
    unfolding collect
    collect-Changes id i s h =
        elim (Bool-cases (is_positive i.ref_count || not (i.volume_ref == text ""))) [
          | inl used ↦ rw used stay
          | inr unused ↦
              let deleted = delete_image-Changes H id s i h (unpositive i.ref_count _ unused) in
              rw unused (
                bind_after (λ (t : Sys H). Changes s.server.images t.server.images)
                  (delete_image H id) _ s deleted
                  (λ _ _.
                    next-Changes s _ (not (i.backing_image_id == text "")) i.backing_image_id
                      deleted))
        ]

    visit-Changes :
        (id : Text) (s : Sys H) → Changes s.server.images (visit H again id s).1.server.images
    unfolding visit
    visit-Changes id s = elim (Option-cases (lookup id s.server.images)) [
      | inl absent ↦ rw absent stay
      | inr (i, h) ↦ rw h (collect-Changes id i s h)
    ]

  delete_node-Changes :
      (fuel : ℕ) (id : Text) (s : Sys H)
      → Changes s.server.images (delete_node H fuel id s).1.server.images
  unfolding delete_node
  delete_node-Changes zero id s = stay
  delete_node-Changes (suc fuel) id s =
      visit-Changes (delete_node H fuel) (delete_node-Changes fuel) id s

  -- deleteNodeWithZeroReference makes changes of the forest alone.
  pub delete_node_with_zero_reference-Changes :
      (id : Text) (s : Sys H)
      → Changes s.server.images (delete_node_with_zero_reference H id s).1.server.images
  unfolding delete_node_with_zero_reference
  delete_node_with_zero_reference-Changes id s = delete_node-Changes _ id s

  -- Two recursions that agree on smaller tables agree.
  visit_cong :
      (a b : Text → Method H Unit) (id : Text) (s : Sys H)
      → ((k : Text) (t : Sys H)
          → length t.server.images + 1 ≤ length s.server.images
          → a k t ≡ b k t)
      → visit H a id s ≡ visit H b id s
  unfolding visit collect
  visit_cong a b id s same = elim (Option-cases (lookup id s.server.images)) [
    | inl absent ↦ rw absent
    | inr (i, h) ↦
        ground
          (arith, h, same i.backing_image_id (delete_image H id s).1, length-delete_image H id s)
  ]

  delete_node_stable :
      (f g : ℕ) (id : Text) (s : Sys H)
      → length s.server.images < f
      → length s.server.images < g
      → delete_node H f id s ≡ delete_node H g id s
  unfolding delete_node
  delete_node_stable zero g id s hf hg = absurd (omega arith)
  delete_node_stable (suc f) zero id s hf hg = absurd (omega arith)
  delete_node_stable (suc f) (suc g) id s hf hg =
      visit_cong (delete_node H f) (delete_node H g) id s
        (λ k t smaller. delete_node_stable f g k t (omega arith) (omega arith))

  -- The function satisfies the recursion of the source: its body, with every call of itself made in
  -- full. The fuel is always enough.
  pub delete_node_with_zero_reference_lem :
      (id : Text) (s : Sys H)
      → delete_node_with_zero_reference H id s ≡ visit H (delete_node_with_zero_reference H) id s
  unfolding delete_node_with_zero_reference delete_node
  delete_node_with_zero_reference_lem id s =
      visit_cong (delete_node H (length s.server.images)) _ id s (λ k t smaller.
        delete_node_stable (length s.server.images) (suc (length t.server.images)) k t (omega arith)
          (omega arith))

  visit-returns :
      (a : Text → Method H Unit) (id : Text) (s : Sys H)
      → ((k : Text) (t : Sys H)
          → length t.server.images + 1 ≤ length s.server.images
          → returns (a k t).0 ≡ true)
      → returns (visit H a id s).0 ≡ true
  unfolding visit collect
  visit-returns a id s ends = elim (Option-cases (lookup id s.server.images)) [
    | inl absent ↦ rw absent
    | inr (i, h) ↦ ground (
      arith,
      h,
      ends i.backing_image_id (delete_image H id s).1,
      length-delete_image H id s,
      delete_image-returns H id s,
    )
  ]

  delete_node-returns :
      (fuel : ℕ) (id : Text) (s : Sys H)
      → length s.server.images < fuel
      → returns (delete_node H fuel id s).0 ≡ true
  unfolding delete_node
  delete_node-returns zero id s h = absurd (omega arith)
  delete_node-returns (suc fuel) id s h =
      visit-returns (delete_node H fuel) id s
        (λ k t smaller. delete_node-returns fuel k t (omega arith))

  -- deleteNodeWithZeroReference returns on every table, whether it is a forest or not.
  pub delete_node_with_zero_reference-returns :
      (id : Text) (s : Sys H) → returns (delete_node_with_zero_reference H id s).0 ≡ true
  unfolding delete_node_with_zero_reference
  delete_node_with_zero_reference-returns id s = delete_node-returns _ id s (omega arith)
