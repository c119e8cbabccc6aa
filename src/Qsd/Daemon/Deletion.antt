-- ===== src/Qsd/Daemon/Deletion.antt =====
-- deleteImage and deleteNodeWithZeroReference against the nodes of the storage daemon, where
-- os.Remove never fails.
use csi_qsd.Base.{
  ℕ, zero, suc, ◌≡◌, ◌≢◌, refl, ◌∙◌, Bool, true, false, not, ◌||◌, Option, some, none, arith,
  Bool-cases, Option-cases, inl, inr, if◌then◌else◌, ap,
}
use csi_qsd.Go.Text.{Text, text, ◌==◌}
use csi_qsd.Go.Number.{is_below_one, is_positive}
use csi_qsd.Go.Table.{Table, lookup}
use csi_qsd.Go.Exec.{is_ok, pure, bind_after}
use csi_qsd.Host.{Host}
use csi_qsd.Qsd.Commands.Manager.{delete_volume}
use csi_qsd.Qsd.Graph.Invariant.{IsForest}
use csi_qsd.Qsd.Graph.Preserve.{Changes-IsForest}
use csi_qsd.Qsd.Server.State.{QcowImage, Sys, Method}
use csi_qsd.Qsd.Server.Delete.{
  delete_image, collect, visit, delete_node, delete_node_with_zero_reference,
}
use csi_qsd.Qsd.Server.Effect.Deletion.{lower, without, images-delete_image, delete_image-Changes}
use csi_qsd.Qsd.Server.Effect.Recursion.{unpositive}
use csi_qsd.Qsd.Daemon.{IsDaemon}
use csi_qsd.Qsd.Daemon.Manage.{delete_volume-has}
use csi_qsd.Qsd.Daemon.Mirror.{
  IsMirrored, node_of, node_of-delete, node_of-update, same-IsMirrored, drop-IsMirrored,
}

node_of-lower :
    (k j : Text) (o : Option QcowImage) (m : Table QcowImage)
    → lookup k m ≡ o
    → node_of j (lower k o m) ≡ node_of j m
node_of-lower k j none m h = refl
node_of-lower k j (some b) m h = node_of-update k j b _ m h refl

node_of-without :
    (id j : Text) (v : QcowImage) (m : Table QcowImage)
    → node_of j (without id (some v) m) ≡ (if id == j then none else node_of j m)
node_of-without id j v m = elim (Bool-cases (v.backing_image_id == text "")) [
  | inl root ↦ rw root (node_of-delete id j m)
  | inr child ↦ rw child (
      ground (
        arith,
        node_of-delete id j (lower v.backing_image_id (lookup v.backing_image_id m) m),
        node_of-lower v.backing_image_id j (lookup v.backing_image_id m) m refl,
      ))
]

module _ (H : Host) (M : IsDaemon H)
    (never : (path : Text) (w : H.World) → (H.remove path w).0 ≡ none) where
  -- the images are a forest, and each has a node of its own
  pub record IsSound (s : Sys H) : Type 0 where
    pub forest : IsForest s.server.images
    pub mirror : IsMirrored H M s.server.images s.world

  module _ (id : Text) (v : QcowImage) (s : Sys H)
      (found : lookup id s.server.images ≡ some v) where
    delete_image-has :
        (k : Text)
        → M.has k (delete_image H id s).1.world ≡ M.has k (delete_volume H v.qsd_id s.world).1
    unfolding delete_image
    delete_image-has k =
        ground (arith, found, M.remove_keeps v.file k (delete_volume H v.qsd_id s.world).1)

    backing_there :
        IsForest s.server.images
        → (v.backing_image_id == text "") ≡ false
        → lookup v.backing_image_id s.server.images ≢ none
    backing_there F child lost = ground (arith, F.layered id v found, child, lost)

    -- deleteImage succeeds exactly where blockdev-del does
    delete_image-is_ok :
        IsForest s.server.images
        → is_ok (delete_image H id s).0 ≡ is_ok (delete_volume H v.qsd_id s.world).0
    unfolding delete_image
    delete_image-is_ok F = elim (Bool-cases (v.backing_image_id == text "")) [
      | inl root ↦ ground (arith, found, root, never v.file (delete_volume H v.qsd_id s.world).1)
      | inr child ↦ elim (Option-cases (lookup v.backing_image_id s.server.images)) [
        | inl lost ↦ absurd (backing_there F child lost)
        | inr (b, there) ↦
            ground (arith, found, child, there, never v.file (delete_volume H v.qsd_id s.world).1)
      ]
    ]

    delete_image-IsMirrored :
        IsSound s
        → IsMirrored H M (delete_image H id s).1.server.images (delete_image H id s).1.world
    delete_image-IsMirrored S =
        let m = S.mirror in
        let here : node_of id s.server.images ≡ some v.qsd_id = ground (arith, found) in
        let gone = λ (k : Text).
          delete_image-has k
          ∙ delete_volume-has H M v.qsd_id k s.world (m.plain id v.qsd_id here) in
        elim (Bool-cases (is_ok (delete_image H id s).0)) [
          | inl done ↦
              drop-IsMirrored H M s.server.images _ s.world _ S.mirror id v.qsd_id here
                (λ j. ground (
                  arith,
                  done,
                  found,
                  ap (node_of j) (images-delete_image H id s),
                  node_of-without id j v s.server.images,
                ))
                (λ k. ground (arith, done, delete_image-is_ok S.forest, gone k))
          | inr failed ↦
              same-IsMirrored H M s.server.images _ s.world _ S.mirror
                (λ j. ground (arith, failed, ap (node_of j) (images-delete_image H id s)))
                (λ k h. ground (arith, failed, delete_image-is_ok S.forest, gone k, h))
        ]

    pub delete_image-IsSound :
        is_below_one v.ref_count ≡ true → IsSound s → IsSound (delete_image H id s).1
    delete_image-IsSound free S = record {
      forest = Changes-IsForest S.forest (delete_image-Changes H id s v found free);
      mirror = delete_image-IsMirrored S;
    }

  module _ (again : Text → Method H Unit)
      (keep : (k : Text) (t : Sys H) → IsSound t → IsSound (again k t).1) where
    next-IsSound :
        (t : Sys H) (more : Bool) (k : Text)
        → IsSound t
        → IsSound ((if more then again k else pure tt) t).1
    next-IsSound t true k S = keep k t S
    next-IsSound t false k S = S

    collect-IsSound :
        (id : Text) (i : QcowImage) (s : Sys H)
        → lookup id s.server.images ≡ some i
        → IsSound s
        → IsSound (collect H again id i s).1
    unfolding collect
    collect-IsSound id i s h S =
        elim (Bool-cases (is_positive i.ref_count || not (i.volume_ref == text ""))) [
          | inl used ↦ rw used S
          | inr unused ↦
              let T = delete_image-IsSound id i s h (unpositive i.ref_count _ unused) S in
              rw unused (
                bind_after IsSound (delete_image H id) _ s T (λ _ _.
                  next-IsSound _ (not (i.backing_image_id == text "")) i.backing_image_id T))
        ]

    visit-IsSound : (id : Text) (s : Sys H) → IsSound s → IsSound (visit H again id s).1
    unfolding visit
    visit-IsSound id s S = elim (Option-cases (lookup id s.server.images)) [
      | inl absent ↦ rw absent S
      | inr (i, h) ↦ rw h (collect-IsSound id i s h S)
    ]

  delete_node-IsSound :
      (fuel : ℕ) (id : Text) (s : Sys H) → IsSound s → IsSound (delete_node H fuel id s).1
  unfolding delete_node
  delete_node-IsSound zero id s S = S
  delete_node-IsSound (suc fuel) id s S =
      visit-IsSound (delete_node H fuel) (delete_node-IsSound fuel) id s S

  pub delete_node_with_zero_reference-IsSound :
      (id : Text) (s : Sys H) → IsSound s → IsSound (delete_node_with_zero_reference H id s).1
  unfolding delete_node_with_zero_reference
  delete_node_with_zero_reference-IsSound id s S = delete_node-IsSound _ id s S
