-- ===== src/Qsd/Server/Effect/Held.antt =====
-- Images that carry a reference: what deletes them, and what does not.
use csi_qsd.Base.{
  ℕ, zero, suc, ◌≡◌, refl, ◌∙◌, false, true, Bool, Option, none, some, arith, ◌||◌, not,
  if◌then◌else◌, Bool-cases, Option-cases, inl, inr,
}
use csi_qsd.Go.Text.{Text, text, ◌==◌, eq_iff, ==_refl}
use csi_qsd.Go.Number.{is_positive, decrement}
use csi_qsd.Go.Table.{Table, lookup, lookup-insert, lookup-delete}
use csi_qsd.Go.Exec.{bind_after, is_ok, pure}
use csi_qsd.Host.{Host}
use csi_qsd.Qsd.Server.State.{QcowImage, Server, Sys, Method}
use csi_qsd.Qsd.Server.Delete.{
  delete_image, collect, visit, delete_node, delete_node_with_zero_reference,
}
use csi_qsd.Qsd.Server.Effect.Deletion.{lower, without, images-delete_image, layers-delete_image}

abbrev pub refers : Option QcowImage → Bool
refers none = false
refers (some v) = not (v.volume_ref == text "")

-- the name has an image, and the image's reference is not cleared
abbrev pub held : Text → Table QcowImage → Bool
held k m = refers (lookup k m)

-- the same images are held, no image is new, and the active layers are the same
pub record Spares (s t : Server) : Type 0 where
  pub layers : t.active_layers ≡ s.active_layers
  pub same : (k : Text) → held k t.images ≡ held k s.images
  pub gone : (k : Text) → lookup k s.images ≡ none → lookup k t.images ≡ none

pub untouched : {s : Server} → Spares s s
untouched = record { layers = refl; same = λ k. refl; gone = λ k h. h }

pub touch_twice : {s t u : Server} → Spares s t → Spares t u → Spares s u
touch_twice a b = record {
  layers = b.layers ∙ a.layers;
  same = λ k. b.same k ∙ a.same k;
  gone = λ k h. b.gone k (a.gone k h);
}

refers-lower :
    (backing k : Text) (o : Option QcowImage) (m : Table QcowImage)
    → lookup backing m ≡ o
    → held k (lower backing o m) ≡ held k m
refers-lower backing k none m e = refl
refers-lower backing k (some b) m e = ground (
  arith,
  lookup-insert backing k (record b { ref_count = decrement b.ref_count }) m,
  eq_iff backing k,
)

-- deleting an image leaves the others as they are held
pub held-without :
    (id k : Text) (o : Option QcowImage) (m : Table QcowImage)
    → (id == k) ≡ false
    → held k (without id o m) ≡ held k m
held-without id k none m other = refl
held-without id k (some v) m other = elim (Bool-cases (v.backing_image_id == text "")) [
  | inl root ↦ rw (root, lookup-delete id k m, other) refl
  | inr child ↦
      let backing = v.backing_image_id in
      rw (child, lookup-delete id k (lower backing (lookup backing m) m), other)
        (refers-lower backing k (lookup backing m) m refl)
]

held-without_self :
    (id : Text) (o : Option QcowImage) (m : Table QcowImage)
    → held id m ≡ false
    → held id (without id o m) ≡ false
held-without_self id none m h = h
held-without_self id (some v) m h =
    rw
      (
        lookup-delete id id (
            if v.backing_image_id == text ""
            then m
            else lower v.backing_image_id (lookup v.backing_image_id m) m),
        ==_refl id,
      )
      refl

lookup-lower_absent :
    (backing k : Text) (o : Option QcowImage) (m : Table QcowImage)
    → lookup backing m ≡ o
    → lookup k m ≡ none
    → lookup k (lower backing o m) ≡ none
lookup-lower_absent backing k none m e h = h
lookup-lower_absent backing k (some b) m e h = ground (
  arith,
  lookup-insert backing k (record b { ref_count = decrement b.ref_count }) m,
  eq_iff backing k,
)

-- deleting an image adds none
pub lookup-without_absent :
    (id k : Text) (o : Option QcowImage) (m : Table QcowImage)
    → lookup k m ≡ none
    → lookup k (without id o m) ≡ none
lookup-without_absent id k none m h = h
lookup-without_absent id k (some v) m h =
    let backing = v.backing_image_id in
    let n = lower backing (lookup backing m) m in
    ground (
      arith,
      lookup-delete id k m,
      lookup-delete id k n,
      lookup-lower_absent backing k (lookup backing m) m refl h,
    )

module _ (H : Host) where
  pub lookup-delete_image_absent :
      (id k : Text) (s : Sys H)
      → lookup k s.server.images ≡ none
      → lookup k (delete_image H id s).1.server.images ≡ none
  lookup-delete_image_absent id k s h =
      rw (images-delete_image H id s) (elim (Bool-cases (is_ok (delete_image H id s).0)) [
        | inl done ↦
            rw done (lookup-without_absent id k (lookup id s.server.images) s.server.images h)
        | inr failed ↦ rw failed h
      ])

  -- deleteImage leaves the other images as they are held
  pub held-delete_image :
      (id k : Text) (s : Sys H)
      → (id == k) ≡ false
      → held k (delete_image H id s).1.server.images ≡ held k s.server.images
  held-delete_image id k s other =
      rw (images-delete_image H id s) (elim (Bool-cases (is_ok (delete_image H id s).0)) [
        | inl done ↦ rw done (held-without id k (lookup id s.server.images) s.server.images other)
        | inr failed ↦ rw failed refl
      ])

  -- deleteImage of an image that is not held spares those that are
  delete_image-Spares :
      (id : Text) (s : Sys H)
      → held id s.server.images ≡ false
      → Spares s.server (delete_image H id s).1.server
  delete_image-Spares id s free = record {
    layers = layers-delete_image H id s;
    same = λ k. elim (Bool-cases (id == k)) [
      | inr other ↦ held-delete_image id k s other
      | inl this ↦ unheld k this
    ];
    gone = λ k h. lookup-delete_image_absent id k s h;
  }
    where
      unheld :
          (k : Text)
          → (id == k) ≡ true
          → held k (delete_image H id s).1.server.images ≡ held k s.server.images
      unheld k this =
          let still : held id (delete_image H id s).1.server.images ≡ false =
            rw (images-delete_image H id s) (elim (Bool-cases (is_ok (delete_image H id s).0)) [
              | inl done ↦
                  rw done (held-without_self id (lookup id s.server.images) s.server.images free)
              | inr failed ↦ rw failed free
            ]) in
          ground (arith, eq_iff id k, still, free)

  module _ (again : Text → Method H Unit)
      (spare : (k : Text) (t : Sys H) → Spares t.server (again k t).1.server) where
    next-Spares :
        (s t : Sys H) (more : Bool) (k : Text)
        → Spares s.server t.server
        → Spares s.server ((if more then again k else pure tt) t).1.server
    next-Spares s t true k c = touch_twice c (spare k t)
    next-Spares s t false k c = c

    visit-Spares : (id : Text) (s : Sys H) → Spares s.server (visit H again id s).1.server
    unfolding visit collect
    visit-Spares id s = elim (Option-cases (lookup id s.server.images)) [
      | inl absent ↦ rw absent untouched
      | inr (i, h) ↦ elim (Bool-cases (is_positive i.ref_count || not (i.volume_ref == text ""))) [
        | inl used ↦ rw (h, used) untouched
        | inr unused ↦
            let deleted = delete_image-Spares id s (ground arith) in
            rw (h, unused)
              (bind_after (λ (t : Sys H). Spares s.server t.server) (delete_image H id) _ s deleted
                (λ _ _.
                  next-Spares s _ (not (i.backing_image_id == text "")) i.backing_image_id deleted))
      ]
    ]

  delete_node-Spares :
      (fuel : ℕ) (id : Text) (s : Sys H) → Spares s.server (delete_node H fuel id s).1.server
  unfolding delete_node
  delete_node-Spares zero id s = untouched
  delete_node-Spares (suc fuel) id s =
      visit-Spares (delete_node H fuel) (delete_node-Spares fuel) id s

  -- deleteNodeWithZeroReference spares every image with a reference, and the active layers.
  pub delete_node_with_zero_reference-Spares :
      (id : Text) (s : Sys H) → Spares s.server (delete_node_with_zero_reference H id s).1.server
  unfolding delete_node_with_zero_reference
  delete_node_with_zero_reference-Spares id s = delete_node-Spares _ id s
