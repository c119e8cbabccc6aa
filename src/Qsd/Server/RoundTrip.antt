-- ===== src/Qsd/Server/RoundTrip.antt =====
-- CreateVolume and then DeleteVolume: the tables are as they were before.
use csi_qsd.Base.{
  ◌^◌, ◌<◌, ℕ, ◌≡◌, refl, true, false, Bool, none, some, arith, Option-cases, Bool-cases, inl, inr,
  sym, ap, ◌∙◌,
}
use csi_qsd.Go.Text.{Text, text, ◌==◌, ==_refl, eq_iff}
use csi_qsd.Go.Number.{increment, decrement, is_below_one}
use csi_qsd.Go.Table.{Table, lookup, insert, lookup-insert}
use csi_qsd.Go.Restore.{delete-insert, insert_twice, insert_same, insert_comm}
use csi_qsd.Go.Exec.{is_ok}
use csi_qsd.Host.{Host}
use csi_qsd.Qsd.Message.{Image}
use csi_qsd.Qsd.Server.State.{QcowImage, Server, Sys, generate_qsd_id}
use csi_qsd.Qsd.Server.Create.{create_empty, create_clone, handle_create_volume}
use csi_qsd.Qsd.Server.Delete.{handle_delete_volume, delete_node_with_zero_reference}
use csi_qsd.Qsd.Server.Effect.Deletion.{lower, without}
use csi_qsd.Qsd.Server.Effect.Creation.{
  new_volume, raise_count, create_volume_named, create_volume_empty, create_volume_clone,
  create_volume_sourced,
}
use csi_qsd.Qsd.Server.Effect.Added.{layers-create_volume}
use csi_qsd.Qsd.Graph.Invariant.{IsForest}
use csi_qsd.Qsd.Graph.Children.{children-le-length}
use csi_qsd.Qsd.Server.Undo.{
  settled, clean_settled, before_collect, delete_volume_collects, collect_succeeds,
}
use csi_qsd.Qsd.Server.Released.{unsettled_collected}

decrement-increment : (r : ℕ) → r < 2 ^ 32 → decrement (increment r) ≡ r
unfolding decrement increment
decrement-increment r h = omega arith

-- an image on top of another one, taken away again
without-clone :
    (id base : Text) (v b : QcowImage) (m : Table QcowImage)
    → lookup id m ≡ none
    → lookup base m ≡ some b
    → b.ref_count < 2 ^ 32
    → (base == text "") ≡ false
    → v.backing_image_id ≡ base
    → without id (some v) (insert id v (insert base (raise_count b) m)) ≡ m
without-clone id base v b m absent found small proper over =
    let c = raise_count b in
    let n = insert id v (insert base c m) in
    let other : (base == id) ≡ false = ground (arith, eq_iff base id) in
    let flipped : (id == base) ≡ false = ground (arith, eq_iff base id, eq_iff id base) in
    let raised : lookup base n ≡ some c =
      rw
        (
          lookup-insert id base v (insert base c m),
          flipped,
          lookup-insert base base c m,
          ==_refl base,
        )
        refl in
    let lowered : lower base (lookup base n) n ≡ insert id v m =
      rw
        (
          raised,
          decrement-increment b.ref_count small,
          insert_comm base id b v (insert base c m) other
              (λ e. ground (arith, e, lookup-insert base base c m, ==_refl base)),
          insert_twice base c b m,
          insert_same base b m found,
        )
        refl in
    ground (arith, over, proper, lowered, delete-insert id v m absent)

module _ (H : Host) where
  server-create_volume :
      (image : Image) (s : Sys H)
      → (handle_create_volume H image s).1.server.qsd_sock ≡ s.server.qsd_sock
  unfolding handle_create_volume create_empty create_clone
  server-create_volume image s = ground arith

  module _ (image : Image) (s : Sys H) where
    abbrev after : Sys H
    after = (handle_create_volume H image s).1

    abbrev done : Bool
    done = is_ok (handle_create_volume H image s).0

    -- the new image can be taken away again
    record IsUndoable (v : QcowImage) : Type 0 where
      found : lookup image.id after.server.images ≡ some v
      unused : v.ref_count ≡ 0
      over : v.backing_image_id ≡ image.from_volume
      undone : without image.id (some v) after.server.images ≡ s.server.images

    created :
        done ≡ true
        → after.server ≡ record (s.server) {
          images = after.server.images;
          active_layers = insert image.id image.id s.server.active_layers;
        }
    created h = ground (arith, server-create_volume image s, layers-create_volume H image s h)

    module _ (F : IsForest s.server.images) (absent : lookup image.id s.server.images ≡ none)
        (made : done ≡ true) where
      root-IsUndoable :
          (q : Text)
          → generate_qsd_id image.id ≡ some q
          → (image.from_volume == text "") ≡ true
          → IsUndoable (new_volume image q (text "") 0)
      root-IsUndoable q e root =
          let v = new_volume image q (text "") 0 in
          let images = create_volume_empty H image s q e root made in
          record {
            found =
                rw (images, lookup-insert image.id image.id v s.server.images, ==_refl image.id)
                  refl;
            unused = refl;
            over = sym ((eq_iff image.from_volume (text "")).0 root);
            undone =
                rw (images, ==_refl (text "")) (delete-insert image.id v s.server.images absent);
          }

      clone-IsUndoable :
          (q : Text) (b : QcowImage)
          → generate_qsd_id image.id ≡ some q
          → (image.from_volume == text "") ≡ false
          → lookup image.from_volume s.server.images ≡ some b
          → IsUndoable (new_volume image q image.from_volume (increment b.depth))
      clone-IsUndoable q b e child there =
          let v = new_volume image q image.from_volume (increment b.depth) in
          let images = create_volume_clone H image s q b e child there made in
          let m = insert image.from_volume (raise_count b) s.server.images in
          let small : b.ref_count < 2 ^ 32 = omega (
            arith,
            F.counted image.from_volume b there,
            children-le-length image.from_volume s.server.images,
            F.small,
          ) in
          record {
            found = rw (images, lookup-insert image.id image.id v m, ==_refl image.id) refl;
            unused = refl;
            over = refl;
            undone = rw images (
                without-clone image.id image.from_volume v b s.server.images absent there small
                  child refl);
          }

      made-IsUndoable : (v : QcowImage) × IsUndoable v
      made-IsUndoable = elim (Option-cases (generate_qsd_id image.id)) [
        | inl e ↦ absurd (create_volume_named H image s made e)
        | inr (q, e) ↦ elim (Bool-cases (image.from_volume == text "")) [
          | inl root ↦ (new_volume image q (text "") 0, root-IsUndoable q e root)
          | inr child ↦ elim (Option-cases (lookup image.from_volume s.server.images)) [
            | inl lost ↦ absurd (create_volume_sourced H image s child made lost)
            | inr (b, there) ↦ (
              new_volume image q image.from_volume (increment b.depth),
              clone-IsUndoable q b e child there,
            )
          ]
        ]
      ]

      -- Other calls may come between, if they leave the server as it is; the request to delete
      -- names the volume.
      module _ (inactive : lookup image.id s.server.active_layers ≡ none) (target : Image)
          (t : Sys H) (named : target.id ≡ image.id) (later : t.server ≡ after.server)
          (deleted : is_ok (handle_delete_volume H target t).0 ≡ true) where
        -- DeleteVolume restores the server and then cleans up below the volume
        unwound :
            (u : Sys H) × (u.server ≡ s.server)
            × ((handle_delete_volume H target t).1
                ≡ (delete_node_with_zero_reference H image.from_volume u).1)
            × (is_ok (delete_node_with_zero_reference H image.from_volume u).0 ≡ true)
        unfolding before_collect is_below_one
        unwound =
            let (v, r) = made-IsUndoable in
            let whole = later ∙ created made in
            let active : lookup target.id t.server.active_layers ≡ some target.id = ground (
              arith,
              whole,
              named,
              lookup-insert image.id image.id image.id s.server.active_layers,
              ==_refl image.id,
            ) in
            let found : lookup target.id t.server.images ≡ some v =
              ground (arith, later, named, r.found) in
            let free : is_below_one v.ref_count ≡ true = ground (arith, r.unused) in
            let u = before_collect H target t v active found free deleted in
            (
              u,
              ground (
                arith,
                whole,
                later,
                named,
                r.undone,
                delete-insert image.id image.id s.server.active_layers inactive,
              ),
              delete_volume_collects H target t v active found free deleted
                  ∙ ap (λ (k : Text). (delete_node_with_zero_reference H k u).1) r.over,
              sym (ap (λ (k : Text). is_ok (delete_node_with_zero_reference H k u).0) r.over)
                  ∙ collect_succeeds H target t v active found free deleted,
            )

        -- A volume that CreateVolume has made is deleted without a trace: where both calls succeed,
        -- the server is as it was before the first, if no image and no layer had the name, the
        -- images were a forest, the image that was cloned, if any, has a reference or images on
        -- top, and the server did not change between the calls.
        pub delete-create_volume :
            settled (lookup image.from_volume s.server.images) ≡ true
            → (handle_delete_volume H target t).1.server ≡ s.server
        delete-create_volume kept =
            let (u, restored, ends, _) = unwound in
            let still : settled (lookup image.from_volume u.server.images) ≡ true =
              ap (λ (x : Server). settled (lookup image.from_volume x.images)) restored ∙ kept in
            rw (ends, clean_settled H image.from_volume u still) restored

        -- A clone and its deletion lose an image that was cloned and had no reference and no images
        -- on top, as an active layer whose snapshot was deleted: where both calls succeed, that
        -- image is gone.
        pub delete-create_volume_released :
            (b : QcowImage)
            → lookup image.from_volume s.server.images ≡ some b
            → settled (some b) ≡ false
            → lookup image.from_volume (handle_delete_volume H target t).1.server.images ≡ none
        delete-create_volume_released b there free =
            let (u, restored, ends, succeeds) = unwound in
            let found : lookup image.from_volume u.server.images ≡ some b =
              ap (λ (x : Server). lookup image.from_volume x.images) restored ∙ there in
            rw ends (unsettled_collected H image.from_volume b u found free succeeds)
