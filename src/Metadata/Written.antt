-- ===== src/Metadata/Written.antt =====
-- What AddMetadata of pkg/metadata/metadata.go writes, and GetVolumes after it.
use mathlib.Core.List.{Memᴰ}
use csi_qsd.Base.{
  ◌≡◌, refl, sym, ap, ◌∙◌, inl, inr, true, false, Bool, some, List, arith, if◌then◌else◌,
  Result-cases,
}
use csi_qsd.Go.Text.{Text, ◌==◌, eq_iff}
use csi_qsd.Go.Exec.{ok, is_ok}
use csi_qsd.Metadata.Server.{
  Metadata, PersistentVolume, Cluster, node_label, read, made, label_node, get_volumes,
  add_metadata,
}
use csi_qsd.Metadata.RoundTrip.{FitsInt32, parse_annotations-annotate}
use csi_qsd.Metadata.Store.{
  IsStore, annotated, overwritten, is_elsewhere, read-made, label_node-inr, read-with_node,
}
use csi_qsd.Metadata.Listing.{get_volumes-Carries}

module _ (C : Cluster) where
  abbrev after : Metadata → C.World → C.World
  after m w = (add_metadata C m w).1

  abbrev done : Metadata → C.World → Bool
  done m w = is_ok (add_metadata C m w).0

  module _ {node : Text} (K : IsStore C node) where
    -- whatever AddMetadata returns, it writes no other persistent volume
    add_metadata_keeps :
        (m : Metadata) (w : C.World) (k : Text)
        → (m.id == k) ≡ false
        → K.stored k (after m w) ≡ K.stored k w
    unfolding add_metadata
    add_metadata_keeps m w k other = elim (Result-cases (C.get m.id w).0) [
      | inl (e, failed) ↦ ground (arith, failed, K.get_keeps m.id k w)
      | inr (pv, got) ↦ elim (Result-cases (label_node m.node (made pv.labels))) [
        | inl (e, refused) ↦ ground (arith, got, refused, K.get_keeps m.id k w)
        | inr (r, labelled) ↦ ground (
          arith,
          got,
          labelled,
          (K.get_found m.id w pv got).1,
          (label_node-inr m.node (made pv.labels) r labelled).1,
          K.get_keeps m.id k w,
          K.update_keeps (annotated m pv) k (C.get m.id w).1,
        )
      ]
    ]

    add_metadata-written :
        (m : Metadata) (w : C.World)
        → done m w ≡ true
        → (pv : PersistentVolume) × (K.stored m.id w ≡ some pv)
          × (is_elsewhere m.node (read node_label pv.labels) ≡ false)
          × (pv.name ≡ m.id)
          × (K.stored m.id (after m w) ≡ some (annotated m pv))
    unfolding add_metadata
    add_metadata-written m w h = elim (Result-cases (C.get m.id w).0) [
      | inl (e, failed) ↦ absurd (ground (arith, failed, h))
      | inr (pv, got) ↦ elim (Result-cases (label_node m.node (made pv.labels))) [
        | inl (e, refused) ↦ absurd (ground (arith, got, refused, h))
        | inr (r, labelled) ↦
            let (held, named) = K.get_found m.id w pv got in
            let (free, same) = label_node-inr m.node (made pv.labels) r labelled in
            let v = (C.get m.id w).1 in
            let new = annotated m pv in
            (
              pv,
              held,
              sym (ap (is_elsewhere m.node) (read-made node_label pv.labels)) ∙ free,
              named,
              elim (Result-cases (C.update new v).0) [
                | inl (e, failed) ↦ absurd (ground (arith, got, labelled, same, failed, h))
                | inr (u, sent) ↦
                    ground (arith, got, labelled, same, named, K.update_replaces new u v sent)
              ],
            )
      ]
    ]

    -- On a cluster that keeps what it is given, where AddMetadata succeeds, the persistent volume of
    -- the image's name has the annotations, and the label of the node if it had none; nothing else of
    -- it changes, and no other persistent volume.
    pub stored-add_metadata :
        (m : Metadata) (w : C.World) (k : Text)
        → is_ok (add_metadata C m w).0 ≡ true
        → K.stored k (add_metadata C m w).1
          ≡ (if m.id == k then overwritten m (K.stored k w) else K.stored k w)
    stored-add_metadata m w k h =
        let (pv, held, _, _, written) = add_metadata-written m w h in
        ground (arith, held, written, eq_iff m.id k, add_metadata_keeps m w k)

    -- On such a cluster AddMetadata of a volume that has the label of another node fails and writes
    -- nothing.
    pub add_metadata-elsewhere :
        (m : Metadata) (w : C.World) (pv : PersistentVolume) (k : Text)
        → K.stored m.id w ≡ some pv
        → is_elsewhere m.node (read node_label pv.labels) ≡ true
        → (is_ok (add_metadata C m w).0 ≡ false)
          × (K.stored k (add_metadata C m w).1 ≡ K.stored k w)
    unfolding add_metadata
    add_metadata-elsewhere m w pv k held elsewhere = elim (Result-cases (C.get m.id w).0) [
      | inl (e, failed) ↦ ground (arith, failed, K.get_keeps m.id k w)
      | inr (q, got) ↦ elim (Result-cases (label_node m.node (made q.labels))) [
        | inl (e, refused) ↦ ground (arith, got, refused, K.get_keeps m.id k w)
        | inr (r, labelled) ↦ absurd (
            ground (
              arith,
              held,
              elsewhere,
              (K.get_found m.id w q got).0,
              (label_node-inr m.node (made q.labels) r labelled).0,
              read-made node_label q.labels,
            ))
      ]
    ]

  -- On such a cluster GetVolumes of the node lists what AddMetadata writes: where both calls succeed
  -- one after the other, the metadata is among the result, if the reference count is an int32.
  pub get_volumes-add_metadata :
      (m : Metadata) (K : IsStore C m.node) (w : C.World) (ms : List Metadata)
      → FitsInt32 m.ref_count
      → is_ok (add_metadata C m w).0 ≡ true
      → (get_volumes C m.node (add_metadata C m w).1).0 ≡ ok ms
      → Memᴰ m ms
  get_volumes-add_metadata m K w ms fits added read_back =
      let (pv, held, free, named, written) = add_metadata-written K m w added in
      (get_volumes-Carries C K (after m w) ms m read_back).1 (record {
        pv = annotated m pv;
        there = ground (arith, named, written);
        labelled =
            read-with_node m.node (made pv.labels)
              (ap (is_elsewhere m.node) (read-made node_label pv.labels) ∙ free);
        parsed = parse_annotations-annotate C m (made pv.annotations) (annotated m pv) fits;
        placed = refl;
      })
