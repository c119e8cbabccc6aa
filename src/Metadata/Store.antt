-- ===== src/Metadata/Store.antt =====
-- A cluster that keeps the persistent volumes it is given, and the labels that AddMetadata of
-- pkg/metadata/metadata.go reads and writes there.
use mathlib.Core.List.{Memᴰ}
use csi_qsd.Base.{
  ◌≡◌, refl, inl, inr, false, Bool, not, Option, none, some, List, arith, Option-cases,
}
use csi_qsd.Go.Text.{Text, ◌==◌, ==_refl, eq_iff}
use csi_qsd.Go.Table.{Table, lookup, insert, lookup-insert}
use csi_qsd.Metadata.Server.{
  Metadata, PersistentVolume, Cluster, node_label, read, made, label_node, annotate,
}

-- What the Kubernetes API documents of its calls, where nobody else writes: Get returns the object
-- of the name and changes nothing, Update replaces it where it succeeds and touches no other object
-- in any case, and List returns the objects that carry the label of the node.
pub record IsStore (C : Cluster) (node : Text) : Type 0 where
  pub stored : Text → C.World → Option PersistentVolume
  pub get_found :
      (name : Text) (w : C.World) (pv : PersistentVolume)
      → (C.get name w).0 ≡ inr pv
      → (stored name w ≡ some pv) × (pv.name ≡ name)
  pub get_keeps : (name k : Text) (w : C.World) → stored k (C.get name w).1 ≡ stored k w
  pub update_replaces :
      (pv r : PersistentVolume) (w : C.World)
      → (C.update pv w).0 ≡ inr r
      → stored pv.name (C.update pv w).1 ≡ some pv
  pub update_keeps :
      (pv : PersistentVolume) (k : Text) (w : C.World)
      → (pv.name == k) ≡ false
      → stored k (C.update pv w).1 ≡ stored k w
  pub list_found :
      (w : C.World) (pvs : List PersistentVolume) (pv : PersistentVolume)
      → (C.list (C.label_set node_label node) w).0 ≡ inr pvs
      → Memᴰ pv pvs
      → (stored pv.name w ≡ some pv) × (read node_label pv.labels ≡ some node)
  pub list_complete :
      (w : C.World) (pvs : List PersistentVolume) (k : Text) (pv : PersistentVolume)
      → (C.list (C.label_set node_label node) w).0 ≡ inr pvs
      → stored k w ≡ some pv
      → read node_label pv.labels ≡ some node
      → Memᴰ pv pvs

-- the labels with the node among them
abbrev pub with_node : Text → Table Text → Table Text
with_node node labels = elim (lookup node_label labels) [
  | none ↦ insert node_label node labels
  | some v ↦ labels
]

-- the persistent volume that AddMetadata writes
abbrev pub annotated : Metadata → PersistentVolume → PersistentVolume
annotated m pv = record pv {
  labels = some (with_node m.node (made pv.labels));
  annotations = some (annotate m (made pv.annotations));
}

abbrev pub overwritten : Metadata → Option PersistentVolume → Option PersistentVolume
overwritten m none = none
overwritten m (some pv) = some (annotated m pv)

-- the label of a node other than this one
abbrev pub is_elsewhere : Text → Option Text → Bool
is_elsewhere node none = false
is_elsewhere node (some v) = not (v == node)

pub read-made : (k : Text) (o : Option (Table Text)) → lookup k (made o) ≡ read k o
unfolding lookup
read-made k none = refl
read-made k (some t) = refl

pub label_node-inr :
    (node : Text) (t r : Table Text)
    → label_node node t ≡ inr r
    → (is_elsewhere node (lookup node_label t) ≡ false) × (r ≡ with_node node t)
unfolding label_node
label_node-inr node t r h = elim (Option-cases (lookup node_label t)) [
  | inl e ↦ rw e (refl, ground (arith, e, h))
  | inr (v, e) ↦ rw e (ground (arith, e, h), ground (arith, e, h))
]

pub read-with_node :
    (node : Text) (t : Table Text)
    → is_elsewhere node (lookup node_label t) ≡ false
    → lookup node_label (with_node node t) ≡ some node
read-with_node node t h = elim (Option-cases (lookup node_label t)) [
  | inl e ↦ ground (arith, e, lookup-insert node_label node_label node t, ==_refl node_label)
  | inr (v, e) ↦ ground (arith, e, h, eq_iff v node)
]
