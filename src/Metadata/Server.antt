-- ===== src/Metadata/Server.antt =====
-- pkg/metadata/metadata.go: the metadata server, over any Kubernetes client.
use csi_qsd.Base.{not, Option, none, some, ◌⊎◌, inl, inr, List, [], ◌∷◌, ◌++◌, if◌then◌else◌}
use csi_qsd.Go.Text.{Text, text, ◌==◌}
use csi_qsd.Go.Number.{ℤ, pos, format_int}
use csi_qsd.Go.Table.{Table, lookup, insert}
use csi_qsd.Go.Exec.{Exec, pure, ◌>>=◌, ◌>>◌, result}
use csi_qsd.Host.{Error, errorf}
use csi_qsd.Metadata.ParseInt.{value, syntax_error, range_error, parse_int}

-- the constants of the annotations
abbrev pub node_label : Text
node_label = text "node"

abbrev pub ann_id : Text
ann_id = text "csi-qsd/id"

abbrev pub ann_qsd_id : Text
ann_qsd_id = text "csi-qsd/qsdID"

abbrev pub ann_backing_image_id : Text
ann_backing_image_id = text "csi-qsd/backingImageID"

abbrev pub ann_ref_count : Text
ann_ref_count = text "csi-qsd/refCount"

-- Metadata of metadata.proto; ref_count is an int64
pub record Metadata : Type 0 where
  pub id : Text
  pub qsd_id : Text
  pub ref_count : ℤ
  pub backing_image_id : Text
  pub node : Text

-- the name and the maps of a PersistentVolume's ObjectMeta; a nil map is `none`
pub record PersistentVolume : Type 0 where
  pub name : Text
  pub labels : Option (Table Text)
  pub annotations : Option (Table Text)

-- The client of k8s.io/client-go for persistent volumes, the print of a label set, and
-- strconv.Quote.
pub record Cluster : Type 1 where
  pub World : Type 0
  pub list : Text → World → (Error ⊎ List PersistentVolume) × World
  pub get : Text → World → (Error ⊎ PersistentVolume) × World
  pub update : PersistentVolume → World → (Error ⊎ PersistentVolume) × World
  pub label_set : Text → Text → Text
  pub quote : Text → Text

-- reading a map that may be nil
abbrev pub read : Text → Option (Table Text) → Option Text
read k none = none
read k (some m) = lookup k m

-- the map, made if it is nil
abbrev pub made : Option (Table Text) → Table Text
made none = []
made (some m) = m

abbrev pub or_empty : Option Text → Text
or_empty none = text ""
or_empty (some t) = t

abbrev pub annotation_not_found : Text → Error
annotation_not_found name = errorf (text "Annotation " ++ (name ++ text " not found"))

abbrev with_count : (ℤ → Metadata) → Error ⊎ ℤ → Error ⊎ Metadata
with_count f (inl e) = inl e
with_count f (inr z) = inr (f z)

abbrev build : Option Text → Option Text → Text → Error ⊎ ℤ → Error ⊎ Metadata
build none q b r = inl (annotation_not_found ann_id)
build (some id) none b r = inl (annotation_not_found ann_qsd_id)
build (some id) (some q) b r =
    with_count
      (λ z. record { id = id; qsd_id = q; ref_count = z; backing_image_id = b; node = text "" }) r

abbrev keep : Text → Error ⊎ Metadata → List Metadata → List Metadata
keep node (inl e) ms = ms
keep node (inr m) ms = record m { node = node } ∷ ms

-- the label of the node on the persistent volume, set if there is none
unfoldable pub label_node : Text → Table Text → Error ⊎ Table Text
label_node node labels = elim (lookup node_label labels) [
  | none ↦ inr (insert node_label node labels)
  | some v ↦
      if not (v == node)
      then inl (
          errorf (
            text "Requested node "
            ++ (v ++ (text " and node label on the PV " ++ (node ++ text " don't match")))))
      else inr labels
]

-- the four annotations
unfoldable pub annotate : Metadata → Table Text → Table Text
annotate m a = insert ann_ref_count (format_int m.ref_count) (
    insert ann_backing_image_id m.backing_image_id
      (insert ann_qsd_id m.qsd_id (insert ann_id m.id a)))

module _ (C : Cluster) where
  abbrev pub num_error : Text → Text → Error
  num_error s what =
      errorf (text "strconv.ParseInt: parsing " ++ (C.quote s ++ (text ": " ++ what)))

  -- the reference count; without the annotation it is zero
  unfoldable pub parse_ref_count : Option Text → Error ⊎ ℤ
  parse_ref_count none = inr (pos 0)
  parse_ref_count (some r) = elim (parse_int r) [
    | value z ↦ inr z
    | syntax_error ↦ inl (num_error r (text "invalid syntax"))
    | range_error ↦ inl (num_error r (text "value out of range"))
  ]

  -- parseAnnotationsFromPVtoMetadata
  unfoldable pub parse_annotations : PersistentVolume → Error ⊎ Metadata
  unfolding parse_ref_count
  parse_annotations pv =
      build (read ann_id pv.annotations) (read ann_qsd_id pv.annotations)
        (or_empty (read ann_backing_image_id pv.annotations))
        (parse_ref_count (read ann_ref_count pv.annotations))

  -- the loop of GetVolumes
  unfoldable pub collect : Text → List PersistentVolume → List Metadata
  unfolding parse_annotations
  collect node [] = []
  collect node (pv ∷ pvs) = keep node (parse_annotations pv) (collect node pvs)

  -- GetVolumes
  unfoldable pub get_volumes : Text → Exec C.World Error (List Metadata)
  unfolding collect
  get_volumes node = do pvs ← result (C.list (C.label_set node_label node)); pure (collect node pvs)

  -- AddMetadata
  unfoldable pub add_metadata : Metadata → Exec C.World Error Unit
  unfolding label_node annotate
  add_metadata m = do
    pv ← result (C.get m.id)
    labels ← result (λ w. (label_node m.node (made pv.labels), w))
    result (
        C.update (record pv {
          labels = some labels;
          annotations = some (annotate m (made pv.annotations));
        }))
    pure tt
