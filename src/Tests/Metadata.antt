-- ===== src/Tests/Metadata.antt =====
-- The annotations of an image, and a cluster with one persistent volume.
use mathlib.Core.List.{Memᴰ}
use mathlib.Core.Path.{subst}
use csi_qsd.Base.{
  ◌≡◌, refl, sym, ◌↔◌, ◌⊎◌, inl, inr, true, false, Option, none, some, List, [], ◌∷◌, ◌^◌, arith,
  if◌then◌else◌, Option-cases, Bool-cases,
}
use csi_qsd.Go.Text.{Text, text, ◌==◌, ==_refl, eq_iff}
use csi_qsd.Go.Number.{pos}
use csi_qsd.Go.Table.{lookup}
use csi_qsd.Go.Exec.{ok, is_ok}
use csi_qsd.Host.{Error, errorf}
use csi_qsd.Metadata.Server.{
  Metadata, PersistentVolume, Cluster, node_label, read, annotate, parse_annotations, collect,
  get_volumes, add_metadata,
}
use csi_qsd.Metadata.RoundTrip.{parse_annotations-annotate}
use csi_qsd.Metadata.Store.{IsStore}
use csi_qsd.Metadata.Listing.{Carries, get_volumes-Carries}
use csi_qsd.Metadata.Written.{get_volumes-add_metadata}

abbrev down : Cluster
down = record {
  World = Unit;
  list = λ label w. (inl (errorf (text "down")), w);
  get = λ name w. (inl (errorf (text "down")), w);
  update = λ pv w. (inl (errorf (text "down")), w);
  label_set = λ k v. v;
  quote = λ s. s;
}

abbrev pv : PersistentVolume
pv = record { name = text "test0"; labels = none; annotations = none }

abbrev test0 : Metadata
test0 = record {
  id = text "test0";
  qsd_id = text "test0";
  ref_count = pos 3;
  backing_image_id = text "";
  node = text "node0";
}

parse_annotations-annotate_example :
    parse_annotations down (record pv { annotations = some (annotate test0 []) })
    ≡ inr (record test0 { node = text "" })
parse_annotations-annotate_example = parse_annotations-annotate down test0 [] pv (omega arith)

abbrev crowded : Metadata
crowded = record test0 { ref_count = pos (2 ^ 31) }

abbrev at_name : Text → Option PersistentVolume → Option PersistentVolume
at_name name none = none
at_name name (some v) = if v.name == name then some v else none

abbrev found : Option PersistentVolume → Error ⊎ PersistentVolume
found none = inl (errorf (text "not found"))
found (some v) = inr v

abbrev at_label : Text → Option Text → PersistentVolume → List PersistentVolume
at_label node none v = []
at_label node (some n) v = if n == node then v ∷ [] else []

abbrev at_node : Text → Option PersistentVolume → List PersistentVolume
at_node node none = []
at_node node (some v) = at_label node (read node_label v.labels) v

abbrev replace :
    PersistentVolume
    → Option PersistentVolume
    → (Error ⊎ PersistentVolume) × Option PersistentVolume
replace v none = (inl (errorf (text "not found")), none)
replace v (some u) =
    if u.name == v.name then (inr v, some v) else (inl (errorf (text "not found")), some u)

-- a cluster with at most one persistent volume, and labels printed as their value
abbrev single : Cluster
single = record {
  World = Option PersistentVolume;
  list = λ label w. (inr (at_node label w), w);
  get = λ name w. (found (at_name name w), w);
  update = replace;
  label_set = λ k v. v;
  quote = λ s. s;
}

get_found :
    (name : Text) (w : Option PersistentVolume) (v : PersistentVolume)
    → found (at_name name w) ≡ inr v
    → (at_name name w ≡ some v) × (v.name ≡ name)
get_found name none v h = absurd (ground (arith, h))
get_found name (some u) v h = (ground (arith, h), ground (arith, h, eq_iff u.name name))

update_replaces :
    (v r : PersistentVolume) (w : Option PersistentVolume)
    → (replace v w).0 ≡ inr r
    → at_name v.name (replace v w).1 ≡ some v
update_replaces v r none h = absurd (ground (arith, h))
update_replaces v r (some u) h = ground (arith, h, ==_refl v.name)

update_keeps :
    (v : PersistentVolume) (k : Text) (w : Option PersistentVolume)
    → (v.name == k) ≡ false
    → at_name k (replace v w).1 ≡ at_name k w
update_keeps v k none h = refl
update_keeps v k (some u) h = ground (arith, h, eq_iff u.name v.name)

only {ℓ} : {A : Type ℓ} {a x : A} → Memᴰ a (x ∷ []) → a ≡ x
only (Memᴰ.head e) = e
only (Memᴰ.tail m) = elim m [ ]

at_node-found :
    (node : Text) (w : Option PersistentVolume) (v : PersistentVolume)
    → Memᴰ v (at_node node w)
    → (at_name v.name w ≡ some v) × (read node_label v.labels ≡ some node)
at_node-found node none v m = elim m [ ]
at_node-found node (some u) v m = elim (Option-cases (read node_label u.labels)) [
  | inl e ↦ elim (rw e at m) [ ]
  | inr (n, e) ↦ elim (Bool-cases (n == node)) [
    | inl here ↦
        let same = only (rw (e, here) at m) in
        rw same (ground (arith, ==_refl u.name), ground (arith, e, here, eq_iff n node))
    | inr there ↦ elim (rw (e, there) at m) [ ]
  ]
]

at_node-complete :
    (node k : Text) (w : Option PersistentVolume) (v : PersistentVolume)
    → at_name k w ≡ some v
    → read node_label v.labels ≡ some node
    → Memᴰ v (at_node node w)
at_node-complete node k none v held labelled = absurd (ground (arith, held))
at_node-complete node k (some u) v held labelled =
    let same : u ≡ v = ground (arith, held) in rw (same, labelled, ==_refl node) (Memᴰ.head refl)

inr_injective :
    {x y : List PersistentVolume} → ◌≡◌ {A = Error ⊎ List PersistentVolume} (inr x) (inr y) → x ≡ y
inr_injective h = cc

abbrev single-IsStore : IsStore single (text "node0")
single-IsStore = record {
  stored = at_name;
  get_found = get_found;
  get_keeps = λ name k w. refl;
  update_replaces = update_replaces;
  update_keeps = update_keeps;
  list_found = λ w pvs v h m.
      at_node-found (text "node0") w v
        (subst (λ (l : List PersistentVolume). Memᴰ v l) (sym (inr_injective h)) m);
  list_complete = λ w pvs k v h held labelled.
      subst (λ (l : List PersistentVolume). Memᴰ v l) (inr_injective h)
        (at_node-complete (text "node0") k w v held labelled);
}

-- test0 as the only persistent volume, with no label
abbrev fresh : Option PersistentVolume
fresh = some pv

-- and with the label of another node
abbrev away : PersistentVolume
away = record pv { labels = some ((node_label, text "node1") ∷ []) }

add_metadata-fresh : is_ok (add_metadata single test0 fresh).0 ≡ true
unfolding add_metadata text ◌==◌ lookup
add_metadata-fresh = refl

abbrev held : List Metadata
held = collect single (text "node0") (at_node (text "node0") (add_metadata single test0 fresh).1)

get_volumes-fresh :
    (get_volumes single (text "node0") (add_metadata single test0 fresh).1).0 ≡ ok held
unfolding get_volumes
get_volumes-fresh = refl

get_volumes-add_metadata_example : Memᴰ test0 held
get_volumes-add_metadata_example =
    get_volumes-add_metadata single test0 single-IsStore fresh held (omega arith) add_metadata-fresh
      get_volumes-fresh

get_volumes-Carries_example :
    Memᴰ test0 held ↔ Carries single single-IsStore (add_metadata single test0 fresh).1 test0
get_volumes-Carries_example =
    get_volumes-Carries single single-IsStore (add_metadata single test0 fresh).1 held test0
      get_volumes-fresh
