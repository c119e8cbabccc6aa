-- ===== src/Metadata/Listing.antt =====
-- What GetVolumes of pkg/metadata/metadata.go lists.
use mathlib.Core.List.{Memᴰ}
use mathlib.Core.Path.{subst}
use csi_qsd.Base.{◌≡◌, refl, sym, ◌↔◌, ◌⊎◌, inl, inr, some, List, [], ◌∷◌, arith, Result-cases}
use csi_qsd.Go.Text.{Text, text}
use csi_qsd.Go.Exec.{ok}
use csi_qsd.Host.{Error}
use csi_qsd.Metadata.Server.{
  Metadata, PersistentVolume, Cluster, node_label, read, parse_annotations, collect, get_volumes,
}
use csi_qsd.Metadata.Store.{IsStore}

member_cases {ℓ} : {A : Type ℓ} {a x : A} {l : List A} → Memᴰ a (x ∷ l) → (a ≡ x) ⊎ Memᴰ a l
member_cases (Memᴰ.head e) = inl e
member_cases (Memᴰ.tail m) = inr m

module _ (C : Cluster) where
  parse_annotations-node :
      (pv : PersistentVolume) (x : Metadata) → parse_annotations C pv ≡ inr x → x.node ≡ text ""
  unfolding parse_annotations
  parse_annotations-node pv x e = ground (arith, e)

  -- where an entry that GetVolumes keeps comes from
  abbrev From : Text → Metadata → List PersistentVolume → Type 0
  From node m pvs =
      (pv : PersistentVolume) × (x : Metadata) × Memᴰ pv pvs
      × (parse_annotations C pv ≡ inr x)
      × (m ≡ record x { node = node })

  From-tail :
      {node : Text} {m : Metadata} {pvs : List PersistentVolume} (p : PersistentVolume)
      → From node m pvs
      → From node m (p ∷ pvs)
  From-tail p (pv, x, there, e, named) = (pv, x, Memᴰ.tail there, e, named)

  collect-From :
      (node : Text) (m : Metadata) (pvs : List PersistentVolume)
      → Memᴰ m (collect C node pvs)
      → From node m pvs
  unfolding collect
  collect-From node m [] h = elim h [ ]
  collect-From node m (pv ∷ pvs) h = elim (Result-cases (parse_annotations C pv)) [
    | inl (bad, e) ↦ From-tail pv (collect-From node m pvs (rw e at h))
    | inr (x, e) ↦ elim (member_cases (rw e at h)) [
      | inl here ↦ (pv, x, Memᴰ.head refl, e, here)
      | inr there ↦ From-tail pv (collect-From node m pvs there)
    ]
  ]

  collect-complete :
      (node : Text) (pv : PersistentVolume) (x : Metadata) (pvs : List PersistentVolume)
      → Memᴰ pv pvs
      → parse_annotations C pv ≡ inr x
      → Memᴰ (record x { node = node }) (collect C node pvs)
  unfolding collect
  collect-complete node pv x [] h e = elim h [ ]
  collect-complete node pv x (p ∷ pvs) (Memᴰ.head h) e = rw (sym h, e) (Memᴰ.head refl)
  collect-complete node pv x (p ∷ pvs) (Memᴰ.tail h) e =
      elim (Result-cases (parse_annotations C p)) [
        | inl (bad, f) ↦ rw f (collect-complete node pv x pvs h e)
        | inr (y, f) ↦ rw f (Memᴰ.tail (collect-complete node pv x pvs h e))
      ]

  abbrev listed : Text → C.World → Error ⊎ List PersistentVolume
  listed node w = (C.list (C.label_set node_label node) w).0

  get_volumes-listed :
      (node : Text) (w : C.World) (ms : List Metadata)
      → (get_volumes C node w).0 ≡ ok ms
      → (pvs : List PersistentVolume) × (listed node w ≡ inr pvs) × (ms ≡ collect C node pvs)
  unfolding get_volumes
  get_volumes-listed node w ms done = elim (Result-cases (listed node w)) [
    | inl (e, failed) ↦ absurd (ground (arith, done, failed))
    | inr (pvs, found) ↦ (pvs, found, ground (arith, done, found))
  ]

  module _ {node : Text} (K : IsStore C node) where
    -- the metadata that a persistent volume of the node carries
    pub record Carries (w : C.World) (m : Metadata) : Type 0 where
      pub pv : PersistentVolume
      pub there : K.stored pv.name w ≡ some pv
      pub labelled : read node_label pv.labels ≡ some node
      pub parsed : parse_annotations C pv ≡ inr (record m { node = text "" })
      pub placed : m.node ≡ node

    From-Carries :
        (w : C.World) (m : Metadata) (pvs : List PersistentVolume)
        → listed node w ≡ inr pvs
        → From node m pvs
        → Carries w m
    From-Carries w m pvs found (pv, x, there, e, named) =
        let (held, label) = K.list_found w pvs pv found there in
        record {
          pv = pv;
          there = held;
          labelled = label;
          parsed = ground (arith, e, named, parse_annotations-node pv x e);
          placed = ground (arith, named);
        }

    Carries-listed :
        (w : C.World) (m : Metadata) (pvs : List PersistentVolume)
        → listed node w ≡ inr pvs
        → Carries w m
        → Memᴰ m (collect C node pvs)
    Carries-listed w m pvs found c =
        let there = K.list_complete w pvs c.pv.name c.pv found c.there c.labelled in
        let same : record m { node = node } ≡ m = ground (arith, c.placed) in
        subst (λ (x : Metadata). Memᴰ x (collect C node pvs)) same
          (collect-complete node c.pv (record m { node = text "" }) pvs there c.parsed)

    -- On a cluster that keeps what it is given, GetVolumes, where it succeeds, lists exactly what the
    -- persistent volumes of the node carry: those with the label of the node whose annotations can be
    -- read.
    pub get_volumes-Carries :
        (w : C.World) (ms : List Metadata) (m : Metadata)
        → (get_volumes C node w).0 ≡ ok ms
        → (Memᴰ m ms ↔ Carries w m)
    get_volumes-Carries w ms m done =
        let (pvs, found, whole) = get_volumes-listed node w ms done in
        (
          λ here. From-Carries w m pvs found (collect-From node m pvs (rw whole at here)),
          λ c. rw whole (Carries-listed w m pvs found c),
        )
