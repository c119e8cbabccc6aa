-- ===== src/Client/Drawn.antt =====
-- Which volumes printTree of cmd/qsd-client/cmd/list.go puts into the tree.
use mathlib.Core.List.{Memᴰ}
use mathlib.Core.List.Memᴰ
use csi_qsd.Base.{
  ◌≤◌, ◌<◌, ◌≡◌, ◌≢◌, refl, ap, false, none, List, [], ◌∷◌, arith, ltb, Option-cases, Bool-cases,
  inl, inr,
}
use csi_qsd.Go.Text.{Text, ==_refl}
use csi_qsd.Go.Table.{Table, lookup, insert, lookup-insert}
use csi_qsd.Qsd.Message.{Volume}
use csi_qsd.Client.Tree.{less, Printer, Drawing, add_roots, add_child, add_children, draw}

-- sort.Sort: no element is less than one before it
abbrev pub IsSorted : List Volume → Type 0
IsSorted [] = Unit
IsSorted (v ∷ vs) = ((w : Volume) → Memᴰ w vs → less w v ≡ false) × IsSorted vs

-- a volume that printTree can place: it has depth 0, or a backing image of less depth is in the list
pub data Placed (vs : List Volume) (v : Volume) : Type 0 where
  at_root : v.depth ≡ 0 → Placed vs v
  above :
      (b : Volume) → Memᴰ b vs → b.volume_ref ≡ v.backing_image_id → b.depth < v.depth → Placed vs v

module _ (P : Printer) where
  -- the tree has a branch of the name
  abbrev pub Drawn : Drawing P → Text → Type 0
  Drawn d k = lookup k d.branches ≢ none

  insert-Drawn :
      (k j : Text) (b : P.Branch) (t : Table P.Branch)
      → (lookup k (insert k b t) ≢ none) × (lookup j t ≢ none → lookup j (insert k b t) ≢ none)
  insert-Drawn k j b t = (
    λ e. ground (arith, lookup-insert k k b t, ==_refl k, e),
    λ h e. ground (arith, lookup-insert k j b t, h, e),
  )

  -- the loops keep the branches that are there
  add_roots-Drawn :
      (vs : List Volume) (d : Drawing P) (k : Text) → Drawn d k → Drawn (add_roots P vs d) k
  unfolding add_roots
  add_roots-Drawn [] d k h = h
  add_roots-Drawn (v ∷ vs) d k h = elim (Bool-cases (ltb 0 v.depth)) [
    | inl deep ↦ rw deep h
    | inr root ↦ rw root (add_roots-Drawn vs _ k ((insert-Drawn v.volume_ref k _ d.branches).1 h))
  ]

  add_child-Drawn : (v : Volume) (d : Drawing P) (k : Text) → Drawn d k → Drawn (add_child P v d) k
  unfolding add_child
  add_child-Drawn v d k h = elim (Bool-cases (ltb v.depth 1)) [
    | inl root ↦ rw root h
    | inr deep ↦ elim (Option-cases (lookup v.backing_image_id d.branches)) [
      | inl lost ↦ rw (deep, lost) h
      | inr (b, found) ↦ rw (deep, found) ((insert-Drawn v.volume_ref k _ d.branches).1 h)
    ]
  ]

  add_children-Drawn :
      (vs : List Volume) (d : Drawing P) (k : Text) → Drawn d k → Drawn (add_children P vs d) k
  unfolding add_children
  add_children-Drawn [] d k h = h
  add_children-Drawn (v ∷ vs) d k h =
      add_children-Drawn vs (add_child P v d) k (add_child-Drawn v d k h)

  -- the first loop draws every volume of depth 0
  roots_all :
      (vs : List Volume) (d : Drawing P) (v : Volume)
      → IsSorted vs
      → Memᴰ v vs
      → v.depth ≡ 0
      → Drawn (add_roots P vs d) v.volume_ref
  unfolding add_roots less
  roots_all [] d v sorted m zero_depth = elim m [ ]
  roots_all (x ∷ xs) d v sorted (Memᴰ.head e) zero_depth =
      let flat : ltb 0 x.depth ≡ false = ground (arith, e, zero_depth) in
      rw (flat, e)
        (add_roots-Drawn xs _ x.volume_ref
          ((insert-Drawn x.volume_ref x.volume_ref _ d.branches).0))
  roots_all (x ∷ xs) d v sorted (Memᴰ.tail m) zero_depth = elim (Bool-cases (ltb 0 x.depth)) [
    | inl deep ↦ absurd (ground (arith, sorted.0 v m, zero_depth, deep))
    | inr flat ↦ rw flat (roots_all xs _ v sorted.1 m zero_depth)
  ]

  -- What the second loop needs of a volume that it has still to see: it is drawn, its backing
  -- image is drawn, or the backing image comes first.
  pub data Ready (d : Drawing P) (vs : List Volume) (v : Volume) : Type 0 where
    root : v.depth ≡ 0 → Drawn d v.volume_ref → Ready d vs v
    stands : 1 ≤ v.depth → Drawn d v.backing_image_id → Ready d vs v
    waits :
        (b : Volume)
        → Memᴰ b vs
        → b.volume_ref ≡ v.backing_image_id
        → b.depth < v.depth
        → Ready d vs v

  -- the head of the sorted rest is drawn in its round
  head_added :
      (x : Volume) (xs : List Volume) (d : Drawing P)
      → IsSorted (x ∷ xs)
      → Ready d (x ∷ xs) x
      → Drawn (add_child P x d) x.volume_ref
  unfolding less add_child
  head_added x xs d sorted (root z h) = add_child-Drawn x d x.volume_ref h
  head_added x xs d sorted (stands deep h) =
      let below : ltb x.depth 1 ≡ false = ground arith in
      elim (Option-cases (lookup x.backing_image_id d.branches)) [
        | inl lost ↦ absurd (h lost)
        | inr (b, found) ↦
            rw (below, found) ((insert-Drawn x.volume_ref x.volume_ref _ d.branches).0)
      ]
  head_added x xs d sorted (waits b (Memᴰ.head e) same less_deep) =
      absurd (ground (arith, ap (λ (u : Volume). u.depth) e))
  head_added x xs d sorted (waits b (Memᴰ.tail m) same less_deep) =
      absurd (ground (arith, sorted.0 b m))

  next_round :
      (x : Volume) (xs : List Volume) (d : Drawing P) (v : Volume)
      → Drawn (add_child P x d) x.volume_ref
      → Ready d (x ∷ xs) v
      → Ready (add_child P x d) xs v
  next_round x xs d v drawn (root z h) = root z (add_child-Drawn x d v.volume_ref h)
  next_round x xs d v drawn (stands deep h) = stands deep (add_child-Drawn x d v.backing_image_id h)
  next_round x xs d v drawn (waits b (Memᴰ.head e) same less_deep) =
      let there = ap (λ (u : Volume). u.volume_ref) e in
      stands (omega arith) (λ lost. drawn (cc (there, same, lost)))
  next_round x xs d v drawn (waits b (Memᴰ.tail m) same less_deep) = waits b m same less_deep

  children_all :
      (vs : List Volume) (d : Drawing P) (v : Volume)
      → IsSorted vs
      → ((w : Volume) → Memᴰ w vs → Ready d vs w)
      → Memᴰ v vs
      → Drawn (add_children P vs d) v.volume_ref
  unfolding add_children
  children_all [] d v sorted ready m = elim m [ ]
  children_all (x ∷ xs) d v sorted ready m =
      let drawn = head_added x xs d sorted (ready x (Memᴰ.head refl)) in
      elim (Memᴰ.cases_cons m) [
        | inl e ↦ rw e (add_children-Drawn xs (add_child P x d) x.volume_ref drawn)
        | inr n ↦
            children_all xs (add_child P x d) v sorted.1
              (λ w k. next_round x xs d w drawn (ready w (Memᴰ.tail k))) n
      ]

  -- Of a sorted list in which every volume can be placed, every volume is drawn.
  pub draw-Drawn :
      (vs : List Volume) (v : Volume)
      → IsSorted vs
      → ((w : Volume) → Memᴰ w vs → Placed vs w)
      → Memᴰ v vs
      → Drawn (draw P vs) v.volume_ref
  unfolding draw
  draw-Drawn vs v sorted placed m =
      children_all vs (add_roots P vs first) v sorted (λ w k. ready w k (placed w k)) m
    where
      first : Drawing P
      first = record { branches = []; tree = P.new }

      ready : (w : Volume) → Memᴰ w vs → Placed vs w → Ready (add_roots P vs first) vs w
      ready w k (at_root z) = root z (roots_all vs first w sorted k z)
      ready w k (above b n same less_deep) = waits b n same less_deep
