-- ===== src/Client/Nested.antt =====
-- Where printTree of cmd/qsd-client/cmd/list.go puts the branch of a volume.
use mathlib.Core.List.{Memᴰ}
use mathlib.Core.Path.{subst}
use csi_qsd.Base.{
  ◌≤◌, ◌≡◌, refl, sym, ap, false, true, Option, none, some, List, [], ◌∷◌, arith, ltb, Bool-cases,
  inl, inr,
}
use csi_qsd.Go.Text.{Text, ◌==◌, ==_refl, eq_iff}
use csi_qsd.Go.Table.{lookup, lookup-insert}
use csi_qsd.Qsd.Message.{Volume}
use csi_qsd.Client.Tree.{Printer, Drawing, keep, add_roots}
use csi_qsd.Client.Drawn.{Drawn}

-- The documentation of treeprint: a branch is added under the tree or under a branch.
pub record IsTree (P : Printer) : Type 0 where
  pub parent : P.Branch → Option P.Branch
  pub under_root :
      (name : Text) (v : Volume) (t : P.Tree) → parent (P.add_to_root name v t).0 ≡ none
  pub under_branch :
      (b : P.Branch) (name : Text) (v : Volume) (t : P.Tree)
      → parent (P.add_to_branch b name v t).0 ≡ some b

-- no name stands twice in the list
abbrev pub IsUnique : List Volume → Type 0
IsUnique [] = Unit
IsUnique (v ∷ vs) =
    ((w : Volume) → Memᴰ w vs → (w.volume_ref == v.volume_ref) ≡ false) × IsUnique vs

module _ (P : Printer) (T : IsTree P) where
  -- the branch of the volume stands under the tree, or under that of the backing image
  pub data Stands (d : Drawing P) (v : Volume) : Type 0 where
    at_tree :
        (c : P.Branch)
        → v.depth ≡ 0
        → lookup v.volume_ref d.branches ≡ some c
        → T.parent c ≡ none
        → Stands d v
    at_branch :
        (c b : P.Branch)
        → 1 ≤ v.depth
        → lookup v.volume_ref d.branches ≡ some c
        → lookup v.backing_image_id d.branches ≡ some b
        → T.parent c ≡ some b
        → Stands d v

  -- each volume of the list that is drawn stands
  abbrev pub IsNested : List Volume → Drawing P → Type 0
  IsNested vs d = (v : Volume) → Memᴰ v vs → Drawn P d v.volume_ref → Stands d v

  -- one more branch, of a name that is not there
  keep-Stands :
      (name : Text) (d : Drawing P) (new : P.Branch × P.Tree) (v : Volume)
      → lookup name d.branches ≡ none
      → Stands d v
      → Stands (keep P name d.branches new) v
  keep-Stands name d new v fresh (at_tree c flat here up) =
      at_tree c flat
        (ground (
          arith,
          fresh,
          here,
          lookup-insert name v.volume_ref new.0 d.branches,
          eq_iff name v.volume_ref,
        ))
        up
  keep-Stands name d new v fresh (at_branch c b deep here below up) =
      at_branch c b deep
        (ground (
          arith,
          fresh,
          here,
          lookup-insert name v.volume_ref new.0 d.branches,
          eq_iff name v.volume_ref,
        ))
        (ground (
          arith,
          fresh,
          below,
          lookup-insert name v.backing_image_id new.0 d.branches,
          eq_iff name v.backing_image_id,
        ))
        up

  unique_same :
      (vs : List Volume) (v w : Volume)
      → IsUnique vs
      → Memᴰ v vs
      → Memᴰ w vs
      → (w.volume_ref == v.volume_ref) ≡ true
      → v ≡ w
  unique_same [] v w unique m n same = elim m [ ]
  unique_same (x ∷ xs) v w unique (Memᴰ.head e) (Memᴰ.head f) same = cc (e, f)
  unique_same (x ∷ xs) v w unique (Memᴰ.head e) (Memᴰ.tail n) same =
      absurd (ground (arith, unique.0 w n, ap (λ (u : Volume). u.volume_ref) e, same))
  unique_same (x ∷ xs) v w unique (Memᴰ.tail m) (Memᴰ.head f) same = absurd (
      ground (
        arith,
        unique.0 v m,
        ap (λ (u : Volume). u.volume_ref) f,
        eq_iff v.volume_ref x.volume_ref,
        eq_iff w.volume_ref v.volume_ref,
        same,
      ))
  unique_same (x ∷ xs) v w unique (Memᴰ.tail m) (Memᴰ.tail n) same =
      unique_same xs v w unique.1 m n same

  module _ (all : List Volume) (unique : IsUnique all) where
    -- one more volume that stands
    pub added-Nested :
        (x : Volume) (d : Drawing P) (new : P.Branch × P.Tree)
        → Memᴰ x all
        → lookup x.volume_ref d.branches ≡ none
        → IsNested all d
        → Stands (keep P x.volume_ref d.branches new) x
        → IsNested all (keep P x.volume_ref d.branches new)
    added-Nested x d new m fresh nested stands v n drawn =
        elim (Bool-cases (x.volume_ref == v.volume_ref)) [
          | inl same ↦
              subst (Stands (keep P x.volume_ref d.branches new))
                (sym (unique_same all v x unique n m same)) stands
          | inr other ↦ keep-Stands x.volume_ref d new v fresh (
              nested v n (λ lost. drawn (
                ground
                  (arith, other, lost, lookup-insert x.volume_ref v.volume_ref new.0 d.branches))))
        ]

    pub add_roots-Nested :
        (vs : List Volume) (d : Drawing P)
        → ((w : Volume) → Memᴰ w vs → Memᴰ w all)
        → IsUnique vs
        → ((w : Volume) → Memᴰ w vs → lookup w.volume_ref d.branches ≡ none)
        → IsNested all d
        → IsNested all (add_roots P vs d)
    unfolding add_roots
    add_roots-Nested [] d within once fresh nested = nested
    add_roots-Nested (x ∷ xs) d within once fresh nested = elim (Bool-cases (ltb 0 x.depth)) [
      | inl deep ↦ rw deep nested
      | inr flat ↦
          let new = P.add_to_root x.volume_ref x d.tree in
          let here = fresh x (Memᴰ.head refl) in
          rw flat (
            add_roots-Nested xs (keep P x.volume_ref d.branches new) (λ w m. within w (Memᴰ.tail m))
              once.1
              (λ w m. ground (
                arith,
                fresh w (Memᴰ.tail m),
                once.0 w m,
                eq_iff x.volume_ref w.volume_ref,
                eq_iff w.volume_ref x.volume_ref,
                lookup-insert x.volume_ref w.volume_ref new.0 d.branches,
              ))
              (added-Nested x d new (within x (Memᴰ.head refl)) here nested (
                at_tree new.0 (ground arith)
                  (ground (
                    arith,
                    lookup-insert x.volume_ref x.volume_ref new.0 d.branches,
                    ==_refl x.volume_ref,
                  ))
                  (T.under_root x.volume_ref x d.tree))))
    ]

    -- the first loop draws no volume of a depth
    pub add_roots_fresh :
        (vs : List Volume) (d : Drawing P) (w : Volume)
        → ((v : Volume) → Memᴰ v vs → Memᴰ v all)
        → Memᴰ w all
        → 1 ≤ w.depth
        → lookup w.volume_ref d.branches ≡ none
        → lookup w.volume_ref (add_roots P vs d).branches ≡ none
    unfolding add_roots
    add_roots_fresh [] d w within m deep fresh = fresh
    add_roots_fresh (x ∷ xs) d w within m deep fresh = elim (Bool-cases (ltb 0 x.depth)) [
      | inl below ↦ rw below fresh
      | inr flat ↦
          let new = P.add_to_root x.volume_ref x d.tree in
          rw flat (
            add_roots_fresh xs (keep P x.volume_ref d.branches new) w
              (λ v n. within v (Memᴰ.tail n)) m deep
              (elim (Bool-cases (x.volume_ref == w.volume_ref)) [
                | inl same ↦ absurd (
                    ground (
                      arith,
                      flat,
                      deep,
                      ap (λ (u : Volume). u.depth)
                          (unique_same all w x unique m (within x (Memᴰ.head refl)) same),
                    ))
                | inr other ↦
                    ground (
                      arith,
                      other,
                      fresh,
                      lookup-insert x.volume_ref w.volume_ref new.0 d.branches,
                    )
              ]))
    ]
