-- ===== src/Client/Standing.antt =====
-- The second loop of printTree, and where the branches of what ListVolumes returns stand.
use mathlib.Core.List.{Memᴰ, Permᴰ}
use mathlib.Core.List.Memᴰ
use mathlib.Core.List.Permᴰ
use mathlib.Core.Path.{subst}
use csi_qsd.Base.{
  ◌≤◌, ◌≡◌, refl, ap, false, true, none, some, List, [], ◌∷◌, arith, ltb, Option-cases, Bool-cases,
  inl, inr, map,
}
use csi_qsd.Go.Text.{Text, ◌==◌, ==_refl, eq_iff}
use csi_qsd.Go.Table.{Table, lookup, lookup-insert, Distinct}
use csi_qsd.Qsd.Message.{Volume}
use csi_qsd.Qsd.Server.State.{QcowImage, Server}
use csi_qsd.Qsd.Server.Export.{volume_of, handle_list_volumes}
use csi_qsd.Qsd.Graph.Invariant.{IsForest}
use csi_qsd.Client.Tree.{Printer, Drawing, keep, add_roots, add_child, add_children, draw}
use csi_qsd.Client.Drawn.{IsSorted, Drawn}
use csi_qsd.Client.Nested.{
  IsTree, IsUnique, Stands, at_branch, IsNested, added-Nested, add_roots-Nested, add_roots_fresh,
}
use csi_qsd.Client.Forest.{draw-list_volumes, member_moved, found-member, member-found}

module _ (P : Printer) (T : IsTree P) (all : List Volume) (unique : IsUnique all) where
  -- the rounds of the second loop
  add_child_flat : (x : Volume) (d : Drawing P) → ltb x.depth 1 ≡ true → d ≡ add_child P x d
  unfolding add_child
  add_child_flat x d flat = rw flat refl

  add_child_lost :
      (x : Volume) (d : Drawing P)
      → lookup x.backing_image_id d.branches ≡ none
      → d ≡ add_child P x d
  unfolding add_child
  add_child_lost x d lost = ground (arith, lost)

  add_child_found :
      (x : Volume) (d : Drawing P) (b : P.Branch)
      → ltb x.depth 1 ≡ false
      → lookup x.backing_image_id d.branches ≡ some b
      → keep P x.volume_ref d.branches (P.add_to_branch b x.volume_ref x d.tree) ≡ add_child P x d
  unfolding add_child
  add_child_found x d b deep found = rw (deep, found) refl

  add_children-Nested :
      (vs : List Volume) (d : Drawing P)
      → ((w : Volume) → Memᴰ w vs → Memᴰ w all)
      → IsUnique vs
      → ((w : Volume) → Memᴰ w vs → 1 ≤ w.depth → lookup w.volume_ref d.branches ≡ none)
      → IsNested P T all d
      → IsNested P T all (add_children P vs d)
  unfolding add_children
  add_children-Nested [] d within once fresh nested = nested
  add_children-Nested (x ∷ xs) d within once fresh nested =
      let rest = λ (w : Volume) (m : Memᴰ w xs). within w (Memᴰ.tail m) in
      let skipped = add_children-Nested xs d rest once.1 (λ w m. fresh w (Memᴰ.tail m)) nested in
      elim (Bool-cases (ltb x.depth 1)) [
        | inl flat ↦
            subst (λ e. IsNested P T all (add_children P xs e)) (add_child_flat x d flat) skipped
        | inr deep ↦ elim (Option-cases (lookup x.backing_image_id d.branches)) [
          | inl lost ↦
              subst (λ e. IsNested P T all (add_children P xs e)) (add_child_lost x d lost) skipped
          | inr (b, found) ↦
              let new = P.add_to_branch b x.volume_ref x d.tree in
              let here = fresh x (Memᴰ.head refl) (ground arith) in
              subst (λ e. IsNested P T all (add_children P xs e)) (add_child_found x d b deep found)
                (add_children-Nested xs (keep P x.volume_ref d.branches new) rest once.1
                  (λ w m below. ground (
                    arith,
                    fresh w (Memᴰ.tail m),
                    below,
                    once.0 w m,
                    eq_iff x.volume_ref w.volume_ref,
                    eq_iff w.volume_ref x.volume_ref,
                    lookup-insert x.volume_ref w.volume_ref new.0 d.branches,
                  ))
                  (added-Nested P T all unique x d new (within x (Memᴰ.head refl)) here nested (
                    at_branch new.0 b (ground arith)
                      (ground (
                        arith,
                        lookup-insert x.volume_ref x.volume_ref new.0 d.branches,
                        ==_refl x.volume_ref,
                      ))
                      (ground (
                        arith,
                        here,
                        found,
                        eq_iff x.volume_ref x.backing_image_id,
                        lookup-insert x.volume_ref x.backing_image_id new.0 d.branches,
                      ))
                      (T.under_branch b x.volume_ref x d.tree))))
        ]
      ]

  -- Of a list in which no name stands twice, every volume that is drawn stands.
  pub draw-Stands :
      (v : Volume) → Memᴰ v all → Drawn P (draw P all) v.volume_ref → Stands P T (draw P all) v
  unfolding draw lookup
  draw-Stands =
      let blank : Drawing P = record { branches = []; tree = P.new } in
      let self = λ (w : Volume) (m : Memᴰ w all). m in
      add_children-Nested all (add_roots P all blank) self unique
        (λ w m deep. add_roots_fresh P T all unique all blank w self m deep refl)
        (add_roots-Nested P T all unique all blank self unique (λ w m. refl)
          (λ v m drawn. absurd (drawn refl)))

swapped-IsUnique :
    (a b c d : Volume) (l : List Volume)
    → a ≡ d
    → b ≡ c
    → IsUnique (a ∷ b ∷ l)
    → IsUnique (c ∷ d ∷ l)
swapped-IsUnique a b c d l e f u =
    let ref = λ (x : Volume). x.volume_ref in
    let apart = u.0 b (Memᴰ.head refl) in
    (
      λ w n. elim (Memᴰ.cases_cons n) [
        | inl first ↦ ground (
          arith,
          apart,
          ap ref first,
          ap ref e,
          ap ref f,
          eq_iff a.volume_ref b.volume_ref,
          eq_iff b.volume_ref a.volume_ref,
        )
        | inr m ↦ ground (arith, u.1.0 w m, ap ref f)
      ],
      ((λ w n. ground (arith, u.0 w (Memᴰ.tail n), ap ref e)), u.1.1),
    )

-- a permutation keeps the names apart
moved-IsUnique : {l m : List Volume} → Permᴰ l m → IsUnique l → IsUnique m
moved-IsUnique Permᴰ.nil u = u
moved-IsUnique (Permᴰ.cons e p) u = (
  λ w n. ground (arith, u.0 w (member_moved (Permᴰ.symm p) n), ap (λ (x : Volume). x.volume_ref) e),
  moved-IsUnique p u.1,
)
moved-IsUnique (Permᴰ.swap e f) u = swapped-IsUnique _ _ _ _ _ e f u
moved-IsUnique (Permᴰ.trans p q) u = moved-IsUnique q (moved-IsUnique p u)

listed-IsUnique : (m : Table QcowImage) → Distinct m → IsUnique (map volume_of m)
unfolding volume_of
listed-IsUnique [] d = tt
listed-IsUnique ((k, v) ∷ m) d = (
  λ w n.
      let ((j, i), entry, same) = Memᴰ.of_map volume_of m n in
      elim (Bool-cases (w.volume_ref == k)) [
        | inr other ↦ other
        | inl twin ↦ absurd (
            ground (
              arith,
              d.0,
              twin,
              eq_iff w.volume_ref k,
              ap (λ (x : Volume). x.volume_ref) same,
              member-found j i m d.1 entry,
            ))
      ],
  listed-IsUnique m d.1,
)

module _ (P : Printer) (T : IsTree P) (order : Table QcowImage → Table QcowImage) where
  -- In the tree that printTree draws of the answer of ListVolumes every image of a forest has a
  -- branch, at depth 0 under the tree itself, else under the branch of its backing image, if `range`
  -- visits each entry of the map once, sort.Sort sorts the list, and treeprint adds each branch
  -- where it is told to.
  pub draw-list_volumes-Stands :
      (s : Server)
      → IsForest s.images
      → Permᴰ s.images (order s.images)
      → Permᴰ (handle_list_volumes order s).volumes (P.sort (handle_list_volumes order s).volumes)
      → IsSorted (P.sort (handle_list_volumes order s).volumes)
      → (k : Text) (v : QcowImage) → lookup k s.images ≡ some v
      → Stands P T (draw P (P.sort (handle_list_volumes order s).volumes)) (volume_of (k, v))
  unfolding handle_list_volumes volume_of
  draw-list_volumes-Stands s F ranged permuted sorted k v h =
      let listed = Permᴰ.map volume_of ranged in
      draw-Stands P T (P.sort (handle_list_volumes order s).volumes)
        (moved-IsUnique permuted (moved-IsUnique listed (listed-IsUnique s.images F.distinct)))
        (volume_of (k, v))
        (member_moved permuted
          (member_moved listed (Memᴰ.map volume_of (found-member k v s.images h))))
        (draw-list_volumes P order s F ranged permuted sorted k v h)
