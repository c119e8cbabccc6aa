-- ===== src/Client/Tree.antt =====
-- printTree of cmd/qsd-client/cmd/list.go, over any tree printer.
use csi_qsd.Base.{Bool, none, some, List, [], ◌∷◌, ltb, if◌then◌else◌}
use csi_qsd.Go.Text.{Text}
use csi_qsd.Go.Table.{Table, lookup, insert}
use csi_qsd.Qsd.Message.{Volume, ResponseListVolumes}

-- ByDepth.Less on two volumes
unfoldable pub less : Volume → Volume → Bool
less a b = ltb a.depth b.depth

-- github.com/xlab/treeprint: a tree that branches are added to, and its print; and sort.Sort by
-- depth.
pub record Printer : Type 1 where
  pub Tree : Type 0
  pub Branch : Type 0
  pub new : Tree
  pub add_to_root : Text → Volume → Tree → Branch × Tree
  pub add_to_branch : Branch → Text → Volume → Tree → Branch × Tree
  pub print : Tree → Text
  pub sort : List Volume → List Volume

module _ (P : Printer) where
  open P use {Tree, Branch}

  -- the variables `branches` and `tree`
  pub record Drawing : Type 0 where
    pub branches : Table Branch
    pub tree : Tree

  abbrev pub keep : Text → Table Branch → Branch × Tree → Drawing
  keep ref branches (b, tree) = record { branches = insert ref b branches; tree = tree }

  -- the first loop, up to its break
  unfoldable pub add_roots : List Volume → Drawing → Drawing
  add_roots [] d = d
  add_roots (v ∷ vs) d =
      let rest =
        add_roots vs (keep v.volume_ref d.branches (P.add_to_root v.volume_ref v d.tree)) in
      if ltb 0 v.depth then d else rest

  -- the body of the second loop
  unfoldable pub add_child : Volume → Drawing → Drawing
  add_child v d = if ltb v.depth 1 then d else elim (lookup v.backing_image_id d.branches) [
    | none ↦ d
    | some b ↦ keep v.volume_ref d.branches (P.add_to_branch b v.volume_ref v d.tree)
  ]

  unfoldable pub add_children : List Volume → Drawing → Drawing
  unfolding add_child
  add_children [] d = d
  add_children (v ∷ vs) d = add_children vs (add_child v d)

  -- the drawing that printTree makes of sorted images, and its print
  unfoldable pub draw : List Volume → Drawing
  unfolding add_roots add_children
  draw sorted = add_children sorted (add_roots sorted (record { branches = []; tree = P.new }))

  unfoldable pub print_tree : ResponseListVolumes → Text
  unfolding draw
  print_tree r = P.print (draw (P.sort r.volumes)).tree
