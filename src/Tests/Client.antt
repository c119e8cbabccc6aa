-- ===== src/Tests/Client.antt =====
-- The tree of a volume and its snapshot, on a printer that keeps the path of each branch.
use mathlib.Core.List.{Memᴰ, Permᴰ}
use csi_qsd.Base.{◌≡◌, refl, false, Option, none, some, List, [], ◌∷◌, ◌++◌, if◌then◌else◌}
use csi_qsd.Go.Text.{Text, text}
use csi_qsd.Go.Table.{Table}
use csi_qsd.Qsd.Message.{Volume}
use csi_qsd.Qsd.Server.State.{QcowImage}
use csi_qsd.Qsd.Server.Export.{volume_of, handle_list_volumes}
use csi_qsd.Client.Tree.{less, Printer, add_roots, add_child, add_children, draw}
use csi_qsd.Client.Drawn.{IsSorted}
use csi_qsd.Client.Nested.{IsTree, Stands}
use csi_qsd.Client.Standing.{draw-list_volumes-Stands}
use csi_qsd.Tests.Server.{program, layered, layered-IsForest, test0_image, snap0_image}

-- insertion into a list that is sorted by depth
place : Volume → List Volume → List Volume
unfolding less
place v [] = v ∷ []
place v (w ∷ ws) = let rest = place v ws in if less w v then w ∷ rest else v ∷ w ∷ ws

sorted : List Volume → List Volume
unfolding place
sorted [] = []
sorted (v ∷ vs) = place v (sorted vs)

-- a branch is the way to it
data Way : Type 0 where
  top : Text → Way
  below : Way → Text → Way

abbrev parent : Way → Option Way
parent (top ref) = none
parent (below b ref) = some b

abbrev paths : Printer
paths = record {
  Tree = List Way;
  Branch = Way;
  new = [];
  add_to_root = λ ref v t. (top ref, top ref ∷ t);
  add_to_branch = λ b ref v t. (below b ref, below b ref ∷ t);
  print = λ t. [];
  sort = sorted;
}

backwards : Table QcowImage → Table QcowImage
backwards [] = []
backwards (e ∷ es) = backwards es ++ (e ∷ [])

tools : Unit {0}
unfolding program less sorted backwards volume_of handle_list_volumes add_roots add_child
    add_children draw
tools = tt

abbrev listed : List Volume
listed = (handle_list_volumes backwards layered.server).volumes

pair-IsSorted : (v w : Volume) → less w v ≡ false → IsSorted (v ∷ w ∷ [])
pair-IsSorted v w h = (only, ((λ u m. elim m [ ]), tt))
  where
    only : (u : Volume) → Memᴰ u (w ∷ []) → less u v ≡ false
    only u (Memᴰ.head e) = rw e h
    only u (Memᴰ.tail m) = elim m [ ]

tree :
    (draw paths (sorted listed)).tree
    ≡ below (top (text "test0")) (text "snap0") ∷ top (text "test0") ∷ []
unfolding tools
tree = refl

abbrev paths_tree : IsTree paths
paths_tree = record {
  parent = parent;
  under_root = λ name v t. refl;
  under_branch = λ b name v t. refl;
}

draw-list_volumes-Stands_example :
    Stands paths paths_tree (draw paths (sorted listed)) (volume_of (text "snap0", snap0_image))
unfolding tools
draw-list_volumes-Stands_example =
    draw-list_volumes-Stands paths paths_tree backwards layered.server layered-IsForest
      (Permᴰ.swap refl refl) (Permᴰ.swap refl refl)
      (pair-IsSorted (volume_of (text "test0", test0_image)) (volume_of (text "snap0", snap0_image))
        refl)
      (text "snap0") snap0_image refl
