-- ===== src/Qsd/Graph/Preserve.antt =====
-- Every change keeps the forest.
use csi_qsd.Base.{sym}
use mathlib.Core.Path.{subst}
use csi_qsd.Go.Table.{Table}
use csi_qsd.Qsd.Server.State.{QcowImage}
use csi_qsd.Qsd.Graph.Invariant.{IsForest}
use csi_qsd.Qsd.Graph.Change.{
  Change, add_root, add_child, forget, drop_root, drop_child, Changes, stay, step,
}
use csi_qsd.Qsd.Graph.Grow.{add_root-IsForest, add_child-IsForest}
use csi_qsd.Qsd.Graph.Shrink.{forget-IsForest, drop_root-IsForest, drop_child-IsForest}

pub Change-IsForest : {m n : Table QcowImage} → IsForest m → Change m n → IsForest n
Change-IsForest {m} F (add_root id v absent proper room root unused flat own e) =
    subst IsForest (sym e) (add_root-IsForest m F id v absent proper room unused own root flat)
Change-IsForest {m} F (add_child id v base b absent proper room found stands unused deep own e) =
    subst IsForest (sym e)
      (add_child-IsForest m F id v absent proper room unused own base b found stands deep)
Change-IsForest {m} F (forget id v h e) = subst IsForest (sym e) (forget-IsForest m F id v h)
Change-IsForest {m} F (drop_root id v h free root e) =
    subst IsForest (sym e) (drop_root-IsForest m F id v h free root)
Change-IsForest {m} F (drop_child id v b h free child found e) =
    subst IsForest (sym e) (drop_child-IsForest m F id v h free child b found)

pub Changes-IsForest : {m n : Table QcowImage} → IsForest m → Changes m n → IsForest n
Changes-IsForest F stay = F
Changes-IsForest F (step c d) = Change-IsForest (Changes-IsForest F c) d
