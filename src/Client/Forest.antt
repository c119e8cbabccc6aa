-- ===== src/Client/Forest.antt =====
-- printTree on what ListVolumes returns: the client in front of the server of pkg/qsd.
use mathlib.Core.List.{Memᴰ, Permᴰ}
use mathlib.Core.List.Memᴰ
use mathlib.Core.List.Permᴰ
use csi_qsd.Base.{
  ◌≡◌, refl, sym, ◌∙◌, ap, some, List, [], ◌∷◌, arith, ltb, Bool-cases, inl, inr, map,
}
use csi_qsd.Go.Text.{Text, ◌==◌, eq_iff, ==_refl}
use csi_qsd.Go.Table.{Table, lookup, Distinct}
use csi_qsd.Qsd.Message.{Volume}
use csi_qsd.Qsd.Server.State.{QcowImage, Server}
use csi_qsd.Qsd.Server.Export.{volume_of, handle_list_volumes}
use csi_qsd.Qsd.Graph.Invariant.{IsForest}
use csi_qsd.Qsd.Graph.Bounds.{backing_above}
use csi_qsd.Client.Tree.{Printer, draw}
use csi_qsd.Client.Drawn.{IsSorted, Placed, at_root, above, Drawn, draw-Drawn}

-- a permutation keeps the members
pub member_moved {ℓ} : {A : Type ℓ} {a : A} {l m : List A} → Permᴰ l m → Memᴰ a l → Memᴰ a m
member_moved Permᴰ.nil m = elim m [ ]
member_moved (Permᴰ.cons e p) (Memᴰ.head h) = Memᴰ.head (h ∙ e)
member_moved (Permᴰ.cons e p) (Memᴰ.tail m) = Memᴰ.tail (member_moved p m)
member_moved (Permᴰ.swap e f) (Memᴰ.head h) = Memᴰ.tail (Memᴰ.head (h ∙ e))
member_moved (Permᴰ.swap e f) (Memᴰ.tail (Memᴰ.head h)) = Memᴰ.head (h ∙ f)
member_moved (Permᴰ.swap e f) (Memᴰ.tail (Memᴰ.tail m)) = Memᴰ.tail (Memᴰ.tail m)
member_moved (Permᴰ.trans p q) m = member_moved q (member_moved p m)

-- the entries of a table are its keys with what `lookup` finds
pub found-member :
    (k : Text) (v : QcowImage) (m : Table QcowImage) → lookup k m ≡ some v → Memᴰ (k, v) m
unfolding lookup
found-member k v [] h = absurd (ground arith)
found-member k v ((j, w) ∷ m) h = elim (Bool-cases (j == k)) [
  | inl here ↦ Memᴰ.head (ground (arith, eq_iff j k))
  | inr there ↦ Memᴰ.tail (found-member k v m (ground arith))
]

pub member-found :
    (k : Text) (v : QcowImage) (m : Table QcowImage)
    → Distinct m
    → Memᴰ (k, v) m
    → lookup k m ≡ some v
unfolding lookup
member-found k v [] d h = elim h [ ]
member-found k v ((j, w) ∷ m) d (Memᴰ.head e) =
    ground
      (arith, ap (λ (x : Text × QcowImage). x.0) e, ap (λ (x : Text × QcowImage). x.1) e, ==_refl j)
member-found k v ((j, w) ∷ m) d (Memᴰ.tail n) =
    ground (arith, eq_iff j k, member-found k v m d.1 n, d.0)

module _ (m : Table QcowImage) (F : IsForest m) where
  module _ (vs : List Volume)
      (listed : (k : Text) (v : QcowImage) → lookup k m ≡ some v → Memᴰ (volume_of (k, v)) vs) where
    image-Placed : (k : Text) (v : QcowImage) → lookup k m ≡ some v → Placed vs (volume_of (k, v))
    unfolding volume_of
    image-Placed k v h = elim (Bool-cases (ltb 0 v.depth)) [
      | inr flat ↦ at_root (ground arith)
      | inl deep ↦
          let (b, found, up) = backing_above m F k v h (ground arith) in
          above (volume_of (v.backing_image_id, b)) (listed v.backing_image_id b found) refl
            (omega (arith, up))
    ]

module _ (P : Printer) (order : Table QcowImage → Table QcowImage) where
  -- Every image of a forest has a branch of its name in the tree that printTree draws of the answer
  -- of ListVolumes, if `range` visits each entry of the map once and sort.Sort sorts the list.
  pub draw-list_volumes :
      (s : Server)
      → IsForest s.images
      → Permᴰ s.images (order s.images)
      → Permᴰ (handle_list_volumes order s).volumes (P.sort (handle_list_volumes order s).volumes)
      → IsSorted (P.sort (handle_list_volumes order s).volumes)
      → (k : Text) (v : QcowImage) → lookup k s.images ≡ some v
      → Drawn P (draw P (P.sort (handle_list_volumes order s).volumes)) k
  unfolding handle_list_volumes volume_of
  draw-list_volumes s F ranged permuted sorted k v h =
      draw-Drawn P vs (volume_of (k, v)) sorted placed (listed k v h)
    where
      vs : List Volume
      vs = P.sort (map volume_of (order s.images))

      listed : (j : Text) (w : QcowImage) → lookup j s.images ≡ some w → Memᴰ (volume_of (j, w)) vs
      listed j w found =
          member_moved permuted
            (Memᴰ.map volume_of (member_moved ranged (found-member j w s.images found)))

      placed : (w : Volume) → Memᴰ w vs → Placed vs w
      placed w n =
          let ((j, i), entry, same) =
            Memᴰ.of_map volume_of (order s.images) (member_moved (Permᴰ.symm permuted) n) in
          let found =
            member-found j i s.images F.distinct (member_moved (Permᴰ.symm ranged) entry) in
          rw (sym same) (image-Placed s.images F vs listed j i found)
