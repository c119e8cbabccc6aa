-- ===== src/Qsd/Graph/Grow.antt =====
-- A new image keeps the forest a forest.
use csi_qsd.Base.{◌+◌, ◌^◌, ◌<◌, ◌≡◌, ◌≢◌, none, some, arith, length}
use csi_qsd.Go.Text.{Text, text, eq_iff, ==_refl}
use csi_qsd.Go.Number.{increment}
use csi_qsd.Go.Table.{
  Table, lookup, insert, lookup-insert, insert-Distinct, length-insert, length-insert_present,
}
use csi_qsd.Qsd.Server.State.{QcowImage}
use csi_qsd.Qsd.Graph.Children.{children-insert, children-le-length}
use csi_qsd.Qsd.Graph.Invariant.{IsForest, childless}

module _ (m : Table QcowImage) (F : IsForest m) where
  module _ (id : Text) (v : QcowImage) (absent : lookup id m ≡ none) (proper : id ≢ text "")
      (room : length m + 1 < 2 ^ 31) (unused : v.ref_count ≡ 0) (own : v.volume_ref ≡ id) where
    pub add_root-IsForest : v.backing_image_id ≡ text "" → v.depth ≡ 0 → IsForest (insert id v m)
    add_root-IsForest root flat = record {
      distinct = insert-Distinct id v m F.distinct;
      named = ground (arith, lookup-insert id (text "") v m, F.named, eq_iff id (text ""));
      layered = λ k w p. ground (
        arith,
        lookup-insert id k v m,
        lookup-insert id (w.backing_image_id) v m,
        eq_iff id k,
        eq_iff id (w.backing_image_id),
        eq_iff (w.backing_image_id) (text ""),
        F.layered k w,
      );
      counted = λ k w p. ground (
        arith,
        lookup-insert id k v m,
        children-insert k id v m,
        childless m F id absent proper,
        eq_iff id k,
        eq_iff (text "") k,
        F.counted k w,
        F.named,
      );
      owned = λ k w p. ground (arith, lookup-insert id k v m, eq_iff id k, F.owned k w, ==_refl id);
      small = omega (arith, length-insert id v m, room);
    }

    module _ (base : Text) (b : QcowImage) (found : lookup base m ≡ some b)
        (stands : v.backing_image_id ≡ base) where
      abbrev pub raised : QcowImage
      raised = record b { ref_count = increment b.ref_count }

      pub add_child-IsForest :
          v.depth ≡ increment b.depth → IsForest (insert id v (insert base raised m))
      unfolding increment
      add_child-IsForest deep = record {
        distinct = insert-Distinct id v _ (insert-Distinct base _ m F.distinct);
        named = ground (
          arith,
          lookup-insert id (text "") v (insert base raised m),
          lookup-insert base (text "") raised m,
          F.named,
          eq_iff id (text ""),
          eq_iff base (text ""),
        );
        layered = λ k w p. ground (
          arith,
          lookup-insert id k v (insert base raised m),
          lookup-insert base k raised m,
          lookup-insert id (w.backing_image_id) v (insert base raised m),
          lookup-insert base (w.backing_image_id) raised m,
          eq_iff id k,
          eq_iff base k,
          eq_iff id (w.backing_image_id),
          eq_iff base (w.backing_image_id),
          eq_iff base (text ""),
          eq_iff (w.backing_image_id) (text ""),
          F.named,
          F.layered base b found,
          F.layered k w,
        );
        counted = λ k w p. ground (
          arith,
          lookup-insert id k v (insert base raised m),
          lookup-insert base k raised m,
          lookup-insert base id raised m,
          children-insert k id v (insert base raised m),
          children-insert k base raised m,
          childless m F id absent proper,
          children-le-length k m,
          eq_iff id k,
          eq_iff base k,
          eq_iff base id,
          F.counted base b found,
          F.counted k w,
        );
        owned = λ k w p. ground (
          arith,
          lookup-insert id k v (insert base raised m),
          lookup-insert base k raised m,
          eq_iff id k,
          eq_iff base k,
          F.owned k w,
          F.owned base b found,
          ==_refl id,
        );
        small = omega (
          arith,
          length-insert id v (insert base raised m),
          length-insert_present base raised b m found,
          room,
        );
      }
