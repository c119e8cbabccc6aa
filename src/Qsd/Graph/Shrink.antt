-- ===== src/Qsd/Graph/Shrink.antt =====
-- Clearing a volume reference, and dropping an image that nothing stands on, keep the forest one.
use csi_qsd.Base.{◌≡◌, ◌≢◌, true, some, arith, refl}
use csi_qsd.Go.Text.{Text, text, eq_iff, ==_refl}
use csi_qsd.Go.Number.{decrement, is_below_one}
use csi_qsd.Go.Table.{
  Table, lookup, insert, delete, lookup-insert, lookup-delete, insert-Distinct, delete-Distinct,
  length-insert_present, length-delete,
}
use csi_qsd.Qsd.Server.State.{QcowImage}
use csi_qsd.Qsd.Graph.Children.{children-insert, children-delete, children-le-length, children_pos}
use csi_qsd.Qsd.Graph.Invariant.{IsForest, unreferenced}

module _ (m : Table QcowImage) (F : IsForest m) where
  module _ (id : Text) (v : QcowImage) (h : lookup id m ≡ some v) where
    pub forget-IsForest : IsForest (insert id (record v { volume_ref = text "" }) m)
    forget-IsForest = record {
      distinct = insert-Distinct id _ m F.distinct;
      named = ground (
        arith,
        lookup-insert id (text "") (record v { volume_ref = text "" }) m,
        F.named,
        eq_iff id (text ""),
      );
      layered = λ k w p. ground (
        arith,
        lookup-insert id k (record v { volume_ref = text "" }) m,
        lookup-insert id (v.backing_image_id) (record v { volume_ref = text "" }) m,
        lookup-insert id (w.backing_image_id) (record v { volume_ref = text "" }) m,
        eq_iff id k,
        eq_iff id (v.backing_image_id),
        eq_iff id (w.backing_image_id),
        F.layered id v h,
        F.layered k w,
      );
      counted = λ k w p. ground (
        arith,
        lookup-insert id k (record v { volume_ref = text "" }) m,
        eq_iff id k,
        children-insert k id (record v { volume_ref = text "" }) m,
        F.counted id v h,
        F.counted k w,
      );
      owned = λ k w p. ground (
        arith,
        lookup-insert id k (record v { volume_ref = text "" }) m,
        eq_iff id k,
        F.owned k w,
        ==_refl (text ""),
      );
      small =
          omega
            (arith, length-insert_present id (record v { volume_ref = text "" }) v m h, F.small);
    }

  module _ (id : Text) (v : QcowImage) (h : lookup id m ≡ some v)
      (free : is_below_one v.ref_count ≡ true) where
    pub drop_root-IsForest : v.backing_image_id ≡ text "" → IsForest (delete id m)
    drop_root-IsForest root = record {
      distinct = delete-Distinct id m F.distinct;
      named = ground (arith, lookup-delete id (text "") m, F.named);
      layered = λ k w p. ground (
        arith,
        lookup-delete id k m,
        lookup-delete id (w.backing_image_id) m,
        unreferenced m F id v h free,
        children_pos id k w m,
        eq_iff id (w.backing_image_id),
        F.layered k w,
      );
      counted = λ k w p. ground (
        arith,
        lookup-delete id k m,
        children-delete k id m F.distinct,
        eq_iff (text "") k,
        F.counted k w,
        F.named,
      );
      owned = λ k w p. ground (arith, lookup-delete id k m, F.owned k w);
      small = omega (arith, length-delete id m, F.small);
    }

    module _ (child : v.backing_image_id ≢ text "") (b : QcowImage)
        (found : lookup v.backing_image_id m ≡ some b) where
      abbrev pub lowered : QcowImage
      lowered = record b { ref_count = decrement b.ref_count }

      pub drop_child-IsForest : IsForest (delete id (insert v.backing_image_id lowered m))
      unfolding decrement
      drop_child-IsForest = record {
        distinct = delete-Distinct id _ (insert-Distinct v.backing_image_id lowered m F.distinct);
        named = ground (
          arith,
          lookup-delete id (text "") (insert v.backing_image_id lowered m),
          lookup-insert v.backing_image_id (text "") lowered m,
          eq_iff v.backing_image_id (text ""),
          F.named,
        );
        layered = λ k w p. ground (
          arith,
          lookup-delete id k (insert v.backing_image_id lowered m),
          lookup-delete id (w.backing_image_id) (insert v.backing_image_id lowered m),
          lookup-insert v.backing_image_id k lowered m,
          lookup-insert v.backing_image_id (w.backing_image_id) lowered m,
          unreferenced m F id v h free,
          children_pos id k w m,
          children_pos id v.backing_image_id b m,
          eq_iff id (w.backing_image_id),
          eq_iff v.backing_image_id k,
          eq_iff v.backing_image_id (w.backing_image_id),
          F.layered v.backing_image_id b found,
          F.layered k w,
        );
        counted = λ k w p. ground (
          arith,
          lookup-delete id k (insert v.backing_image_id lowered m),
          lookup-insert v.backing_image_id k lowered m,
          lookup-insert v.backing_image_id id lowered m,
          children-delete k id (insert v.backing_image_id lowered m)
              (insert-Distinct v.backing_image_id lowered m F.distinct),
          children-insert k v.backing_image_id lowered m,
          children_pos v.backing_image_id id v m h refl,
          children-le-length v.backing_image_id m,
          F.small,
          eq_iff v.backing_image_id k,
          eq_iff v.backing_image_id id,
          F.counted k w,
          F.counted v.backing_image_id b found,
        );
        owned = λ k w p. ground (
          arith,
          lookup-delete id k (insert v.backing_image_id lowered m),
          lookup-insert v.backing_image_id k lowered m,
          eq_iff v.backing_image_id k,
          F.owned k w,
          F.owned v.backing_image_id b found,
        );
        small = omega (
          arith,
          length-delete id (insert v.backing_image_id lowered m),
          length-insert_present v.backing_image_id lowered b m found,
          F.small,
        );
      }
