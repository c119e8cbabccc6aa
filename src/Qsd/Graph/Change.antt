-- ===== src/Qsd/Graph/Change.antt =====
-- The changes of the table of images that the server may make, one at a time and in a row.
use csi_qsd.Base.{◌+◌, ◌^◌, ◌<◌, ◌≡◌, ◌≢◌, true, none, some, length}
use csi_qsd.Go.Text.{Text, text}
use csi_qsd.Go.Number.{increment, decrement, is_below_one}
use csi_qsd.Go.Table.{Table, lookup, insert, delete}
use csi_qsd.Qsd.Server.State.{QcowImage}

-- The changes of the table that the server may make.
pub data Change (m n : Table QcowImage) : Type 0 where
  add_root :
      (id : Text) (v : QcowImage)
      → lookup id m ≡ none
      → id ≢ text ""
      → length m + 1 < 2 ^ 31
      → v.backing_image_id ≡ text ""
      → v.ref_count ≡ 0
      → v.depth ≡ 0
      → v.volume_ref ≡ id
      → n ≡ insert id v m
      → Change m n
  add_child :
      (id : Text) (v : QcowImage) (base : Text) (b : QcowImage)
      → lookup id m ≡ none
      → id ≢ text ""
      → length m + 1 < 2 ^ 31
      → lookup base m ≡ some b
      → v.backing_image_id ≡ base
      → v.ref_count ≡ 0
      → v.depth ≡ increment b.depth
      → v.volume_ref ≡ id
      → n ≡ insert id v (insert base (record b { ref_count = increment b.ref_count }) m)
      → Change m n
  forget :
      (id : Text) (v : QcowImage)
      → lookup id m ≡ some v
      → n ≡ insert id (record v { volume_ref = text "" }) m
      → Change m n
  drop_root :
      (id : Text) (v : QcowImage)
      → lookup id m ≡ some v
      → is_below_one v.ref_count ≡ true
      → v.backing_image_id ≡ text ""
      → n ≡ delete id m
      → Change m n
  drop_child :
      (id : Text) (v b : QcowImage)
      → lookup id m ≡ some v
      → is_below_one v.ref_count ≡ true
      → v.backing_image_id ≢ text ""
      → lookup v.backing_image_id m ≡ some b
      → n ≡ delete id (insert v.backing_image_id (record b { ref_count = decrement b.ref_count }) m)
      → Change m n

pub data Changes (m : Table QcowImage) : Table QcowImage → Type 0 where
  stay : Changes m m
  step : {n o : Table QcowImage} → Changes m n → Change n o → Changes m o

pub one : {m n : Table QcowImage} → Change m n → Changes m n
one c = step stay c

pub chain : {m n o : Table QcowImage} → Changes m n → Changes n o → Changes m o
chain c stay = c
chain c (step d e) = step (chain c d) e
