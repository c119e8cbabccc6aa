-- ===== src/Qsd/Server/Names.antt =====
-- generateQSDID: which names it takes, and what it makes of them.
use csi_qsd.Base.{ℕ, ◌≡◌, refl, false, none, some, ◌++◌, arith, ltb, if◌then◌else◌, length}
use Prim.Native.Nat.{min}
use csi_qsd.Go.Text.{
  Text, text, contains, trim_prefix, take, slice_to-take, trim_prefix-append, contains-append,
  length-append, length-slice_to,
}
use csi_qsd.Qsd.Server.State.{generate_qsd_id}

length-pvc : length (text "pvc-") ≡ 4
unfolding text
length-pvc = refl

length-snapshot : length (text "snapshot-") ≡ 9
unfolding text
length-snapshot = refl

-- Of a name "pvc-" and a rest the id is the first 8 bytes of the rest; the call panics exactly
-- where the rest is shorter.
pub generate_qsd_id-pvc :
    (rest : Text)
    → generate_qsd_id (text "pvc-" ++ rest)
      ≡ (if ltb (length rest) 8 then none else some (take 8 rest))
unfolding generate_qsd_id
generate_qsd_id-pvc rest = ground (
  arith,
  contains-append (text "pvc-") rest,
  trim_prefix-append (text "pvc-") rest,
  length-append (text "pvc-") rest,
  length-pvc,
  slice_to-take 8 rest,
  slice_to-take (length (text "pvc-" ++ rest)) rest,
)

-- A name with neither mark in it is cut to its first 8 bytes, and no name of this kind panics.
pub generate_qsd_id-plain :
    (id : Text)
    → contains id (text "pvc-") ≡ false
    → contains id (text "snapshot-") ≡ false
    → generate_qsd_id id ≡ some (take (min 8 (length id)) id)
unfolding generate_qsd_id
generate_qsd_id-plain id p q =
    ground (arith, p, q, slice_to-take 8 id, slice_to-take (length id) id)

-- An id has 8 bytes, or as many as the name if that has fewer.
pub length-generate_qsd_id :
    (id q : Text) → generate_qsd_id id ≡ some q → length q ≡ min 8 (length id)
unfolding generate_qsd_id
length-generate_qsd_id id q h =
    let n : ℕ = if ltb (length id) 8 then length id else 8 in
    ground (
      arith,
      length-slice_to n id q,
      length-slice_to n (trim_prefix id (text "pvc-")) q,
      length-slice_to n (trim_prefix id (text "snapshot-")) q,
    )
