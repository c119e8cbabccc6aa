-- ===== src/Qsd/Commands/Units.antt =====
-- What parseSizeToByteString makes of a number and a unit.
use csi_qsd.Base.{ℕ, suc, ◌-◌, ◌*◌, ◌^◌, ◌<◌, ◌≤◌, ◌≡◌, refl, [], ◌∷◌, ◌++◌, arith, length}
use csi_qsd.Go.Text.{Text, text, ◌==◌, drop, length-append}
use csi_qsd.Go.Number.{pos, format_int}
use csi_qsd.Go.Exec.{ok}
use csi_qsd.Qsd.Commands.Size.{
  mb, gb, keep_bytes, is_digit, is_no_space, decimal, parse_size_to_byte_string,
}

abbrev pub IsDecimal : Text → Type 0
IsDecimal [] = Unit
IsDecimal (c ∷ s) = (b'0' ≤ c) × (c ≤ b'9') × IsDecimal s

no_spaces :
    (s t : Text) → IsDecimal s → keep_bytes is_no_space (s ++ t) ≡ s ++ keep_bytes is_no_space t
unfolding keep_bytes
no_spaces [] t d = refl
no_spaces (c ∷ s) t d = ground (arith, no_spaces s t)

only_digits : (s t : Text) → IsDecimal s → keep_bytes is_digit (s ++ t) ≡ s ++ keep_bytes is_digit t
unfolding keep_bytes
only_digits [] t d = refl
only_digits (c ∷ s) t d = ground (arith, only_digits s t)

append_empty : (s : Text) → s ++ [] ≡ s
append_empty [] = refl
append_empty (c ∷ s) = ground (arith, append_empty s)

drop-suffix : (s t : Text) → drop (length (s ++ t) - length t) (s ++ t) ≡ t
unfolding drop
drop-suffix [] t = rw (from_start (length t)) refl
  where
    from_start : (n : ℕ) → n - n ≡ 0
    from_start n = omega arith
drop-suffix (c ∷ s) t = rw (one_more) (drop-suffix s t)
  where
    one_more : suc (length (s ++ t)) - length t ≡ suc (length (s ++ t) - length t)
    one_more = omega (arith, length-append s t)

pub data SizeUnit : Type 0 where
  megabytes gigabytes : SizeUnit

abbrev pub name_of : SizeUnit → Text
name_of megabytes = text "MB"
name_of gigabytes = text "GB"

abbrev pub bytes_of : SizeUnit → ℕ
bytes_of megabytes = mb
bytes_of gigabytes = gb

-- A decimal number with at least one digit and the unit MB or GB stands for that many times
-- 1024 * 1024 or 1024 * 1024 * 1024 bytes, if an int64 holds the product.
pub parse_size_to_byte_string_lem :
    (unit : SizeUnit) (c : ℕ) (s : Text)
    → IsDecimal (c ∷ s)
    → decimal (c ∷ s) 0 * bytes_of unit < 2 ^ 63
    → parse_size_to_byte_string ((c ∷ s) ++ name_of unit)
      ≡ ok (format_int (pos (decimal (c ∷ s) 0 * bytes_of unit)))
unfolding parse_size_to_byte_string keep_bytes text ◌==◌
parse_size_to_byte_string_lem megabytes c s d fits =
    rw
      (
        no_spaces (c ∷ s) (text "MB") d,
        drop-suffix (c ∷ s) (text "MB"),
        only_digits (c ∷ s) (text "MB") d,
        append_empty s,
      )
      (ground (arith, length-append s (text "MB")))
parse_size_to_byte_string_lem gigabytes c s d fits =
    rw
      (
        no_spaces (c ∷ s) (text "GB") d,
        drop-suffix (c ∷ s) (text "GB"),
        only_digits (c ∷ s) (text "GB") d,
        append_empty s,
      )
      (ground (arith, length-append s (text "GB")))
