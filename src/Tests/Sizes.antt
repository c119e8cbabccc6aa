-- ===== src/Tests/Sizes.antt =====
-- Sizes with a unit.
use csi_qsd.Base.{◌≡◌, [], ◌∷◌, ◌++◌, arith}
use csi_qsd.Go.Number.{pos, format_int}
use csi_qsd.Go.Exec.{ok}
use csi_qsd.Qsd.Commands.Size.{decimal, parse_size_to_byte_string}
use csi_qsd.Qsd.Commands.Units.{name_of, megabytes, parse_size_to_byte_string_lem}

parse_size_to_byte_string_lem_example :
    parse_size_to_byte_string ((b'3' ∷ b'0' ∷ b'0' ∷ []) ++ name_of megabytes)
    ≡ ok (format_int (pos 314572800))
unfolding decimal
parse_size_to_byte_string_lem_example =
    parse_size_to_byte_string_lem megabytes b'3' (b'0' ∷ b'0' ∷ [])
      (omega arith, omega arith, (omega arith, omega arith, (omega arith, omega arith, tt)))
      (omega arith)
