-- ===== src/Qsd/Commands/Size.antt =====
-- parseSizeToByteString of pkg/qsd/commands.go.
use csi_qsd.Base.{
  ℕ, ◌+◌, ◌-◌, ◌*◌, ◌%◌, ◌^◌, Bool, ◌&&◌, ◌||◌, [], ◌∷◌, ◌++◌, ltb, leb, if◌then◌else◌, length,
}
use csi_qsd.Go.Text.{Text, text, ◌==◌, drop}
use csi_qsd.Go.Number.{ℤ, pos, negsuc, format_int}
use csi_qsd.Go.Exec.{Outcome, ok, err, panic}
use csi_qsd.Host.{Error, errorf}

abbrev pub mb : ℕ
mb = 1024 * 1024

abbrev pub gb : ℕ
gb = 1024 * 1024 * 1024

-- the bytes of a text that a test holds of, as the replacements of the regular expressions leave
-- them
unfoldable pub keep_bytes : (ℕ → Bool) → Text → Text
keep_bytes p [] = []
keep_bytes p (c ∷ s) = let rest = keep_bytes p s in if p c then c ∷ rest else rest

abbrev pub is_digit : ℕ → Bool
is_digit c = leb b'0' c && leb c b'9'

abbrev pub is_letter : ℕ → Bool
is_letter c = (leb b'a' c && leb c b'z') || (leb b'A' c && leb c b'Z')

abbrev pub is_no_space : ℕ → Bool
is_no_space c = ltb c 32 || ltb 32 c

-- the number that decimal digits spell
unfoldable pub decimal : Text → ℕ → ℕ
decimal [] n = n
decimal (c ∷ s) n = decimal s (n * 10 + (c - b'0'))

abbrev atoi_error : Text → Text → Error
atoi_error s what = errorf (text "strconv.Atoi: parsing \"" ++ (s ++ (text "\": " ++ what)))

-- strconv.Atoi on a text of digits alone, with a 64-bit int
abbrev pub atoi : Text → Outcome Error ℕ
atoi [] = err (atoi_error [] (text "invalid syntax"))
atoi (c ∷ s) =
    if ltb (decimal (c ∷ s) 0) (2 ^ 63)
    then ok (decimal (c ∷ s) 0)
    else err (atoi_error (c ∷ s) (text "value out of range"))

-- the signed value of a 64-bit pattern
abbrev pub signed : ℕ → ℤ
signed n = if ltb n (2 ^ 63) then pos n else negsuc (2 ^ 64 - 1 - n)

-- strconv.Itoa(q * unit)
abbrev pub scaled : ℕ → ℕ → Text
scaled unit q = format_int (signed ((q * unit) % 2 ^ 64))

abbrev by_unit : Text → Outcome Error ℕ → Outcome Error Text
by_unit u (err e) = err e
by_unit u (ok q) =
    if u == text "M" || u == text "MB"
    then ok (scaled mb q)
    else if u == text "G" || u == text "GB"
    then ok (scaled gb q)
    else err (errorf (text "Quantity " ++ (u ++ text " not supported")))
by_unit u _ = panic

-- A text of fewer than two bytes, but for spaces, is sliced below its start.
unfoldable pub parse_size_to_byte_string : Text → Outcome Error Text
unfolding keep_bytes
parse_size_to_byte_string size =
    let s = keep_bytes is_no_space size in
    let unit = drop (length s - 2) s in
    if ltb (length s) 2
    then panic
    else by_unit (keep_bytes is_letter unit) (atoi (keep_bytes is_digit s))
