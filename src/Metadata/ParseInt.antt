-- ===== src/Metadata/ParseInt.antt =====
-- strconv.ParseInt(s, 10, 32).
use csi_qsd.Base.{
  ℕ, ◌+◌, ◌-◌, ◌*◌, ◌^◌, Bool, true, false, ◌||◌, [], ◌∷◌, ltb, leb, ◌=?◌, if◌then◌else◌,
}
use csi_qsd.Go.Text.{Text}
use csi_qsd.Go.Number.{ℤ, pos, negsuc}

pub data Parsed {ℓ} (A : Type ℓ) : Type ℓ where
  value : A → Parsed A
  syntax_error range_error : Parsed A

abbrev pub max_uint32 : ℕ
max_uint32 = 2 ^ 32 - 1

-- the loop of ParseUint
unfoldable pub scan : Text → ℕ → Parsed ℕ
scan [] n = value n
scan (c ∷ s) n =
    if ltb c b'0' || ltb b'9' c
    then syntax_error
    else if ltb max_uint32 (n * 10 + (c - b'0'))
    then range_error
    else scan s (n * 10 + (c - b'0'))

-- ParseUint(s, 10, 32)
unfoldable pub parse_uint : Text → Parsed ℕ
unfolding scan
parse_uint [] = syntax_error
parse_uint (c ∷ s) = scan (c ∷ s) 0

-- -n
abbrev pub negate : ℕ → ℤ
negate n = if n =? 0 then pos 0 else negsuc (n - 1)

-- the range of an int32, by the sign
abbrev pub in_range : Bool → Parsed ℕ → Parsed ℤ
in_range negative syntax_error = syntax_error
in_range negative range_error = range_error
in_range true (value n) = if ltb (2 ^ 31) n then range_error else value (negate n)
in_range false (value n) = if leb (2 ^ 31) n then range_error else value (pos n)

-- ParseInt(s, 10, 32)
unfoldable pub parse_int : Text → Parsed ℤ
unfolding parse_uint
parse_int [] = syntax_error
parse_int (c ∷ s) =
    if c =? b'+'
    then in_range false (parse_uint s)
    else if c =? b'-'
    then in_range true (parse_uint s)
    else in_range false (parse_uint (c ∷ s))
