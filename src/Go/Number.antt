-- ===== src/Go/Number.antt =====
-- Machine integers. An int32 or uint32 is kept as its bit pattern, a number below 2 ^ 32; the
-- comparisons of an int32 read the pattern as a signed number.
use csi_qsd.Base.{
  ℕ, zero, suc, ◌+◌, ◌-◌, ◌/◌, ◌%◌, ◌^◌, Bool, ◌&&◌, ◌||◌, [], ◌∷◌, ltb, leb, ◌=?◌, if◌then◌else◌,
}
use csi_qsd.Go.Text.{Text}

-- r++ and r--
unfoldable pub increment : ℕ → ℕ
increment r = (r + 1) % 2 ^ 32

unfoldable pub decrement : ℕ → ℕ
decrement r = (r + 2 ^ 32 - 1) % 2 ^ 32

-- r < 1 and r > 0 on an int32
unfoldable pub is_below_one : ℕ → Bool
is_below_one r = r =? 0 || leb (2 ^ 31) r

unfoldable pub is_positive : ℕ → Bool
is_positive r = ltb 0 r && ltb r (2 ^ 31)

-- int and int64 values; `negsuc n` is -(n + 1).
pub data ℤ : Type 0 where
  pos : ℕ → ℤ
  negsuc : ℕ → ℤ

unfoldable pub digits : ℕ → ℕ → Text → Text
digits zero n out = out
digits (suc f) n out =
    let rest = digits f (n / 10) ((b'0' + n % 10) ∷ out) in
    if ltb n 10 then (b'0' + n % 10) ∷ out else rest

-- strconv.Itoa on a number that is not negative; each round divides by ten, so the number bounds
-- the rounds
unfoldable pub format_ℕ : ℕ → Text
unfolding digits
format_ℕ n = digits (suc n) n []

-- strconv.FormatInt(z, 10)
unfoldable pub format_int : ℤ → Text
unfolding format_ℕ
format_int (pos n) = format_ℕ n
format_int (negsuc n) = b'-' ∷ format_ℕ (suc n)
