-- ===== src/Common/Int64.antt =====
-- Go's `int64` (and `int`, `time.Duration`) as its two's-complement bit pattern below 2 ^ 64, so
-- that wrap-around is written out and the sign is a bit.
use Prim.Native.Nat.{ℕ, ◌+◌, ◌-◌, ◌%◌}
use mathlib.Core.Bool.{Bool, ◌&&◌, ◌||◌}
use torrnado.Common.Tests.{◌==◌, ltb, leb}

abbrev pub Int64 : Type 0
Int64 = ℕ

abbrev pub two_63 : ℕ
two_63 = 9223372036854775808

abbrev pub two_64 : ℕ
two_64 = 18446744073709551616

abbrev pub add : Int64 → Int64 → Int64
add a b = (a + b) % two_64

abbrev pub sub : Int64 → Int64 → Int64
sub a b = (a + two_64 - b) % two_64

-- Adding 2 ^ 63 turns the signed order into the order of patterns.
abbrev pub lt : Int64 → Int64 → Bool
lt a b = ltb ((a + two_63) % two_64) ((b + two_63) % two_64)

abbrev pub le : Int64 → Int64 → Bool
le a b = leb ((a + two_63) % two_64) ((b + two_63) % two_64)

-- `x < 0`, `x <= 0`, `x > 0` and `x >= 0`
abbrev pub is_neg : Int64 → Bool
is_neg a = leb two_63 a

abbrev pub is_nonpos : Int64 → Bool
is_nonpos a = a == 0 || leb two_63 a

abbrev pub is_pos : Int64 → Bool
is_pos a = ltb 0 a && ltb a two_63

-- The pattern of `- n`.
abbrev pub minus : ℕ → Int64
minus n = two_64 - n
