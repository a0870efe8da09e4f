-- ===== src/Base/Words.antt =====
-- Go's `int` (64 bits, two's complement) and `float64` as bit patterns below 2 ^ 64.
use Prim.Native.Nat.{ℕ, ◌+◌, ◌%◌, ◌^◌}
use mathlib.Core.Bool.{Bool, ◌&&◌}
use go_agent_api.Base.Tests.{ltb, leb}

-- a + b, which wraps around.
abbrev pub add64 : ℕ → ℕ → ℕ
add64 a b = (a + b) % 2 ^ 64

-- a ≤ b, as signed numbers: the sign bit is flipped, and the patterns are compared.
abbrev pub leb64 : ℕ → ℕ → Bool
leb64 a b = leb ((a + 2 ^ 63) % 2 ^ 64) ((b + 2 ^ 63) % 2 ^ 64)

-- The float64 whose literal is 0.7.
abbrev pub float_0_7 : ℕ
float_0_7 = 0x3fe6666666666666

-- x > 0, of a float64: neither a zero nor a NaN nor signed, up to +Inf.
abbrev pub float_pos : ℕ → Bool
float_pos x = ltb 0 x && leb x 0x7ff0000000000000
