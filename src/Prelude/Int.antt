-- ===== src/Prelude/Int.antt =====
-- Go's signed integers, where the program may be handed a negative one.
use Prim.Native.Nat.{ℕ, ◌-◌, ◌%◌, ◌^◌}
use mathlib.Core.Bool.{Bool, true, false}
use agent_ops.Prelude.Tests.{ltb, leb, if◌then◌else◌}

-- `negsuc n` is -(n + 1).
pub data ℤ : Type 0 where
  pos : ℕ → ℤ
  negsuc : ℕ → ℤ

-- `n > 0`, and the value where it is
abbrev pub is_positive : ℤ → Bool
is_positive (pos n) = ltb 0 n
is_positive (negsuc n) = false

abbrev pub pos_part : ℤ → ℕ
pos_part (pos n) = n
pos_part (negsuc n) = 0

-- `i <= n` for an integer and a number that is not negative
abbrev pub le_nat : ℤ → ℕ → Bool
le_nat (pos i) n = leb i n
le_nat (negsuc i) n = true

-- `i < n`
abbrev pub lt_nat : ℤ → ℕ → Bool
lt_nat (pos i) n = ltb i n
lt_nat (negsuc i) n = true

-- an int64 in two's complement, of a product that may have wrapped around
abbrev pub wrap64 : ℕ → ℤ
wrap64 n = let m = n % 2 ^ 64 in if ltb m (2 ^ 63) then pos m else negsuc (2 ^ 64 - 1 - m)
