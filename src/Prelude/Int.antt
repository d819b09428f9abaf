-- ===== src/Prelude/Int.antt =====
-- Signed integers over the native numbers, and the w-bit two's complement patterns that stand for
-- them in C++.
use Prim.Native.Nat.{ℕ, ◌-◌, ◌%◌, ◌^◌, ◌<◌}
use p2pchat.Prelude.Tests.{ltb, leb, if◌then◌else◌}

-- `negsuc n` is -(n + 1).
pub data ℤ : Type 0 where
  pos : ℕ → ℤ
  negsuc : ℕ → ℤ

-- The pattern of `z` in `w` bits.
abbrev pub to_bits : ℕ → ℤ → ℕ
to_bits w (pos n) = n % 2 ^ w
to_bits w (negsuc n) = 2 ^ w - 1 - n % 2 ^ w

-- The integer that a pattern of `suc w` bits stands for.
abbrev pub of_bits : ℕ → ℕ → ℤ
of_bits w v = if ltb v (2 ^ (w - 1)) then pos v else negsuc (2 ^ w - 1 - v)

-- The integers of `w` bits.
abbrev pub InBits : ℕ → ℤ → Type 0
InBits w (pos n) = n < 2 ^ (w - 1)
InBits w (negsuc n) = n < 2 ^ (w - 1)

-- The difference of two numbers.
abbrev pub difference : ℕ → ℕ → ℤ
difference a b = if leb b a then pos (a - b) else negsuc (b - a - 1)
