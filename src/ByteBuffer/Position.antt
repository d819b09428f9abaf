-- ===== src/ByteBuffer/Position.antt =====
-- Block positions of Src/Common/ByteBuffer.cpp: three coordinates in one 64-bit number, of 26, 12 and
-- 26 bits.
use p2pchat.Prelude.{
  ℕ, ◌-◌, ◌*◌, ◌/◌, ◌^◌, Bool, leb, ◌==◌, if◌then◌else◌, ℤ, pos, negsuc, to_bits, of_bits, bit_and,
  bit_or,
}
use p2pchat.Outcome.{Reader, pure, ◌>>=◌}
use p2pchat.ByteBuffer.Numbers.{read_be_int64, write_be_int64}
use p2pchat.ByteBuffer.{ByteBuffer}

-- The operand of `WriteBEInt64`.
unfoldable pub position_value : ℤ → ℤ → ℤ → ℤ
position_value x y z = of_bits 64 (
    bit_or
      (bit_or (bit_and (to_bits 32 x) 0x3ffffff * 2 ^ 38) (bit_and (to_bits 32 y) 0xfff * 2 ^ 26))
      (bit_and (to_bits 32 z) 0x3ffffff))

unfoldable pub write_position64 : ℤ → ℤ → ℤ → ByteBuffer → Bool × ByteBuffer
write_position64 x y z = write_be_int64 (position_value x y z)

-- `-(full - raw)` of two numbers.
unfoldable pub minus_rest : ℕ → ℕ → ℤ
minus_rest full raw = if leb full raw then pos (raw - full) else negsuc (full - raw - 1)

-- A coordinate of the raw bits, its sign bit and the number that it is taken from.
unfoldable pub coordinate : ℕ → ℕ → ℕ → ℤ
coordinate raw sign full = if bit_and raw sign == 0 then pos raw else minus_rest full raw

-- The coordinates of a received value. Those of `y` are taken from 0x0800, as in the source.
unfoldable pub position_of : ℤ → ℤ × ℤ × ℤ
position_of value =
    let bits = to_bits 64 value in
    (
      coordinate (bit_and (bits / 2 ^ 38) 0x3ffffff) 0x2000000 0x4000000,
      coordinate (bit_and (bits / 2 ^ 26) 0xfff) 0x800 0x800,
      coordinate (bit_and bits 0x3ffffff) 0x2000000 0x4000000,
    )

unfoldable pub read_position64 : Reader ByteBuffer (ℤ × ℤ × ℤ)
read_position64 = do value ← read_be_int64; pure (position_of value)
