-- ===== src/ByteBuffer/VarInt.antt =====
-- Numbers of variable length in Src/Common/ByteBuffer.cpp: seven bits to a byte, lowest first, and the
-- top bit set on every byte but the last.
pub mod Groups
pub mod Loop
pub mod Broken
pub mod Total
pub mod Codecs
use p2pchat.Prelude.{
  ℕ, zero, suc, ◌+◌, ◌*◌, ◌/◌, ◌%◌, ◌^◌, Bool, true, false, List, [], ◌∷◌, Option, none, some, ltb,
  leb, ◌==◌, if◌then◌else◌, bit_and, bit_or,
}
use mathlib.Core.Option
use p2pchat.Outcome.{Outcome, ok, fail, undefined, stuck, Reader, pure, ◌>>=◌, ◌>>◌}
use p2pchat.ByteBuffer.Endian.{load_le}
use p2pchat.ByteBuffer.{ByteBuffer, get_readable_space, need_bytes, read_buf, write_buf}

-- `Value | (((UIntW)(b & 0x7f)) << Shift)` at a width of `w` bits. C++ gives no meaning to a shift by
-- the width or more.
unfoldable pub add_group : ℕ → ℕ → ℕ → ℕ → Outcome ℕ
add_group w value byte shift =
    if leb w shift then undefined else ok (bit_or value (bit_and byte 0x7f * 2 ^ shift % 2 ^ w))

-- The loop of `ReadVarInt32` and `ReadVarInt64`. Each round takes a byte, so one round more than there
-- are bytes is enough.
unfoldable pub read_loop : ℕ → ℕ → ℕ → ℕ → Reader ByteBuffer ℕ
read_loop w zero value shift b = (stuck, b)
read_loop w (suc fuel) value shift b =
    (do
      need_bytes 1
      bytes ← read_buf 1
      value' ← λ s. (add_group w value (load_le bytes) shift, s)
      λ s. elim (bit_and (load_le bytes) 0x80 == 0) [
        | true ↦ (ok value', s)
        | false ↦ read_loop w fuel value' (shift + 7) s
      ])
      b

unfoldable pub read_var_int32 : Reader ByteBuffer ℕ
read_var_int32 b = read_loop 32 (suc (get_readable_space b)) 0 0 b

unfoldable pub read_var_int64 : Reader ByteBuffer ℕ
read_var_int64 b = read_loop 64 (suc (get_readable_space b)) 0 0 b

-- The template `ReadVarInt` at `UInt32`.
unfoldable pub read_var_int : Reader ByteBuffer ℕ
read_var_int = do v ← read_var_int64; pure (v % 2 ^ 32)

-- The bytes that the loop of `WriteVarInt32` and `WriteVarInt64` puts into an array of `n` bytes;
-- `none` is a write behind its end.
unfoldable pub var_bytes : ℕ → ℕ → Option (List ℕ)
var_bytes zero value = none
var_bytes (suc n) value =
    let byte = bit_or (bit_and value 0x7f) (if ltb 0x7f value then 0x80 else 0x00) in
    let rest = Option.map (◌∷◌ byte) (var_bytes n (value / 2 ^ 7)) in
    if ltb 0 (value / 2 ^ 7) then rest else some (byte ∷ [])

-- `none` cannot come for a number of the width.
unfoldable pub write_array : Option (List ℕ) → ByteBuffer → Bool × ByteBuffer
write_array none b = (false, b)
write_array (some bytes) b = write_buf b bytes

unfoldable pub write_var_int32 : ℕ → ByteBuffer → Bool × ByteBuffer
write_var_int32 value = write_array (var_bytes 5 value)

unfoldable pub write_var_int64 : ℕ → ByteBuffer → Bool × ByteBuffer
write_var_int64 value = write_array (var_bytes 10 value)
