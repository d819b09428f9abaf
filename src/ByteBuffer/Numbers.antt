-- ===== src/ByteBuffer/Numbers.antt =====
-- The fixed-width numbers of Src/Common/ByteBuffer.cpp: `ReadBE…`, `WriteBE…`, `ReadBool`, `ReadLEInt`
-- and their like. A float or a double is its bit pattern, which the code only moves.

pub mod Widths
pub mod Codecs
use p2pchat.Prelude.{
  ℕ, ◌%◌, ◌^◌, Bool, true, false, not, List, length, ltb, ◌==◌, if◌then◌else◌, ℤ, to_bits, of_bits,
}
use p2pchat.Outcome.{Outcome, ok, fail, undefined, exited, Reader, pure, ◌>>=◌, ◌>>◌}
use p2pchat.ByteBuffer.Endian.{
  load_le, store_le, byte_swap, host_to_network4, host_to_network8, network_to_host8,
}
use p2pchat.ByteBuffer.{ByteBuffer, can_write_bytes, need_bytes, read_buf, write, write_buf}

-- The number in the memory that `ReadBuf(&val, n)` filled.
unfoldable pub read_val : ℕ → Reader ByteBuffer ℕ
read_val n = do need_bytes n; bytes ← read_buf n; pure (load_le bytes)

unfoldable pub read_be_uint8 : Reader ByteBuffer ℕ
read_be_uint8 = do val ← read_val 1; pure val

unfoldable pub read_be_int8 : Reader ByteBuffer ℤ
read_be_int8 = do val ← read_val 1; pure (of_bits 8 val)

unfoldable pub read_be_uint16 : Reader ByteBuffer ℕ
read_be_uint16 = do val ← read_val 2; pure (byte_swap 2 val)

unfoldable pub read_be_int16 : Reader ByteBuffer ℤ
read_be_int16 = do val ← read_val 2; pure (of_bits 16 (byte_swap 2 val))

unfoldable pub read_be_uint32 : Reader ByteBuffer ℕ
read_be_uint32 = do val ← read_val 4; pure (byte_swap 4 val)

unfoldable pub read_be_int32 : Reader ByteBuffer ℤ
read_be_int32 = do val ← read_val 4; pure (of_bits 32 (byte_swap 4 val))

unfoldable pub read_be_uint64 : Reader ByteBuffer ℕ
read_be_uint64 = do val ← read_val 8; pure (network_to_host8 val)

unfoldable pub read_be_int64 : Reader ByteBuffer ℤ
read_be_int64 = do val ← read_val 8; pure (of_bits 64 (network_to_host8 val))

unfoldable pub read_be_float : Reader ByteBuffer ℕ
read_be_float = do val ← read_val 4; pure (byte_swap 4 val)

unfoldable pub read_be_double : Reader ByteBuffer ℕ
read_be_double = do val ← read_val 8; pure (network_to_host8 val)

unfoldable pub read_bool : Reader ByteBuffer Bool
read_bool = do val ← read_val 1; pure (not (val == 0))

unfoldable pub read_le_int : Reader ByteBuffer ℤ
read_le_int = do val ← read_val 4; pure (of_bits 32 val)

-- `PUTBYTES(n)` and then `WriteBuf(&val, n)`.
unfoldable pub write_val : ℕ → ℕ → ByteBuffer → Bool × ByteBuffer
write_val n val b = if not (can_write_bytes b n) then (false, b) else write_buf b (store_le n val)

unfoldable pub write_be_uint8 : ℕ → ByteBuffer → Bool × ByteBuffer
write_be_uint8 v = write_val 1 v

unfoldable pub write_be_int8 : ℤ → ByteBuffer → Bool × ByteBuffer
write_be_int8 z = write_val 1 (to_bits 8 z)

unfoldable pub write_be_uint16 : ℕ → ByteBuffer → Bool × ByteBuffer
write_be_uint16 v = write_val 2 (byte_swap 2 v)

unfoldable pub write_be_int16 : ℤ → ByteBuffer → Bool × ByteBuffer
write_be_int16 z = write_val 2 (byte_swap 2 (to_bits 16 z))

unfoldable pub write_be_uint32 : ℕ → ByteBuffer → Bool × ByteBuffer
write_be_uint32 v = write_val 4 (host_to_network4 v)

unfoldable pub write_be_int32 : ℤ → ByteBuffer → Bool × ByteBuffer
write_be_int32 z = write_val 4 (host_to_network4 (to_bits 32 z))

unfoldable pub write_be_uint64 : ℕ → ByteBuffer → Bool × ByteBuffer
write_be_uint64 v = write_val 8 (host_to_network8 v)

unfoldable pub write_be_int64 : ℤ → ByteBuffer → Bool × ByteBuffer
write_be_int64 z = write_val 8 (host_to_network8 (to_bits 64 z))

unfoldable pub write_be_float : ℕ → ByteBuffer → Bool × ByteBuffer
write_be_float bits = write_val 4 (host_to_network4 bits)

unfoldable pub write_be_double : ℕ → ByteBuffer → Bool × ByteBuffer
write_be_double bits = write_val 8 (host_to_network8 bits)

-- `Write`, which has no `PUTBYTES`.
unfoldable pub write_bool : Bool → ByteBuffer → Bool × ByteBuffer
write_bool v b = let val : ℕ = if v then 1 else 0 in write b (store_le 1 val)

unfoldable pub write_le_int32 : ℤ → ByteBuffer → Bool × ByteBuffer
write_le_int32 z b = write_buf b (store_le 4 (to_bits 32 z))
