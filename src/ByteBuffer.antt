-- ===== src/ByteBuffer.antt =====
-- Src/Common/ByteBuffer.cpp: the ring buffer of bytes, its memory and its positions. A method takes
-- the buffer and returns the new one; what goes out through a reference stands in the `Outcome`.
mod Window
pub mod Endian
pub mod Valid
pub mod Stream
pub mod Write
pub mod Read
pub mod Queue
pub mod Transfer
pub mod Codec
pub mod Numbers
pub mod VarInt
pub mod Strings
pub mod Position
mod Tests
use p2pchat.Prelude.{
  ℕ, zero, suc, ◌+◌, ◌-◌, ◌%◌, ◌^◌, Bool, true, false, not, ◌||◌, List, [], ◌++◌, length, take,
  drop, replicate, ltb, leb, ◌==◌, if◌then◌else◌,
}
use p2pchat.Outcome.{Outcome, ok, fail, exited, stuck, Reader, ◌>>=◌, ◌>>◌}
use Window.{write_at, slice}

-- `m_Buffer`, `m_BufferSize`, `m_DataStart`, `m_WritePos`, `m_ReadPos`.
pub record ByteBuffer : Type 0 where
  pub buffer : List ℕ
  pub buffer_size : ℕ
  pub data_start : ℕ
  pub write_pos : ℕ
  pub read_pos : ℕ

-- `size_t` arithmetic.
abbrev pub add_size : ℕ → ℕ → ℕ
add_size a b = (a + b) % 2 ^ 64

abbrev pub sub_size : ℕ → ℕ → ℕ
sub_size a b = (a + 2 ^ 64 - b) % 2 ^ 64

-- The constructor; the list is what `new char[n + 1]` holds.
unfoldable pub init : List ℕ → ℕ → ByteBuffer
init storage n = record {
  buffer = storage;
  buffer_size = add_size n 1;
  data_start = 0;
  write_pos = 0;
  read_pos = 0;
}

-- `memset(buf, value, count)` with the value cut to a byte.
unfoldable pub memset : List ℕ → ℕ → ℕ → List ℕ
memset buf value count = write_at buf 0 (replicate count (value % 256))

-- The arguments of `memset` stand in the order of the source.
unfoldable pub clear_all : ByteBuffer → ByteBuffer
unfolding memset
clear_all b = record b {
  data_start = 0;
  write_pos = 0;
  read_pos = 0;
  buffer = memset b.buffer b.buffer_size 0;
}

unfoldable pub get_free_space : ByteBuffer → ℕ
get_free_space b =
    if leb data_start write_pos
    then sub_size (add_size (sub_size buffer_size write_pos) data_start) 1
    else sub_size (sub_size data_start write_pos) 1
  where
    open b use {buffer_size, data_start, write_pos}

unfoldable pub get_used_space : ByteBuffer → ℕ
get_used_space b = sub_size (sub_size b.buffer_size (get_free_space b)) 1

unfoldable pub get_readable_space : ByteBuffer → ℕ
get_readable_space b =
    if ltb write_pos read_pos
    then add_size (sub_size buffer_size read_pos) write_pos
    else sub_size write_pos read_pos
  where
    open b use {buffer_size, write_pos, read_pos}

unfoldable pub can_read_bytes : ByteBuffer → ℕ → Bool
can_read_bytes b n = leb n (get_readable_space b)

unfoldable pub can_write_bytes : ByteBuffer → ℕ → Bool
can_write_bytes b n = leb n (get_free_space b)

-- The part of `Write` and `WriteBuf` up to the end of the memory; the list is what is left over.
unfoldable pub write_till_end : ByteBuffer → List ℕ → ByteBuffer × List ℕ
write_till_end b bytes =
    let till_end = sub_size b.buffer_size b.write_pos in
    if leb till_end (length bytes)
    then (
      record b { buffer = write_at b.buffer b.write_pos (take till_end bytes); write_pos = 0 },
      drop till_end bytes,
    )
    else (b, bytes)

-- The rest of them, in a single write.
unfoldable pub write_rest : ByteBuffer × List ℕ → ByteBuffer
write_rest (b, bytes) =
    if ltb 0 (length bytes)
    then record b {
      buffer = write_at b.buffer b.write_pos bytes;
      write_pos = add_size b.write_pos (length bytes);
    }
    else b

unfoldable pub write : ByteBuffer → List ℕ → Bool × ByteBuffer
write b bytes =
    if ltb (get_free_space b) (length bytes)
    then (false, b)
    else (true, write_rest (write_till_end b bytes))

unfoldable pub write_buf : ByteBuffer → List ℕ → Bool × ByteBuffer
write_buf b bytes =
    if not (can_write_bytes b (length bytes))
    then (false, b)
    else (true, write_rest (write_till_end b bytes))

-- The part of `ReadBuf` and `ReadString` up to the end of the memory: the bytes read, how many
-- are still to be read, and the buffer.
unfoldable pub read_till_end : ByteBuffer → ℕ → List ℕ × ℕ × ByteBuffer
read_till_end b n =
    let to_end = sub_size b.buffer_size b.read_pos in
    if leb to_end n
    then (slice b.buffer b.read_pos to_end, sub_size n to_end, record b { read_pos = 0 })
    else ([], n, b)

-- The rest of them, in a single read.
unfoldable pub read_rest : List ℕ × ℕ × ByteBuffer → List ℕ × ByteBuffer
read_rest (out, n, b) =
    if ltb 0 n
    then (out ++ slice b.buffer b.read_pos n, record b { read_pos = add_size b.read_pos n })
    else (out, b)

-- The macro `NEEDBYTES`.
unfoldable pub need_bytes : ℕ → Reader ByteBuffer (Unit {0})
need_bytes n b = (if can_read_bytes b n then ok tt else fail, b)

-- The bytes copied by a read that is known to fit.
unfoldable pub read_now : ℕ → Reader ByteBuffer (List ℕ)
read_now n b = let (out, b') = read_rest (read_till_end b n) in (ok out, b')

unfoldable pub read_buf : ℕ → Reader ByteBuffer (List ℕ)
read_buf n = do need_bytes n; read_now n

unfoldable pub read_string : ℕ → Reader ByteBuffer (List ℕ)
read_string n = do need_bytes n; read_now n

unfoldable pub advance_read_pos : ByteBuffer → ℕ → ByteBuffer
advance_read_pos b n =
    let pos = add_size b.read_pos n in
    record b { read_pos = if leb b.buffer_size pos then sub_size pos b.buffer_size else pos }

unfoldable pub skip_read : ByteBuffer → ℕ → Bool × ByteBuffer
skip_read b n = if not (can_read_bytes b n) then (false, b) else (true, advance_read_pos b n)

unfoldable pub read_all : Reader ByteBuffer (List ℕ)
read_all b = read_string (get_readable_space b) b

unfoldable pub commit_read : ByteBuffer → ByteBuffer
commit_read b = record b { data_start = b.read_pos }

unfoldable pub reset_read : ByteBuffer → ByteBuffer
reset_read b = record b { read_pos = b.data_start }

-- The bytes read since the last commit, appended to `out`.
unfoldable pub read_again : ByteBuffer → List ℕ → List ℕ
read_again b out =
    if ltb read_pos data_start
    then (out ++ slice buffer data_start (sub_size buffer_size data_start))
      ++ slice buffer 0 (sub_size read_pos 0)
    else out ++ slice buffer data_start (sub_size read_pos data_start)
  where
    open b use {buffer, buffer_size, data_start, read_pos}

-- `sizeof(buf)` of `ReadToByteBuffer`.
abbrev pub chunk_size : ℕ
chunk_size = 1024

-- The second half of a round: the bytes read go to the destination. A failure of either half is a
-- failed `VERIFY`.
unfoldable pub deliver :
    ByteBuffer → Outcome (List ℕ) × ByteBuffer → Outcome (Unit {0}) × (ByteBuffer × ByteBuffer)
deliver dst (ok bytes, src) =
    let (done, dst') = write dst bytes in (if done then ok tt else exited, (src, dst'))
deliver dst (_, src) = (exited, (src, dst))

-- One round of its loop, from the source buffer to the destination.
unfoldable pub copy_chunk : ℕ → Reader (ByteBuffer × ByteBuffer) (Unit {0})
copy_chunk num (src, dst) = deliver dst (read_buf num src)

-- The loop. Each round lowers `n`, so `n` rounds are enough.
unfoldable pub copy_loop : ℕ → ℕ → Reader (ByteBuffer × ByteBuffer) (Unit {0})
copy_loop zero n bs = (if n == 0 then ok tt else stuck, bs)
copy_loop (suc fuel) n bs =
    let num = if ltb chunk_size n then chunk_size else n in
    let round = (copy_chunk num >> copy_loop fuel (sub_size n num)) bs in
    if n == 0 then (ok tt, bs) else round

unfoldable pub read_to_byte_buffer : ℕ → Reader (ByteBuffer × ByteBuffer) (Unit {0})
read_to_byte_buffer n (src, dst) =
    if not (can_write_bytes dst n) || not (can_read_bytes src n)
    then (fail, (src, dst))
    else copy_loop n n (src, dst)
