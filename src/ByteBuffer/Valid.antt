-- ===== src/ByteBuffer/Valid.antt =====
-- The representation invariant of cByteBuffer, the queue that a valid buffer stands for, and the
-- sizes of Src/Common/ByteBuffer.cpp in its terms.
use p2pchat.Prelude.{ℕ, ◌+◌, ◌-◌, ◌<◌, ◌^◌, ◌≡◌, length, arith}
use p2pchat.ByteBuffer.Window.{dist, window, length-window}
use p2pchat.ByteBuffer.Stream.{Stream, room}
use p2pchat.ByteBuffer.{ByteBuffer, get_free_space, get_used_space, get_readable_space}

pub record IsValid (b : ByteBuffer) : Type 0 where
  pub memory : length b.buffer ≡ b.buffer_size
  pub small : b.buffer_size < 2 ^ 63
  pub start_in : b.data_start < b.buffer_size
  pub write_in : b.write_pos < b.buffer_size
  pub read_in : b.read_pos < b.buffer_size
  -- The read position stands between the start and the end of the data.
  pub ordered :
      dist b.buffer_size b.data_start b.read_pos + dist b.buffer_size b.read_pos b.write_pos
      < b.buffer_size

abbrev pub n_done : ByteBuffer → ℕ
n_done b = dist b.buffer_size b.data_start b.read_pos

abbrev pub n_rest : ByteBuffer → ℕ
n_rest b = dist b.buffer_size b.read_pos b.write_pos

abbrev pub view : ByteBuffer → Stream
view b = record {
  capacity = b.buffer_size - 1;
  done = window b.buffer b.buffer_size b.data_start (n_done b);
  rest = window b.buffer b.buffer_size b.read_pos (n_rest b);
}

pub length-done : (b : ByteBuffer) → length (view b).done ≡ n_done b
length-done b = length-window b.buffer b.buffer_size b.data_start (n_done b)

pub length-rest : (b : ByteBuffer) → length (view b).rest ≡ n_rest b
length-rest b = length-window b.buffer b.buffer_size b.read_pos (n_rest b)

pub free_space_lem : (b : ByteBuffer) → IsValid b → get_free_space b ≡ room (view b)
unfolding get_free_space
free_space_lem b v = ground (arith, length-done b, length-rest b)

pub readable_space_lem : (b : ByteBuffer) → IsValid b → get_readable_space b ≡ length (view b).rest
unfolding get_readable_space
readable_space_lem b v = ground (arith, length-rest b)

pub used_space_lem :
    (b : ByteBuffer) → IsValid b → get_used_space b ≡ length (view b).done + length (view b).rest
unfolding get_used_space
used_space_lem b v = omega (arith, free_space_lem b v, length-done b, length-rest b)
