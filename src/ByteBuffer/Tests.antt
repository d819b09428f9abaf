-- ===== src/ByteBuffer/Tests.antt =====
-- The theorems on cByteBuffer (Src/Common/ByteBuffer.cpp) at concrete buffers.
use p2pchat.Prelude.{ℕ, ◌≤◌, ◌<◌, ◌≡◌, refl, true, [], ◌∷◌, ◌++◌, length, take, ◌⊎◌, arith}
use p2pchat.Outcome.{ok, fail, undefined}
use p2pchat.ByteBuffer.Stream.{Stream, room, put, get, advance, commit, reset, extend}
use p2pchat.ByteBuffer.Stream
use p2pchat.ByteBuffer.Valid.{IsValid, view}
use p2pchat.ByteBuffer.Write.{write_refines}
use p2pchat.ByteBuffer.Read.{read_buf_refines, skip_read_refines}
use p2pchat.ByteBuffer.Queue.{commit-reset_refine, read_all_lem}
use p2pchat.ByteBuffer.VarInt.{read_var_int32, read_var_int64}
use p2pchat.ByteBuffer.Window.{window}
use p2pchat.ByteBuffer.VarInt.Broken.{overlong_undefined}
use p2pchat.ByteBuffer.Transfer.{read_to_byte_buffer_lem}
use p2pchat.ByteBuffer.{
  ByteBuffer, write, read_buf, skip_read, commit_read, reset_read, read_all, read_to_byte_buffer,
  get_free_space, write_rest, write_till_end,
}

-- A ring of five bytes whose data runs over the end: 14 has been read, and 15, 11 and 12 have not.
abbrev wrapped : ByteBuffer
wrapped = record {
  buffer = 11 ∷ 12 ∷ 13 ∷ 14 ∷ 15 ∷ [];
  buffer_size = 5;
  data_start = 3;
  write_pos = 2;
  read_pos = 4;
}

wrapped-IsValid : IsValid wrapped
wrapped-IsValid = record {
  memory = refl;
  small = omega arith;
  start_in = omega arith;
  write_in = omega arith;
  read_in = omega arith;
  ordered = ground arith;
}

-- A ring of four bytes with nothing in it.
abbrev blank : ByteBuffer
blank = record {
  buffer = 0 ∷ 0 ∷ 0 ∷ 0 ∷ [];
  buffer_size = 4;
  data_start = 2;
  write_pos = 2;
  read_pos = 2;
}

blank-IsValid : IsValid blank
blank-IsValid = record {
  memory = refl;
  small = omega arith;
  start_in = omega arith;
  write_in = omega arith;
  read_in = omega arith;
  ordered = ground arith;
}

-- Three bytes, of which one goes over the end of the memory.
write_wraps :
    write blank (7 ∷ 8 ∷ 9 ∷ [])
    ≡ (true, record blank { buffer = 9 ∷ 0 ∷ 7 ∷ 8 ∷ []; write_pos = 1 })
unfolding write get_free_space write_rest write_till_end
write_wraps = refl

write_refines_example :
    let (r, b') = write blank (7 ∷ 8 ∷ 9 ∷ []) in
    IsValid b' × ((r, view b') ≡ put (view blank) (7 ∷ 8 ∷ 9 ∷ []))
write_refines_example = write_refines blank (7 ∷ 8 ∷ 9 ∷ []) blank-IsValid

read_buf_refines_example :
    let (r, b') = read_buf 2 wrapped in IsValid b' × ((r, view b') ≡ get 2 (view wrapped))
read_buf_refines_example = read_buf_refines wrapped 2 wrapped-IsValid

skip_read_refines_example :
    let (r, b') = skip_read wrapped 2 in IsValid b' × ((r, view b') ≡ Stream.skip (view wrapped) 2)
skip_read_refines_example = skip_read_refines wrapped 2 wrapped-IsValid

commit-reset_refine_example :
    IsValid (commit_read wrapped)
    × IsValid (reset_read wrapped)
    × (view (commit_read wrapped) ≡ commit (view wrapped))
    × (view (reset_read wrapped) ≡ reset (view wrapped))
commit-reset_refine_example = commit-reset_refine wrapped wrapped-IsValid

read_all_lem_example :
    let (r, b') = read_all wrapped in
    IsValid b'
    × (r ≡ ok (view wrapped).rest)
    × (view b'
        ≡ record (view wrapped) { done = (view wrapped).done ++ (view wrapped).rest; rest = [] })
read_all_lem_example = read_all_lem wrapped wrapped-IsValid

read_to_byte_buffer_lem_example :
    let (r, (src', dst')) = read_to_byte_buffer 3 (wrapped, blank) in
    IsValid src'
    × IsValid dst'
    × (((room (view blank) < 3) ⊎ (length (view wrapped).rest < 3))
          × (r ≡ fail)
          × (src' ≡ wrapped)
          × (dst' ≡ blank)
        ⊎ (3 ≤ room (view blank))
          × (3 ≤ length (view wrapped).rest)
          × (r ≡ ok tt)
          × (view src' ≡ advance (view wrapped) 3)
          × (view dst' ≡ extend (view blank) (take 3 (view wrapped).rest)))
read_to_byte_buffer_lem_example =
    read_to_byte_buffer_lem wrapped blank 3 wrapped-IsValid blank-IsValid

-- A ring that holds five bytes with the top bit set, and another one.
abbrev overlong : ByteBuffer
overlong = record {
  buffer = 255 ∷ 255 ∷ 255 ∷ 255 ∷ 255 ∷ 1 ∷ 0 ∷ [];
  buffer_size = 7;
  data_start = 0;
  write_pos = 6;
  read_pos = 0;
}

overlong-IsValid : IsValid overlong
overlong-IsValid = record {
  memory = refl;
  small = omega arith;
  start_in = omega arith;
  write_in = omega arith;
  read_in = omega arith;
  ordered = ground arith;
}

overlong_undefined_example :
    ((read_var_int32 overlong).0 ≡ undefined)
    × ((length {A = ℕ} (255 ∷ 255 ∷ 255 ∷ 255 ∷ 255 ∷ []) < 10)
        ⊎ ((read_var_int64 overlong).0 ≡ undefined))
unfolding window
overlong_undefined_example =
    let marked : (128 ≤ 255) × (255 < 256) = (omega arith, omega arith) in
    overlong_undefined overlong (255 ∷ 255 ∷ 255 ∷ 255 ∷ 255 ∷ []) 1 [] overlong-IsValid
      (marked, (marked, (marked, (marked, (marked, tt))))) refl (omega arith)
