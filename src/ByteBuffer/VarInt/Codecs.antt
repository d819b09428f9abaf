-- ===== src/ByteBuffer/VarInt/Codecs.antt =====
-- A number of variable length is read as it was written (Src/Common/ByteBuffer.cpp and the template
-- `ReadVarInt` of Include/ByteBuffer.h).
use p2pchat.Prelude.{
  ℕ, suc, ◌+◌, ◌*◌, ◌%◌, ◌^◌, ◌≤◌, ◌<◌, ◌≡◌, ap, ◌∙◌, false, List, ◌++◌, length, length-append,
  arith,
}
use p2pchat.Outcome.{ok}
use p2pchat.ByteBuffer.Stream.{room}
use p2pchat.ByteBuffer.Valid.{IsValid, view, readable_space_lem}
use p2pchat.ByteBuffer.Codec.{Codec, Written, filled-Written}
use p2pchat.ByteBuffer.Read.{moved}
use p2pchat.ByteBuffer.Numbers.Widths.{write_buf-ok, write_buf-fail}
use p2pchat.ByteBuffer.{ByteBuffer}
use p2pchat.ByteBuffer.VarInt.{
  read_loop, read_var_int32, read_var_int64, read_var_int, write_array, write_var_int32,
  write_var_int64, var_bytes,
}
use p2pchat.ByteBuffer.VarInt.Groups.{groups, var_bytes-groups}
use p2pchat.ByteBuffer.VarInt.Loop.{read_loop-groups}

module _ (b : ByteBuffer) (k v : ℕ) (vb : IsValid b) (h : v < 128 ^ suc k) where
  write_groups-ok :
      length (groups k v) ≤ room (view b)
      → Written b (groups k v) (write_array (var_bytes (suc k) v) b)
  unfolding write_array
  write_groups-ok fits =
      rw (var_bytes-groups k v h, write_buf-ok b vb (groups k v) fits)
        (filled-Written b (groups k v) vb fits)

  write_groups-fail :
      room (view b) < length (groups k v) → write_array (var_bytes (suc k) v) b ≡ (false, b)
  unfolding write_array
  write_groups-fail full = rw (var_bytes-groups k v h) (write_buf-fail b vb (groups k v) full)

  -- The whole loop, started with a round for every byte and one more.
  read_groups :
      (w : ℕ) (tail : List ℕ)
      → v < 2 ^ w
      → 7 * k < w
      → (view b).rest ≡ groups k v ++ tail
      → (n : ℕ) → n ≡ length (view b).rest
      → read_loop w (suc n) 0 0 b ≡ (ok v, moved b (length (groups k v)))
  read_groups w tail hv hk e n hn =
      let enough : length (groups k v) ≤ suc n =
        omega (arith, ap length e, length-append (groups k v) tail) in
      let value : 0 + v * 2 ^ 0 ≡ v = omega arith in
      read_loop-groups k w (suc n) v 0 0 b tail vb h (omega arith) (rw value hv) (omega arith)
        enough e
      ∙ ap (λ x. (ok x, moved b (length (groups k v)))) value

-- `write_var_int32` and `read_var_int32` belong together: on a valid buffer, a number below 2^32 whose
-- groups of seven bits, lowest first, at most five of them, fit is written whole behind what was
-- there, one whose bytes do not fit is refused, and where its bytes come next it is read back and they
-- alone are taken.
pub var_int32-Codec : Codec (λ v. v < 2 ^ 32) write_var_int32 read_var_int32 (groups 4)
unfolding write_var_int32 read_var_int32
var_int32-Codec = record {
  writes = λ b v vb h fits. write_groups-ok b 4 v vb (omega arith) fits;
  refuses = λ b v vb h full. ap (λ r. r.0) (write_groups-fail b 4 v vb (omega arith) full);
  reads = λ b v tail vb h e.
      read_groups b 4 v vb (omega arith) 32 tail h (omega arith) e _ (readable_space_lem b vb);
}

-- `write_var_int64` and `read_var_int64` belong together: on a valid buffer, a number below 2^64 whose
-- groups of seven bits, lowest first, at most ten of them, fit is written whole behind what was there,
-- one whose bytes do not fit is refused, and where its bytes come next it is read back and they alone
-- are taken.
pub var_int64-Codec : Codec (λ v. v < 2 ^ 64) write_var_int64 read_var_int64 (groups 9)
unfolding write_var_int64 read_var_int64
var_int64-Codec = record {
  writes = λ b v vb h fits. write_groups-ok b 9 v vb (omega arith) fits;
  refuses = λ b v vb h full. ap (λ r. r.0) (write_groups-fail b 9 v vb (omega arith) full);
  reads = λ b v tail vb h e.
      read_groups b 9 v vb (omega arith) 64 tail h (omega arith) e _ (readable_space_lem b vb);
}

-- `write_var_int32` and `read_var_int` belong together: on a valid buffer, a number below 2^32 whose
-- groups of seven bits, lowest first, at most five of them, fit is written whole behind what was
-- there, one whose bytes do not fit is refused, and where its bytes come next it is read back and they
-- alone are taken.
pub var_int-Codec : Codec (λ v. v < 2 ^ 32) write_var_int32 read_var_int (groups 4)
unfolding read_var_int read_var_int64
var_int-Codec = record {
  writes = var_int32-Codec.writes;
  refuses = var_int32-Codec.refuses;
  reads = λ b v tail vb h e.
      let cut : v % 2 ^ 32 ≡ v = omega arith in
      rw (
        read_groups b 4 v vb (omega arith) 64 tail (omega arith) (omega arith) e _
            (readable_space_lem b vb),
        cut,
      );
}
