-- ===== src/ByteBuffer/Numbers/Codecs.antt =====
-- Each number of Src/Common/ByteBuffer.cpp is written highest byte first, or lowest first by
-- `WriteLEInt32`, and is read as it was written.
use p2pchat.Prelude.{
  ℕ, ◌≤◌, ◌<◌, ◌^◌, ◌≡◌, refl, ap, ◌∙◌, Bool, true, false, List, [], ◌∷◌, ◌++◌, length, arith, ℤ,
  to_bits, of_bits, InBits, if◌then◌else◌,
}
use p2pchat.Outcome.{ok, pure, ◌>>=◌}
use p2pchat.ByteBuffer.Endian.{
  load_le, store_le, byte_swap, be_bytes, length-store_le, length-be_bytes, load_le-store_le,
  store_le-byte_swap, byte_swap-be_bytes, store_le-host_to_network8, network_to_host8-be_bytes,
  host_to_network4, host_to_network8, network_to_host8,
}
use p2pchat.ByteBuffer.Stream.{room}
use p2pchat.ByteBuffer.Valid.{IsValid, view}
use p2pchat.ByteBuffer.Codec.{Codec, Written, filled-Written}
use p2pchat.ByteBuffer.{ByteBuffer}
use p2pchat.ByteBuffer.Numbers.Widths.{
  read_val-ok, write_val-ok, write_val-fail, write_buf-ok, write_buf-fail,
}
use p2pchat.ByteBuffer.Write.{write-ok, write-fail}
use p2pchat.ByteBuffer.Read.{moved}
use p2pchat.ByteBuffer.Numbers.{
  read_val, write_val, read_be_uint8, read_be_int8, read_be_uint16, read_be_int16, read_be_uint32,
  read_be_int32, read_be_uint64, read_be_int64, read_be_float, read_be_double, read_bool,
  read_le_int, write_be_uint8, write_be_int8, write_be_uint16, write_be_int16, write_be_uint32,
  write_be_int32, write_be_uint64, write_be_int64, write_be_float, write_be_double, write_bool,
  write_le_int32,
}

module _ {V : Type 0} (InRange : V → Type 0) (n : ℕ) (enc : V → ℕ) (dec : ℕ → V)
    (bytes : V → List ℕ) (len : (v : V) → length (bytes v) ≡ n)
    (stored : (v : V) → InRange v → store_le n (enc v) ≡ bytes v)
    (loaded : (v : V) → InRange v → dec (load_le (bytes v)) ≡ v) where
  fixed-Codec : Codec InRange (λ v. write_val n (enc v)) (do val ← read_val n; pure (dec val)) bytes
  fixed-Codec = record {
    writes = λ b v vb h fits.
        rw (write_val-ok b vb n (enc v) (rw (len v) at fits), stored v h)
          (filled-Written b (bytes v) vb fits);
    refuses = λ b v vb h full. ap (λ r. r.0) (write_val-fail b vb n (enc v) (rw (len v) at full));
    reads = λ b v tail vb h e. rw (read_val-ok b vb (bytes v) tail n (len v) e, loaded v h, len v);
  }

of_bits-to_bits8 : (z : ℤ) → InBits 8 z → of_bits 8 (to_bits 8 z) ≡ z
of_bits-to_bits8 z h = ground arith

of_bits-to_bits16 : (z : ℤ) → InBits 16 z → of_bits 16 (to_bits 16 z) ≡ z
of_bits-to_bits16 z h = ground arith

of_bits-to_bits32 : (z : ℤ) → InBits 32 z → of_bits 32 (to_bits 32 z) ≡ z
of_bits-to_bits32 z h = ground arith

of_bits-to_bits64 : (z : ℤ) → InBits 64 z → of_bits 64 (to_bits 64 z) ≡ z
of_bits-to_bits64 z h = ground arith

to_bits8-lt : (z : ℤ) → to_bits 8 z < 2 ^ 8
to_bits8-lt z = ground arith

to_bits16-lt : (z : ℤ) → to_bits 16 z < 2 ^ 16
to_bits16-lt z = ground arith

to_bits32-lt : (z : ℤ) → to_bits 32 z < 2 ^ 32
to_bits32-lt z = ground arith

to_bits64-lt : (z : ℤ) → to_bits 64 z < 2 ^ 64
to_bits64-lt z = ground arith

-- `write_be_uint16` and `read_be_uint16` belong together: on a valid buffer, a number below 2^16 whose
-- two bytes, highest first, fit is written whole behind what was there, one whose bytes do not fit is
-- refused, and where its bytes come next it is read back and they alone are taken.
pub uint16-Codec : Codec (λ v. v < 2 ^ 16) write_be_uint16 read_be_uint16 (be_bytes 2)
unfolding write_be_uint16 read_be_uint16
uint16-Codec =
    fixed-Codec (λ v. v < 2 ^ 16) 2 (byte_swap 2) (byte_swap 2) (be_bytes 2) (length-be_bytes 2)
      (λ v h. store_le-byte_swap 2 v) (λ v h. byte_swap-be_bytes 2 v h)

-- `write_be_uint32` and `read_be_uint32` belong together: on a valid buffer, a number below 2^32 whose
-- four bytes, highest first, fit is written whole behind what was there, one whose bytes do not fit is
-- refused, and where its bytes come next it is read back and they alone are taken.
pub uint32-Codec : Codec (λ v. v < 2 ^ 32) write_be_uint32 read_be_uint32 (be_bytes 4)
unfolding write_be_uint32 read_be_uint32 host_to_network4
uint32-Codec =
    fixed-Codec (λ v. v < 2 ^ 32) 4 (byte_swap 4) (byte_swap 4) (be_bytes 4) (length-be_bytes 4)
      (λ v h. store_le-byte_swap 4 v) (λ v h. byte_swap-be_bytes 4 v h)

-- `write_be_uint64` and `read_be_uint64` belong together: on a valid buffer, a number below 2^64 whose
-- eight bytes, highest first, fit is written whole behind what was there, one whose bytes do not fit
-- is refused, and where its bytes come next it is read back and they alone are taken.
pub uint64-Codec : Codec (λ v. v < 2 ^ 64) write_be_uint64 read_be_uint64 (be_bytes 8)
unfolding write_be_uint64 read_be_uint64
uint64-Codec =
    fixed-Codec (λ v. v < 2 ^ 64) 8 host_to_network8 network_to_host8 (be_bytes 8)
      (length-be_bytes 8) store_le-host_to_network8 network_to_host8-be_bytes

-- `write_be_float` and `read_be_float` belong together: on a valid buffer, a float, as a pattern of 32
-- bits, whose four bytes, highest first, fit is written whole behind what was there, one whose bytes
-- do not fit is refused, and where its bytes come next it is read back and they alone are taken.
pub float-Codec : Codec (λ v. v < 2 ^ 32) write_be_float read_be_float (be_bytes 4)
unfolding write_be_float read_be_float host_to_network4
float-Codec =
    fixed-Codec (λ v. v < 2 ^ 32) 4 (byte_swap 4) (byte_swap 4) (be_bytes 4) (length-be_bytes 4)
      (λ v h. store_le-byte_swap 4 v) (λ v h. byte_swap-be_bytes 4 v h)

-- `write_be_double` and `read_be_double` belong together: on a valid buffer, a double, as a pattern of
-- 64 bits, whose eight bytes, highest first, fit is written whole behind what was there, one whose
-- bytes do not fit is refused, and where its bytes come next it is read back and they alone are taken.
pub double-Codec : Codec (λ v. v < 2 ^ 64) write_be_double read_be_double (be_bytes 8)
unfolding write_be_double read_be_double
double-Codec =
    fixed-Codec (λ v. v < 2 ^ 64) 8 host_to_network8 network_to_host8 (be_bytes 8)
      (length-be_bytes 8) store_le-host_to_network8 network_to_host8-be_bytes

one_byte : (v : ℕ) → store_le 1 v ≡ be_bytes 1 v
unfolding store_le be_bytes
one_byte v = refl

load_one_byte : (v : ℕ) → v < 2 ^ 8 → load_le (be_bytes 1 v) ≡ v
unfolding load_le be_bytes
load_one_byte v h = omega arith

-- `write_be_uint8` and `read_be_uint8` belong together: on a valid buffer, a number below 2^8 whose
-- one byte fits is written whole behind what was there, one whose bytes do not fit is refused, and
-- where its bytes come next it is read back and they alone are taken.
pub uint8-Codec : Codec (λ v. v < 2 ^ 8) write_be_uint8 read_be_uint8 (be_bytes 1)
unfolding write_be_uint8 read_be_uint8
uint8-Codec =
    fixed-Codec (λ v. v < 2 ^ 8) 1 (λ v. v) (λ v. v) (be_bytes 1) (length-be_bytes 1)
      (λ v h. one_byte v) load_one_byte

-- `write_be_int8` and `read_be_int8` belong together: on a valid buffer, a signed number of 8 bits
-- whose one byte in two's complement fits is written whole behind what was there, one whose bytes do
-- not fit is refused, and where its bytes come next it is read back and they alone are taken.
pub int8-Codec : Codec (InBits 8) write_be_int8 read_be_int8 (λ z. be_bytes 1 (to_bits 8 z))
unfolding write_be_int8 read_be_int8
int8-Codec =
    fixed-Codec (InBits 8) 1 (to_bits 8) (of_bits 8) (λ z. be_bytes 1 (to_bits 8 z))
      (λ z. length-be_bytes 1 (to_bits 8 z)) (λ z h. one_byte (to_bits 8 z))
      (λ z h. ap (of_bits 8) (load_one_byte (to_bits 8 z) (to_bits8-lt z)) ∙ of_bits-to_bits8 z h)

-- `write_be_int16` and `read_be_int16` belong together: on a valid buffer, a signed number of 16 bits
-- whose two bytes in two's complement, highest first, fit is written whole behind what was there, one
-- whose bytes do not fit is refused, and where its bytes come next it is read back and they alone are
-- taken.
pub int16-Codec : Codec (InBits 16) write_be_int16 read_be_int16 (λ z. be_bytes 2 (to_bits 16 z))
unfolding write_be_int16 read_be_int16
int16-Codec =
    fixed-Codec (InBits 16) 2 (λ z. byte_swap 2 (to_bits 16 z)) (λ v. of_bits 16 (byte_swap 2 v))
      (λ z. be_bytes 2 (to_bits 16 z)) (λ z. length-be_bytes 2 (to_bits 16 z))
      (λ z h. store_le-byte_swap 2 (to_bits 16 z))
      (λ z h.
        ap (of_bits 16) (byte_swap-be_bytes 2 (to_bits 16 z) (to_bits16-lt z))
        ∙ of_bits-to_bits16 z h)

-- `write_be_int32` and `read_be_int32` belong together: on a valid buffer, a signed number of 32 bits
-- whose four bytes in two's complement, highest first, fit is written whole behind what was there, one
-- whose bytes do not fit is refused, and where its bytes come next it is read back and they alone are
-- taken.
pub int32-Codec : Codec (InBits 32) write_be_int32 read_be_int32 (λ z. be_bytes 4 (to_bits 32 z))
unfolding write_be_int32 read_be_int32 host_to_network4
int32-Codec =
    fixed-Codec (InBits 32) 4 (λ z. byte_swap 4 (to_bits 32 z)) (λ v. of_bits 32 (byte_swap 4 v))
      (λ z. be_bytes 4 (to_bits 32 z)) (λ z. length-be_bytes 4 (to_bits 32 z))
      (λ z h. store_le-byte_swap 4 (to_bits 32 z))
      (λ z h.
        ap (of_bits 32) (byte_swap-be_bytes 4 (to_bits 32 z) (to_bits32-lt z))
        ∙ of_bits-to_bits32 z h)

-- `write_be_int64` and `read_be_int64` belong together: on a valid buffer, a signed number of 64 bits
-- whose eight bytes in two's complement, highest first, fit is written whole behind what was there,
-- one whose bytes do not fit is refused, and where its bytes come next it is read back and they alone
-- are taken.
pub int64-Codec : Codec (InBits 64) write_be_int64 read_be_int64 (λ z. be_bytes 8 (to_bits 64 z))
unfolding write_be_int64 read_be_int64
int64-Codec =
    fixed-Codec (InBits 64) 8 (λ z. host_to_network8 (to_bits 64 z))
      (λ v. of_bits 64 (network_to_host8 v)) (λ z. be_bytes 8 (to_bits 64 z))
      (λ z. length-be_bytes 8 (to_bits 64 z))
      (λ z h. store_le-host_to_network8 (to_bits 64 z) (to_bits64-lt z))
      (λ z h.
        ap (of_bits 64) (network_to_host8-be_bytes (to_bits 64 z) (to_bits64-lt z))
        ∙ of_bits-to_bits64 z h)

-- `write_le_int32` and `read_le_int` belong together: on a valid buffer, a signed number of 32 bits
-- whose four bytes in two's complement, lowest first, fit is written whole behind what was there, one
-- whose bytes do not fit is refused, and where its bytes come next it is read back and they alone are
-- taken.
pub le_int32-Codec : Codec (InBits 32) write_le_int32 read_le_int (λ z. store_le 4 (to_bits 32 z))
unfolding write_le_int32 read_le_int
le_int32-Codec = record {
  writes = λ b z v h fits.
      rw (write_buf-ok b v (store_le 4 (to_bits 32 z)) fits)
        (filled-Written b (store_le 4 (to_bits 32 z)) v fits);
  refuses = λ b z v h full. ap (λ r. r.0) (write_buf-fail b v (store_le 4 (to_bits 32 z)) full);
  reads = λ b z tail v h e.
      let n = to_bits 32 z in
      rw (
        read_val-ok b v (store_le 4 n) tail 4 (length-store_le 4 n) e,
        load_le-store_le 4 n (to_bits32-lt z),
        of_bits-to_bits32 z h,
        length-store_le 4 n,
      );
}

abbrev pub bool_byte : Bool → List ℕ
bool_byte v = (if v then 1 else 0) ∷ []

-- `write_bool` and `read_bool` belong together: on a valid buffer, a Boolean whose one byte, 1 or 0,
-- fits is written whole behind what was there, one whose bytes do not fit is refused, and where its
-- bytes come next it is read back and they alone are taken.
pub bool-Codec : Codec (λ v. Unit {0}) write_bool read_bool bool_byte
unfolding write_bool read_bool store_le load_le
bool-Codec = record { writes = writes; refuses = refuses; reads = reads }
  where
    writes :
        (b : ByteBuffer) (v : Bool)
        → IsValid b
        → Unit {0}
        → length (bool_byte v) ≤ room (view b)
        → Written b (bool_byte v) (write_bool v b)
    writes b true vb h fits = rw (write-ok b vb (1 ∷ []) fits) (filled-Written b (1 ∷ []) vb fits)
    writes b false vb h fits = rw (write-ok b vb (0 ∷ []) fits) (filled-Written b (0 ∷ []) vb fits)

    refuses :
        (b : ByteBuffer) (v : Bool)
        → IsValid b
        → Unit {0}
        → room (view b) < length (bool_byte v)
        → (write_bool v b).0 ≡ false
    refuses b true vb h full = ap (λ r. r.0) (write-fail b vb (1 ∷ []) full)
    refuses b false vb h full = ap (λ r. r.0) (write-fail b vb (0 ∷ []) full)

    reads :
        (b : ByteBuffer) (v : Bool) (tail : List ℕ)
        → IsValid b
        → Unit {0}
        → (view b).rest ≡ bool_byte v ++ tail
        → read_bool b ≡ (ok v, moved b (length (bool_byte v)))
    reads b true tail vb h e = rw (read_val-ok b vb (1 ∷ []) tail 1 refl e)
    reads b false tail vb h e = rw (read_val-ok b vb (0 ∷ []) tail 1 refl e)

-- Each number's writing and reading method belong together: the unsigned ones of 16, 32 and 64 bits, the
-- signed ones of 8, 16, 32 and 64 bits, the unsigned one of 8 bits, the float and the double as bit
-- patterns, the number with its lowest byte first, and the Boolean. On a valid buffer, a value in range
-- whose bytes fit is written whole behind what was there, one whose bytes do not fit is refused, and
-- where its bytes come next it is read back and they alone are taken.
pub number_codecs :
    Codec (λ v. v < 2 ^ 16) write_be_uint16 read_be_uint16 (be_bytes 2)
    × Codec (λ v. v < 2 ^ 32) write_be_uint32 read_be_uint32 (be_bytes 4)
    × Codec (λ v. v < 2 ^ 64) write_be_uint64 read_be_uint64 (be_bytes 8)
    × Codec (InBits 8) write_be_int8 read_be_int8 (λ z. be_bytes 1 (to_bits 8 z))
    × Codec (InBits 16) write_be_int16 read_be_int16 (λ z. be_bytes 2 (to_bits 16 z))
    × Codec (InBits 32) write_be_int32 read_be_int32 (λ z. be_bytes 4 (to_bits 32 z))
    × Codec (InBits 64) write_be_int64 read_be_int64 (λ z. be_bytes 8 (to_bits 64 z))
    × Codec (λ v. v < 2 ^ 8) write_be_uint8 read_be_uint8 (be_bytes 1)
    × Codec (λ v. v < 2 ^ 32) write_be_float read_be_float (be_bytes 4)
    × Codec (λ v. v < 2 ^ 64) write_be_double read_be_double (be_bytes 8)
    × Codec (InBits 32) write_le_int32 read_le_int (λ z. store_le 4 (to_bits 32 z))
    × Codec (λ v. Unit {0}) write_bool read_bool bool_byte
number_codecs = (
  uint16-Codec, uint32-Codec, uint64-Codec, int8-Codec, int16-Codec, int32-Codec, int64-Codec,
  uint8-Codec, float-Codec, double-Codec, le_int32-Codec, bool-Codec,
)
