-- ===== src/ByteBuffer/Strings.antt =====
-- The strings of Src/Common/ByteBuffer.cpp, and `RawBEToUTF8` of Src/Common/StringUtils.cpp. A string is
-- the list of its bytes.
pub mod Codecs
use p2pchat.Prelude.{
  ℕ, zero, suc, ◌+◌, ◌-◌, ◌*◌, ◌/◌, ◌%◌, ◌^◌, Bool, true, false, not, List, [], ◌∷◌, ◌++◌, length,
  ltb, if◌then◌else◌, ℤ, pos, negsuc, of_bits,
}
use p2pchat.Outcome.{Outcome, ok, fail, undefined, exited, stuck, Reader, pure, ◌>>=◌}
use p2pchat.ByteBuffer.Numbers.{read_be_uint16}
use p2pchat.ByteBuffer.VarInt.{read_var_int, write_var_int32}
use p2pchat.ByteBuffer.{ByteBuffer, can_write_bytes, read_string, write_buf}

-- The warning about a large size changes nothing.
unfoldable pub read_var_utf8_string : Reader ByteBuffer (List ℕ)
read_var_utf8_string = do size ← read_var_int; read_string size

-- Behind the length, if that was written.
unfoldable pub write_body : List ℕ → Bool × ByteBuffer → Bool × ByteBuffer
write_body s (false, b) = (false, b)
write_body s (true, b) = write_buf b s

unfoldable pub write_var_utf8_string : List ℕ → ByteBuffer → Bool × ByteBuffer
write_var_utf8_string s b =
    if not (can_write_bytes b (length s + 1))
    then (false, b)
    else write_body s (write_var_int32 (length s % 2 ^ 32) b)

-- `GetBEShort`: the two bytes as a signed `short`.
unfoldable pub get_be_short : ℕ → ℕ → ℤ
get_be_short hi lo = of_bits 16 (hi * 2 ^ 8 + lo)

-- The bytes pushed for one `int c`. `c - 0xd800 < 0x800` is a comparison of signed numbers, and
-- `static_cast<char>` of a negative one keeps its low byte.
unfoldable pub push_unit : ℤ → List ℕ
push_unit (negsuc n) = (255 - n % 256) ∷ []
push_unit (pos c) =
    if ltb c 0x80
    then c ∷ []
    else if ltb c 0x800
    then (192 + c / 64) ∷ (128 + c % 64) ∷ []
    else if ltb c (0xd800 + 0x800)
    then []
    else if ltb c 0x10000
    then (224 + c / 4096) ∷ (128 + c / 64 % 64) ∷ (128 + c % 64) ∷ []
    else if ltb c 0x110000
    then (240 + c / 262144) ∷ (128 + c / 4096 % 64) ∷ (128 + c / 64 % 64) ∷ (128 + c % 64) ∷ []
    else []

-- The loop over the units; there are two bytes for each.
unfoldable pub raw_be_to_utf8 : ℕ → List ℕ → List ℕ
raw_be_to_utf8 zero raw = []
raw_be_to_utf8 (suc n) (hi ∷ lo ∷ raw) = push_unit (get_be_short hi lo) ++ raw_be_to_utf8 n raw
raw_be_to_utf8 (suc n) _ = []

unfoldable pub read_utf16_string : ℕ → Reader ByteBuffer (List ℕ)
read_utf16_string n = do raw ← read_string (n * 2); pure (raw_be_to_utf8 n raw)

unfoldable pub read_be_utf16_string16 : Reader ByteBuffer (List ℕ)
read_be_utf16_string16 = do n ← read_be_uint16; read_utf16_string n
