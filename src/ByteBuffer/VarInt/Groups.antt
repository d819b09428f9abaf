-- ===== src/ByteBuffer/VarInt/Groups.antt =====
-- What `WriteVarInt32` and `WriteVarInt64` of Src/Common/ByteBuffer.cpp write, in plain arithmetic.
use p2pchat.Prelude.{
  ℕ, zero, suc, ◌+◌, ◌/◌, ◌%◌, ◌^◌, ◌≤◌, ◌<◌, ◌≡◌, ◌∙◌, List, [], ◌∷◌, some, length, All, ltb,
  if◌then◌else◌, bit_and, bit_or, bit_and-mask, bit_or-add, Bool-cases, inl, inr, lt→ltb, le→ltb,
  ltb→lt, ltb→le, arith,
}
use p2pchat.ByteBuffer.Endian.{IsByte}
use p2pchat.ByteBuffer.VarInt.{var_bytes}

-- The groups of a number below `128 ^ suc k`.
unfoldable pub groups : ℕ → ℕ → List ℕ
groups zero v = v ∷ []
groups (suc k) v =
    let rest = groups k (v / 128) in if ltb v 128 then v ∷ [] else (v % 128 + 128) ∷ rest

last_byte : (v : ℕ) → v < 128 → bit_or (bit_and v 0x7f) (if ltb 0x7f v then 0x80 else 0x00) ≡ v
last_byte v h =
    rw (le→ltb 0x7f v (omega arith), bit_and-mask 7 v)
      (bit_or-add 7 (v % 2 ^ 7) 0 (omega arith) ∙ omega arith)

inner_byte :
    (v : ℕ) → 128 ≤ v → bit_or (bit_and v 0x7f) (if ltb 0x7f v then 0x80 else 0x00) ≡ v % 128 + 128
inner_byte v h =
    rw (lt→ltb 0x7f v (omega arith), bit_and-mask 7 v) (bit_or-add 7 (v % 2 ^ 7) 1 (omega arith))

var_bytes-one : (n v : ℕ) → v < 128 → var_bytes (suc n) v ≡ some (v ∷ [])
unfolding var_bytes
var_bytes-one n v h = rw (last_byte v h, le→ltb 0 (v / 2 ^ 7) (omega arith))

var_bytes-more :
    (n v : ℕ) (bytes : List ℕ)
    → 128 ≤ v
    → var_bytes n (v / 128) ≡ some bytes
    → var_bytes (suc n) v ≡ some ((v % 128 + 128) ∷ bytes)
unfolding var_bytes
var_bytes-more n v bytes h e = rw (inner_byte v h, lt→ltb 0 (v / 2 ^ 7) (omega arith), e)

-- A number that fits into `suc k` groups does not overrun an array of as many bytes.
pub var_bytes-groups : (k v : ℕ) → v < 128 ^ suc k → var_bytes (suc k) v ≡ some (groups k v)
unfolding groups
var_bytes-groups zero v h = var_bytes-one 0 v h
var_bytes-groups (suc k) v h = elim (Bool-cases (ltb v 128)) [
  | inl small ↦ rw small (var_bytes-one (suc k) v (ltb→lt v 128 small))
  | inr big ↦ rw big (
      var_bytes-more (suc k) v (groups k (v / 128)) (ltb→le v 128 big)
        (var_bytes-groups k (v / 128) (omega (arith))))
]

-- They are bytes, one at least and `suc k` at most.
pub groups_shape :
    (k v : ℕ)
    → v < 128 ^ suc k
    → All IsByte (groups k v) × (1 ≤ length (groups k v)) × (length (groups k v) ≤ suc k)
unfolding groups
groups_shape zero v h = omega arith
groups_shape (suc k) v h = ground (arith, groups_shape k (v / 128) (omega arith))
