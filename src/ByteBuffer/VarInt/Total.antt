-- ===== src/ByteBuffer/VarInt/Total.antt =====
-- The loop of `ReadVarInt32` and `ReadVarInt64` (Src/Common/ByteBuffer.cpp) ends on every input.
use p2pchat.Prelude.{
  ℕ, zero, suc, ◌+◌, ◌%◌, ◌^◌, ◌≤◌, ◌<◌, ◌≡◌, ◌≢◌, refl, ap, List, [], ◌∷◌, length, leb, ◌==◌,
  bit_and, bit_or, take, ◌*◌, Bool-cases, inl, inr, arith,
}
use p2pchat.Outcome.{Outcome, ok, fail, undefined, exited, stuck, continue, pure}
use p2pchat.ByteBuffer.Endian.{load_le}
use p2pchat.ByteBuffer.Valid.{IsValid, view, readable_space_lem}
use p2pchat.ByteBuffer.Codec.{moved_front-IsValid, moved_front-rest}
use p2pchat.ByteBuffer.Read.{moved, read_buf-ok, need_bytes-ok}
use p2pchat.ByteBuffer.VarInt.Loop.{round_empty}
use p2pchat.ByteBuffer.VarInt.{add_group, read_loop, read_var_int64, read_var_int}
use p2pchat.ByteBuffer.{ByteBuffer, get_readable_space}

-- The read ends, the buffer stays valid, and where a value came, a byte at least was taken.
pub record Ends (b : ByteBuffer) (r : Outcome ℕ × ByteBuffer) : Type 0 where
  pub valid : IsValid r.1
  pub fewer : length (view r.1).rest ≤ length (view b).rest
  pub ended : r.0 ≢ stuck
  pub taken : (v : ℕ) → r.0 ≡ ok v → length (view r.1).rest < length (view b).rest

-- What follows the byte of a round, by whether the shift is too wide and whether it is the last byte.
pub read_loop-Ends :
    (w fuel value shift : ℕ) (b : ByteBuffer) (xs : List ℕ)
    → IsValid b
    → (view b).rest ≡ xs
    → length xs < fuel
    → Ends b (read_loop w fuel value shift b)
unfolding read_loop add_group
read_loop-Ends w zero value shift b xs v e few = absurd (omega arith)
read_loop-Ends w (suc fuel) value shift b [] v e few =
    rw (round_empty w fuel value shift b v e)
      (record { valid = v; fewer = omega arith; ended = λ x. cc; taken = λ n x. cc })
read_loop-Ends w (suc fuel) value shift b (x ∷ xs) v e few =
    let one : 1 ≤ length (view b).rest = omega (arith, ap length e) in
    let valid = moved_front-IsValid b (x ∷ []) xs v e in
    let rest = moved_front-rest b (x ∷ []) xs v e in
    let less : length (view (moved b 1)).rest < length (view b).rest =
      omega (arith, ap length rest, ap length e) in
    let byte = load_le (take 1 (view b).rest) in
    elim (Bool-cases (leb w shift)) [
      | inl far ↦
          rw (need_bytes-ok b v 1 one, read_buf-ok b v 1 one, far)
            (record { valid = valid; fewer = omega arith; ended = λ y. cc; taken = λ n y. cc })
      | inr near ↦ elim (Bool-cases (bit_and byte 0x80 == 0)) [
        | inl last ↦
            rw (need_bytes-ok b v 1 one, read_buf-ok b v 1 one, near, last)
              (record { valid = valid; fewer = omega arith; ended = λ y. cc; taken = λ n y. less })
        | inr more ↦
            let value' = bit_or value (bit_and byte 0x7f * 2 ^ shift % 2 ^ w) in
            let later =
              read_loop-Ends w fuel value' (shift + 7) (moved b 1) xs valid rest (omega arith) in
            rw (need_bytes-ok b v 1 one, read_buf-ok b v 1 one, near, more)
              (record {
                valid = later.valid;
                fewer = omega (arith, later.fewer);
                ended = later.ended;
                taken = λ n y. omega (arith, later.fewer);
              })
      ]
    ]

-- The 64 bits cut to 32.
cut-Ends :
    (b : ByteBuffer) (r : Outcome ℕ × ByteBuffer)
    → Ends b r
    → Ends b (continue r (λ v. pure (v % 2 ^ 32)))
cut-Ends b (ok v, b') h = record {
  valid = h.valid;
  fewer = h.fewer;
  ended = λ y. cc;
  taken = λ n y. h.taken v refl;
}
cut-Ends b (fail, b') h = record {
  valid = h.valid;
  fewer = h.fewer;
  ended = λ y. cc;
  taken = λ n y. cc;
}
cut-Ends b (undefined, b') h = record {
  valid = h.valid;
  fewer = h.fewer;
  ended = λ y. cc;
  taken = λ n y. cc;
}
cut-Ends b (exited, b') h = record {
  valid = h.valid;
  fewer = h.fewer;
  ended = λ y. cc;
  taken = λ n y. cc;
}
cut-Ends b (stuck, b') h = absurd (h.ended refl)

pub read_var_int-Ends : (b : ByteBuffer) → IsValid b → Ends b (read_var_int b)
unfolding read_var_int read_var_int64
read_var_int-Ends b v = cut-Ends b (read_loop 64 (suc (get_readable_space b)) 0 0 b) (
    read_loop-Ends 64 (suc (get_readable_space b)) 0 0 b (view b).rest v refl
      (omega (arith, readable_space_lem b v)))
