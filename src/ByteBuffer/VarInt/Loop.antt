-- ===== src/ByteBuffer/VarInt/Loop.antt =====
-- The loop of `ReadVarInt32` and `ReadVarInt64` of Src/Common/ByteBuffer.cpp: one round, the groups of a
-- number, and input that no writer makes.
use p2pchat.Prelude.{
  ℕ, zero, suc, ◌+◌, ◌*◌, ◌/◌, ◌%◌, ◌^◌, ◌≤◌, ◌<◌, ◌≡◌, sym, ap, ap₂, ◌∙◌, List, [], ◌∷◌, ◌++◌,
  length, length-append, ltb, ◌==◌, bit_and, bit_or, bit_and-mask, bit_and-top, bit_or-add,
  Bool-cases, inl, inr, lt→leb, le→leb, ltb→lt, ltb→le, true, false, arith, take,
}
use p2pchat.Outcome.{ok, fail, undefined}
use p2pchat.ByteBuffer.Endian.{load_le, IsByte}
use p2pchat.ByteBuffer.Valid.{IsValid, view}
use p2pchat.ByteBuffer.Codec.{moved_front-IsValid, moved_front-rest}
use p2pchat.ByteBuffer.Read.{need_bytes-ok, need_bytes-fail, read_buf-ok, moved, moved-suc}
use p2pchat.ByteBuffer.{ByteBuffer}
use p2pchat.ByteBuffer.VarInt.{add_group, read_loop}
use p2pchat.ByteBuffer.VarInt.Groups.{groups, groups_shape}
use native.Mathlib.Nat.{mod-add-div, mod-eq_of_lt, suc-le-suc_iff}
use native.Mathlib.Numerals.{towards_suc}

load_le-one : (x : ℕ) → load_le (x ∷ []) ≡ x
unfolding load_le
load_le-one x = omega arith

-- The value after a round.
abbrev pub joined : ℕ → ℕ → ℕ → ℕ → ℕ
joined w value byte shift = bit_or value (byte % 128 * 2 ^ shift % 2 ^ w)

module _ (w value shift : ℕ) (b : ByteBuffer) (byte : ℕ) (tail : List ℕ) (v : IsValid b)
    (e : (view b).rest ≡ byte ∷ tail) where
  one_le : 1 ≤ length (view b).rest
  one_le = rw e (omega arith)

  front : take 1 (view b).rest ≡ byte ∷ []
  front = rw e

  pub round_last :
      (fuel : ℕ)
      → shift < w
      → byte < 128
      → read_loop w (suc fuel) value shift b ≡ (ok (joined w value byte shift), moved b 1)
  unfolding read_loop add_group
  round_last fuel h small =
      let top : (bit_and byte 0x80 == 0) ≡ true = ground (arith, bit_and-top byte) in
      rw (
        need_bytes-ok b v 1 one_le,
        read_buf-ok b v 1 one_le,
        front,
        load_le-one byte,
        lt→leb w shift h,
        top,
        bit_and-mask 7 byte,
      )

  pub round_more :
      (fuel : ℕ)
      → shift < w
      → 128 ≤ byte
      → IsByte byte
      → read_loop w (suc fuel) value shift b
        ≡ read_loop w fuel (joined w value byte shift) (shift + 7) (moved b 1)
  unfolding read_loop add_group
  round_more fuel h big is_byte =
      let top : (bit_and byte 0x80 == 0) ≡ false = ground (arith, bit_and-top byte) in
      rw (
        need_bytes-ok b v 1 one_le,
        read_buf-ok b v 1 one_le,
        front,
        load_le-one byte,
        lt→leb w shift h,
        top,
        bit_and-mask 7 byte,
      )

  pub round_too_far :
      (fuel : ℕ) → w ≤ shift → read_loop w (suc fuel) value shift b ≡ (undefined, moved b 1)
  unfolding read_loop add_group
  round_too_far fuel h =
      rw (need_bytes-ok b v 1 one_le, read_buf-ok b v 1 one_le, front, le→leb w shift h)

pub round_empty :
    (w fuel value shift : ℕ) (b : ByteBuffer)
    → IsValid b
    → (view b).rest ≡ []
    → read_loop w (suc fuel) value shift b ≡ (fail, b)
unfolding read_loop
round_empty w fuel value shift b v e = rw (need_bytes-fail b v 1 (rw e (omega arith)))

two-pow-add_seven : (s : ℕ) → 2 ^ (s + 7) ≡ 128 * 2 ^ s
two-pow-add_seven s = simp towards_suc (omega arith)

-- The low group and the others, counted from bit `s` on.
split_groups : (v s : ℕ) → v * 2 ^ s ≡ v % 128 * 2 ^ s + v / 128 * 2 ^ (s + 7)
split_groups v s =
    let parts : v * 2 ^ s ≡ (v % 128 + 128 * (v / 128)) * 2 ^ s =
      ap (λ t. t * 2 ^ s) (sym (mod-add-div v 128)) in
    omega (arith, parts, ap (λ t. v / 128 * t) (two-pow-add_seven s))

joined-lem :
    (w value g shift : ℕ)
    → value < 2 ^ shift
    → g < 128
    → value + g * 2 ^ shift < 2 ^ w
    → bit_or value (g * 2 ^ shift % 2 ^ w) ≡ value + g * 2 ^ shift
joined-lem w value g shift hv hg fits =
    let small : g * 2 ^ shift < 2 ^ w = omega arith in
    rw (mod-eq_of_lt small) (bit_or-add shift value g hv)

joined_small :
    (w value g shift : ℕ)
    → value < 2 ^ shift
    → g < 128
    → value + g * 2 ^ shift < 2 ^ w
    → joined w value g shift ≡ value + g * 2 ^ shift
joined_small w value g shift hv hg fits =
    let e : g % 128 ≡ g = omega arith in rw e (joined-lem w value g shift hv hg fits)

joined_marked :
    (w value g shift : ℕ)
    → value < 2 ^ shift
    → g < 128
    → value + g * 2 ^ shift < 2 ^ w
    → joined w value (g + 128) shift ≡ value + g * 2 ^ shift
joined_marked w value g shift hv hg fits =
    let e : (g + 128) % 128 ≡ g = omega arith in rw e (joined-lem w value g shift hv hg fits)

group_fits : (value g p : ℕ) → value < p → g < 128 → value + g * p < 128 * p
group_fits value g p h k = grind arith

-- The groups of a number are read to the number, and exactly they are taken.
pub read_loop-groups :
    (k w fuel v value shift : ℕ) (b : ByteBuffer) (tail : List ℕ)
    → IsValid b
    → v < 128 ^ suc k
    → value < 2 ^ shift
    → value + v * 2 ^ shift < 2 ^ w
    → shift + 7 * k < w
    → length (groups k v) ≤ fuel
    → (view b).rest ≡ groups k v ++ tail
    → read_loop w fuel value shift b ≡ (ok (value + v * 2 ^ shift), moved b (length (groups k v)))
unfolding groups
read_loop-groups k w zero v value shift b tail vb hv hval fits hs hf e =
    absurd (omega (arith, groups_shape k v hv))
read_loop-groups zero w (suc fuel) v value shift b tail vb hv hval fits hs hf e =
    round_last w value shift b v tail vb e fuel (omega arith) (omega arith)
    ∙ ap (λ x. (ok x, moved b 1)) (joined_small w value v shift hval (omega arith) fits)
read_loop-groups (suc k) w (suc fuel) v value shift b tail vb hv hval fits hs hf e =
    elim (Bool-cases (ltb v 128)) [
      | inl small ↦
          let h : v < 128 = ltb→lt v 128 small in
          rw small (
            round_last w value shift b v tail vb (rw small at e) fuel (omega arith) h
            ∙ ap (λ x. (ok x, moved b 1)) (joined_small w value v shift hval h fits))
      | inr big ↦
          let g = v % 128 in
          let h : 128 ≤ v = ltb→le v 128 big in
          let e' : (view b).rest ≡ (g + 128) ∷ (groups k (v / 128) ++ tail) = rw big at e in
          let parts = split_groups v shift in
          let now : value + g * 2 ^ shift < 2 ^ w = omega (arith, parts) in
          let total : value + g * 2 ^ shift + v / 128 * 2 ^ (shift + 7) ≡ value + v * 2 ^ shift =
            omega (arith, parts) in
          let small : value + g * 2 ^ shift < 2 ^ (shift + 7) =
            omega
              (arith, two-pow-add_seven shift, group_fits value g (2 ^ shift) hval (omega arith)) in
          let more : length (groups k (v / 128)) ≤ fuel = suc-le-suc_iff.0 (rw big at hf) in
          let rest = moved_front-rest b ((g + 128) ∷ []) (groups k (v / 128) ++ tail) vb e' in
          let valid = moved_front-IsValid b ((g + 128) ∷ []) (groups k (v / 128) ++ tail) vb e' in
          rw big (
            round_more w value shift b (g + 128) (groups k (v / 128) ++ tail) vb e' fuel
              (omega arith) (omega arith) (omega arith)
            ∙ ap (λ x. read_loop w fuel x (shift + 7) (moved b 1))
                (joined_marked w value g shift hval (omega arith) now)
            ∙ read_loop-groups k w fuel (v / 128) (value + g * 2 ^ shift) (shift + 7) (moved b 1)
                tail valid (omega arith) small (omega (arith, total)) (omega arith) more rest
            ∙ ap₂ (λ x s. (ok x, s)) total
                (moved-suc b (length (groups k (v / 128))) vb
                  (rw e' (omega (arith, length-append (groups k (v / 128)) tail)))))
    ]
