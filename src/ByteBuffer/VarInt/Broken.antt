-- ===== src/ByteBuffer/VarInt/Broken.antt =====
-- Input that is no number of variable length (`ReadVarInt32` and `ReadVarInt64` of
-- Src/Common/ByteBuffer.cpp): it ends too early, or goes on too long.
use p2pchat.Prelude.{
  ℕ, zero, suc, ◌+◌, ◌*◌, ◌/◌, ◌%◌, ◌^◌, ◌≤◌, ◌<◌, ◌≡◌, sym, ap, ◌∙◌, List, [], ◌∷◌, ◌++◌, length,
  length-append, get_or, drop, ltb, ltb→le, ltb→lt, All, Bool-cases, inl, inr, ◌⊎◌, leb→le, leb→lt,
  leb, arith,
}
use p2pchat.Outcome.{fail, undefined}
use p2pchat.ByteBuffer.Valid.{IsValid, view, readable_space_lem}
use p2pchat.ByteBuffer.Codec.{moved_front-IsValid, moved_front-rest}
use p2pchat.ByteBuffer.Read.{moved, moved-moved}
use p2pchat.ByteBuffer.VarInt.Groups.{groups}
use p2pchat.ByteBuffer.VarInt.Loop.{round_more, round_empty, round_too_far, joined}
use p2pchat.ByteBuffer.VarInt.{read_loop, read_var_int64, read_var_int32}
use p2pchat.ByteBuffer.{ByteBuffer}

moved_none : (b : ByteBuffer) → IsValid b → moved b 0 ≡ b
moved_none b v = ap (λ n. record b { read_pos = n }) (ground arith)

-- A number whose last bytes are missing is not read, and what was there has been passed.
pub read_loop-short :
    (k w fuel v value shift : ℕ) (b : ByteBuffer) (xs : List ℕ) (y : ℕ) (ys : List ℕ)
    → IsValid b
    → v < 128 ^ suc k
    → shift + 7 * k < w
    → length xs < fuel
    → groups k v ≡ xs ++ y ∷ ys
    → (view b).rest ≡ xs
    → read_loop w fuel value shift b ≡ (fail, moved b (length xs))
unfolding groups
read_loop-short k w zero v value shift b xs y ys vb hv hs hf g e = absurd (omega arith)
read_loop-short k w (suc fuel) v value shift b [] y ys vb hv hs hf g e =
    round_empty w fuel value shift b vb e ∙ ap (λ c. (fail, c)) (sym (moved_none b vb))
read_loop-short zero w (suc fuel) v value shift b (x ∷ xs) y ys vb hv hs hf g e =
    absurd (omega (arith, ap length g, length-append xs (y ∷ ys)))
read_loop-short (suc k) w (suc fuel) v value shift b (x ∷ xs) y ys vb hv hs hf g e =
    elim (Bool-cases (ltb v 128)) [
      | inl small ↦ absurd (omega (arith, ap length (rw small at g), length-append xs (y ∷ ys)))
      | inr big ↦
          let whole : (v % 128 + 128) ∷ groups k (v / 128) ≡ x ∷ (xs ++ y ∷ ys) = rw big at g in
          let head : v % 128 + 128 ≡ x = ap (λ l. get_or l 0 0) whole in
          let rest : groups k (v / 128) ≡ xs ++ y ∷ ys = ap (drop 1) whole in
          round_more w value shift b x xs vb e fuel (omega arith) (omega (arith, head))
            (omega (arith, head))
          ∙ read_loop-short k w fuel (v / 128) (joined w value x shift) (shift + 7) (moved b 1) xs y
              ys (moved_front-IsValid b (x ∷ []) xs vb e) (omega arith) (omega arith) (omega arith)
              rest (moved_front-rest b (x ∷ []) xs vb e)
          ∙ ap (λ c. (fail, c))
              (moved-moved b 1 (length xs) vb (omega (arith, ap length e))
                ∙ ap (moved b) (omega arith))
    ]

-- Bytes that all say that another one follows.
abbrev pub AllMarked : List ℕ → Type 0
AllMarked = All (λ x. (128 ≤ x) × (x < 256))

-- Where the shift has come to the width and a byte is there, C++ leaves the result undefined.
read_loop_long :
    (w fuel value shift : ℕ) (b : ByteBuffer) (xs : List ℕ) (y : ℕ) (tail : List ℕ)
    → IsValid b
    → AllMarked xs
    → length xs < fuel
    → w ≤ shift + 7 * length xs
    → (view b).rest ≡ xs ++ y ∷ tail
    → (read_loop w fuel value shift b).0 ≡ undefined
read_loop_long w zero value shift b xs y tail vb h hf hs e = absurd (omega arith)
read_loop_long w (suc fuel) value shift b [] y tail vb h hf hs e =
    ap (λ r. r.0) (round_too_far w value shift b y tail vb e fuel (omega arith))
read_loop_long w (suc fuel) value shift b (x ∷ xs) y tail vb ((low, high), h) hf hs e =
    elim (Bool-cases (leb w shift)) [
      | inl far ↦
          ap (λ r. r.0)
            (round_too_far w value shift b x (xs ++ y ∷ tail) vb e fuel (leb→le _ _ far))
      | inr near ↦
          ap (λ r. r.0)
            (round_more w value shift b x (xs ++ y ∷ tail) vb e fuel (leb→lt _ _ near) low high)
          ∙ read_loop_long w fuel (joined w value x shift) (shift + 7) (moved b 1) xs y tail
              (moved_front-IsValid b (x ∷ []) (xs ++ y ∷ tail) vb e) h (omega arith) (omega arith)
              (moved_front-rest b (x ∷ []) (xs ++ y ∷ tail) vb e)
    ]

-- On a valid buffer, `read_var_int64` comes to an undefined shift where ten unread bytes with the top
-- bit set stand before another byte, and `read_var_int32` where five do.
pub overlong_undefined :
    (b : ByteBuffer) (xs : List ℕ) (y : ℕ) (tail : List ℕ)
    → IsValid b
    → AllMarked xs
    → (view b).rest ≡ xs ++ y ∷ tail
    → 5 ≤ length xs
    → ((read_var_int32 b).0 ≡ undefined) × ((length xs < 10) ⊎ ((read_var_int64 b).0 ≡ undefined))
unfolding read_var_int32 read_var_int64
overlong_undefined b xs y tail vb h e few =
    let n = readable_space_lem b vb in
    let size = length-append xs (y ∷ tail) in
    (
      rw n (
          read_loop_long 32 _ 0 0 b xs y tail vb h (omega (arith, ap length e, size)) (omega arith)
            e),
      elim (Bool-cases (ltb (length xs) 10)) [
        | inl short ↦ inl (ltb→lt _ _ short)
        | inr long ↦
            let ten : 10 ≤ length xs = ltb→le _ _ long in
            inr (
              rw n (
                read_loop_long 64 _ 0 0 b xs y tail vb h (omega (arith, ap length e, size))
                  (omega arith) e))
      ],
    )
