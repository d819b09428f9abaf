-- ===== src/ByteBuffer/Strings/Codecs.antt =====
-- A string with its length before it is read as it was written; and what a buffer with too little room
-- is left with (`WriteVarUTF8String` of Src/Common/ByteBuffer.cpp).
use p2pchat.Prelude.{
  ℕ, ◌+◌, ◌%◌, ◌^◌, ◌≤◌, ◌<◌, ◌≡◌, refl, ap, ◌∙◌, Bool, true, false, List, ◌++◌, length,
  length-append, arith, append_assoc, leb, le→leb, take-append, inl, inr, Bool-cases, leb→le,
  leb→lt,
}
use p2pchat.Outcome.{ok}
use p2pchat.ByteBuffer.Stream.{room, extend}
use p2pchat.ByteBuffer.Valid.{IsValid, view}
use p2pchat.ByteBuffer.Codec.{Codec, Written, filled-Written, moved_front-IsValid, moved_front-rest}
use p2pchat.ByteBuffer.Write.{can_write_lem}
use p2pchat.ByteBuffer.Read.{moved, moved-moved, read_buf-ok, read_string-eq-read_buf}
use p2pchat.ByteBuffer.Numbers.Widths.{write_buf-ok, write_buf-fail}
use p2pchat.ByteBuffer.VarInt.{write_var_int32}
use p2pchat.ByteBuffer.VarInt.Groups.{groups, groups_shape}
use p2pchat.ByteBuffer.VarInt.Codecs.{var_int-Codec}
use p2pchat.ByteBuffer.{ByteBuffer, write_buf}
use p2pchat.ByteBuffer.Strings.{read_var_utf8_string, write_body, write_var_utf8_string}

-- The length, and the bytes.
abbrev pub string_bytes : List ℕ → List ℕ
string_bytes s = groups 4 (length s) ++ s

abbrev pub IsShort : List ℕ → Type 0
IsShort s = length s < 2 ^ 32

module _ (s : List ℕ) (h : IsShort s) where
  length_lt : length s % 2 ^ 32 ≡ length s
  length_lt = omega arith

  prefix_one : 1 ≤ length (groups 4 (length s))
  prefix_one = (groups_shape 4 (length s) (omega arith)).1

  length-string_bytes : length (string_bytes s) ≡ length (groups 4 (length s)) + length s
  length-string_bytes = length-append (groups 4 (length s)) s

  Written-body :
      (b : ByteBuffer) (r : Bool × ByteBuffer)
      → Written b (groups 4 (length s)) r
      → length (string_bytes s) ≤ room (view b)
      → Written b (string_bytes s) (write_buf r.1 s)
  Written-body b r w fits =
      let left : length s ≤ room (view r.1) = omega (
        arith,
        length-string_bytes,
        ap room w.seen,
        length-append (view b).rest (groups 4 (length s)),
      ) in
      let body = filled-Written r.1 s w.valid left in
      rw (write_buf-ok r.1 w.valid s left) (record {
        answer = refl;
        valid = body.valid;
        seen =
            body.seen
            ∙ ap (λ q. extend q s) w.seen
            ∙ ap (λ ys. record (view b) { rest = ys })
                (append_assoc (view b).rest (groups 4 (length s)) s);
      })

write_body-ok : (s : List ℕ) (r : Bool × ByteBuffer) → r.0 ≡ true → write_body s r ≡ write_buf r.1 s
unfolding write_body
write_body-ok s (true, b) e = refl
write_body-ok s (false, b) e = cc

write_body-fail : (s : List ℕ) (r : Bool × ByteBuffer) → r.0 ≡ false → (write_body s r).0 ≡ false
unfolding write_body
write_body-fail s (false, b) e = refl
write_body-fail s (true, b) e = cc

string_writes :
    (b : ByteBuffer) (s : List ℕ)
    → IsValid b
    → IsShort s
    → length (string_bytes s) ≤ room (view b)
    → Written b (string_bytes s) (write_var_utf8_string s b)
unfolding write_var_utf8_string
string_writes b s vb h fits =
    let guard : length s + 1 ≤ room (view b) =
      omega (arith, length-string_bytes s h, prefix_one s h) in
    let w = var_int-Codec.writes b (length s) vb h (omega (arith, length-string_bytes s h)) in
    rw
      (
        can_write_lem b vb s (length s + 1),
        le→leb _ _ guard,
        length_lt s h,
        write_body-ok s (write_var_int32 (length s) b) w.answer,
      )
      (Written-body s h b _ w fits)

body_refuses :
    (b : ByteBuffer) (s : List ℕ)
    → IsValid b
    → IsShort s
    → room (view b) < length (string_bytes s)
    → length s + 1 ≤ room (view b)
    → (write_body s (write_var_int32 (length s) b)).0 ≡ false
body_refuses b s vb h full guard =
    elim (Bool-cases (leb (length (groups 4 (length s))) (room (view b)))) [
      | inr lacks ↦ write_body-fail s _ (var_int-Codec.refuses b (length s) vb h (leb→lt _ _ lacks))
      | inl fits ↦
          let w = var_int-Codec.writes b (length s) vb h (leb→le _ _ fits) in
          let short : room (view (write_var_int32 (length s) b).1) < length s = omega (
            arith,
            leb→le _ _ fits,
            length-string_bytes s h,
            ap room w.seen,
            length-append (view b).rest (groups 4 (length s)),
          ) in
          ap (λ r. r.0) (write_body-ok s (write_var_int32 (length s) b) w.answer)
          ∙ ap (λ r. r.0) (write_buf-fail _ w.valid s short)
    ]

string_refuses :
    (b : ByteBuffer) (s : List ℕ)
    → IsValid b
    → IsShort s
    → room (view b) < length (string_bytes s)
    → (write_var_utf8_string s b).0 ≡ false
unfolding write_var_utf8_string
string_refuses b s vb h full = elim (Bool-cases (leb (length s + 1) (room (view b)))) [
  | inr lacks ↦ rw (can_write_lem b vb s (length s + 1), lacks) refl
  | inl guard ↦
      rw (can_write_lem b vb s (length s + 1), guard, length_lt s h)
        (body_refuses b s vb h full (leb→le _ _ guard))
]

string_reads :
    (b : ByteBuffer) (s tail : List ℕ)
    → IsValid b
    → IsShort s
    → (view b).rest ≡ string_bytes s ++ tail
    → read_var_utf8_string b ≡ (ok s, moved b (length (string_bytes s)))
unfolding read_var_utf8_string
string_reads b s tail vb h e =
    let front : (view b).rest ≡ groups 4 (length s) ++ (s ++ tail) =
      e ∙ append_assoc (groups 4 (length s)) s tail in
    let vm = moved_front-IsValid b (groups 4 (length s)) (s ++ tail) vb front in
    let rest = moved_front-rest b (groups 4 (length s)) (s ++ tail) vb front in
    let both : length (groups 4 (length s)) + length s ≤ length (view b).rest = omega (
      arith,
      ap length front,
      length-append (groups 4 (length s)) (s ++ tail),
      length-append s tail,
    ) in
    let enough : length s ≤ length (view (moved b (length (groups 4 (length s))))).rest =
      rw rest (omega (arith, length-append s tail)) in
    rw
      (
        var_int-Codec.reads b (length s) (s ++ tail) vb h front,
        read_string-eq-read_buf (moved b (length (groups 4 (length s)))) (length s),
        read_buf-ok _ vm (length s) enough,
        rest,
        take-append s tail (length s) refl,
        moved-moved b (length (groups 4 (length s))) (length s) vb both,
        length-string_bytes s h,
      )
      refl

-- `write_var_utf8_string` and `read_var_utf8_string` belong together: on a valid buffer, a string
-- shorter than 2^32 bytes whose length, as a number of variable length, and bytes fit is written whole
-- behind what was there, one that does not fit is answered with `false`, and where its length and
-- bytes come next it is read back and they alone are taken.
pub string-Codec : Codec IsShort write_var_utf8_string read_var_utf8_string string_bytes
string-Codec = record { writes = string_writes; refuses = string_refuses; reads = string_reads }
