-- ===== src/ByteBuffer/Transfer.antt =====
-- `ReadToByteBuffer` of Src/Common/ByteBuffer.cpp: bytes go from one buffer to another in chunks.
use p2pchat.Prelude.{
  ℕ, zero, suc, ◌-◌, ◌≤◌, ◌<◌, ◌^◌, ◌≡◌, refl, sym, ap, ap₂, ◌∙◌, [], ◌++◌, length, take, drop, ltb,
  leb, ◌==◌, inl, inr, ◌⊎◌, Bool-cases, true, leb→le, leb→lt, if◌then◌else◌, arith, append_assoc,
  append-nil, length-take, length-drop, length-append, take_split, drop_split,
}
use p2pchat.Outcome.{Outcome, ok, fail, ◌>>◌}
use p2pchat.ByteBuffer.Stream.{room, advance, extend}
use p2pchat.ByteBuffer.Valid.{IsValid, view, length-rest}
use p2pchat.ByteBuffer.Write.{write-ok, filled, filled-view, filled-IsValid, can_write_lem}
use p2pchat.ByteBuffer.Read.{read_buf-ok, moved, moved-view, moved-IsValid, can_read_lem}
use p2pchat.ByteBuffer.{
  ByteBuffer, chunk_size, sub_size, copy_chunk, deliver, copy_loop, read_to_byte_buffer,
}

copy_chunk_lem :
    (src dst : ByteBuffer) (n : ℕ)
    → IsValid src
    → IsValid dst
    → n ≤ length (view src).rest
    → n ≤ room (view dst)
    → copy_chunk n (src, dst) ≡ (ok tt, (moved src n, filled dst (take n (view src).rest)))
unfolding copy_chunk deliver
copy_chunk_lem src dst n vs vd enough fits =
    let xs = take n (view src).rest in
    let len : length xs ≤ room (view dst) = omega (arith, length-take n (view src).rest) in
    rw (read_buf-ok src vs n enough, write-ok dst vd xs len)

-- What a completed copy of `n` bytes leaves.
record Copied (src dst : ByteBuffer) (n : ℕ) (r : Outcome (Unit {0}) × (ByteBuffer × ByteBuffer))
    : Type 0 where
  pub done : r.0 ≡ ok tt
  pub src_valid : IsValid r.1.0
  pub dst_valid : IsValid r.1.1
  pub src_view : view r.1.0 ≡ advance (view src) n
  pub dst_view : view r.1.1 ≡ extend (view dst) (take n (view src).rest)

Copied-zero :
    (src dst : ByteBuffer) (n : ℕ)
    → IsValid src
    → IsValid dst
    → n ≡ 0
    → Copied src dst n (ok tt, (src, dst))
Copied-zero src dst n vs vd e = rw e (record {
  done = refl;
  src_valid = vs;
  dst_valid = vd;
  src_view = λ i. record (view src) { done = sym (append-nil (view src).done) i };
  dst_view = λ i. record (view dst) { rest = sym (append-nil (view dst).rest) i };
})

-- A copy of `m` bytes and then of the others is a copy of `n`.
Copied-step :
    (src dst : ByteBuffer) (m n : ℕ) (r : Outcome (Unit {0}) × (ByteBuffer × ByteBuffer))
    → IsValid src
    → IsValid dst
    → m ≤ n
    → n ≤ length (view src).rest
    → n ≤ room (view dst)
    → Copied (moved src m) (filled dst (take m (view src).rest)) (n - m) r
    → Copied src dst n r
Copied-step src dst m n r vs vd few enough fits c =
    let all = (view src).rest in
    let from = moved-view src vs m (omega arith) in
    let to = filled-view dst vd (take m all) (omega (arith, length-take m all)) in
    let left : (view (moved src m)).rest ≡ drop m all = ap (λ s. s.rest) from in
    let front = take_split m n all few in
    record {
      done = c.done;
      src_valid = c.src_valid;
      dst_valid = c.dst_valid;
      src_view =
          c.src_view
          ∙ ap (λ s. advance s (n - m)) from
          ∙ ap₂ (λ xs ys. record (view src) { done = xs; rest = ys })
              (append_assoc (view src).done (take m all) (take (n - m) (drop m all))
                ∙ ap (◌++◌ (view src).done) (sym front))
              (sym (drop_split m n all few));
      dst_view =
          c.dst_view
          ∙ ap₂ (λ s xs. extend s (take (n - m) xs)) to left
          ∙ ap (λ xs. record (view dst) { rest = xs })
              (append_assoc (view dst).rest (take m all) (take (n - m) (drop m all))
                ∙ ap (◌++◌ (view dst).rest) (sym front));
    }

module _ (src dst : ByteBuffer) (m n : ℕ) (vs : IsValid src) (vd : IsValid dst) (few : m ≤ n)
    (enough : n ≤ length (view src).rest) (fits : n ≤ room (view dst)) where
  chunk_fits : length (take m (view src).rest) ≤ room (view dst)
  chunk_fits = omega (arith, length-take m (view src).rest)

  rest_after : n - m ≤ length (view (moved src m)).rest
  rest_after = omega (
    arith,
    ap (λ s. length s.rest) (moved-view src vs m (omega arith)),
    length-drop m (view src).rest,
  )

  room_after : n - m ≤ room (view (filled dst (take m (view src).rest)))
  room_after = omega (
    arith,
    ap room (filled-view dst vd (take m (view src).rest) chunk_fits),
    length-append (view dst).rest (take m (view src).rest),
    length-take m (view src).rest,
  )

  copy_round :
      (fuel : ℕ)
      → n < 2 ^ 64
      → Copied
          (moved src m)
          (filled dst (take m (view src).rest))
          (n - m)
          (copy_loop fuel (n - m) (moved src m, filled dst (take m (view src).rest)))
      → Copied src dst n ((copy_chunk m >> copy_loop fuel (sub_size n m)) (src, dst))
  copy_round fuel hb c =
      let left : sub_size n m ≡ n - m = omega arith in
      rw (copy_chunk_lem src dst m vs vd (omega arith) (omega arith), left)
        (Copied-step src dst m n _ vs vd few enough fits c)

copy_loop-Copied :
    (fuel n : ℕ) (src dst : ByteBuffer)
    → n ≤ fuel
    → n < 2 ^ 64
    → IsValid src
    → IsValid dst
    → n ≤ length (view src).rest
    → n ≤ room (view dst)
    → Copied src dst n (copy_loop fuel n (src, dst))
unfolding copy_loop
copy_loop-Copied zero n src dst hf hb vs vd enough fits =
    let e : (n == 0) ≡ true = ground arith in rw e (Copied-zero src dst n vs vd (omega arith))
copy_loop-Copied (suc fuel) n src dst hf hb vs vd enough fits = elim (Bool-cases (n == 0)) [
  | inl none_left ↦ rw none_left (Copied-zero src dst n vs vd (ground arith))
  | inr more ↦
      let m = if ltb chunk_size n then chunk_size else n in
      let few : m ≤ n = ground arith in
      rw more (
        copy_round src dst m n vs vd few enough fits fuel hb (
          copy_loop-Copied fuel (n - m) (moved src m) (filled dst (take m (view src).rest))
            (ground arith) (omega arith) (moved-IsValid src vs m (omega arith))
            (filled-IsValid dst vd (take m (view src).rest)
              (chunk_fits src dst m n vs vd few enough fits))
            (rest_after src dst m n vs vd few enough fits)
            (room_after src dst m n vs vd few enough fits)))
]

-- `read_to_byte_buffer` between two valid buffers either refuses, when the destination lacks the room
-- or the source the bytes, and changes neither; or it moves exactly the next `n` bytes, in order, and
-- both buffers stay valid. Its loop ends, and no `VERIFY` in it fails.
pub read_to_byte_buffer_lem :
    (src dst : ByteBuffer) (n : ℕ)
    → IsValid src
    → IsValid dst
    → let (r, (src', dst')) = read_to_byte_buffer n (src, dst) in
      IsValid src'
      × IsValid dst'
      × (((room (view dst) < n) ⊎ (length (view src).rest < n))
            × (r ≡ fail)
            × (src' ≡ src)
            × (dst' ≡ dst)
          ⊎ (n ≤ room (view dst))
            × (n ≤ length (view src).rest)
            × (r ≡ ok tt)
            × (view src' ≡ advance (view src) n)
            × (view dst' ≡ extend (view dst) (take n (view src).rest)))
unfolding read_to_byte_buffer
read_to_byte_buffer_lem src dst n vs vd =
    rw (can_write_lem dst vd [] n, can_read_lem src vs n)
      (elim (Bool-cases (leb n (room (view dst)))) [
        | inr full ↦ rw full (vs, vd, inl (inl (leb→lt _ _ full), refl, refl, refl))
        | inl fits ↦ elim (Bool-cases (leb n (length (view src).rest))) [
          | inr short ↦ rw (fits, short) (vs, vd, inl (inr (leb→lt _ _ short), refl, refl, refl))
          | inl enough ↦
              let f : n ≤ room (view dst) = leb→le _ _ fits in
              let e : n ≤ length (view src).rest = leb→le _ _ enough in
              let small : n < 2 ^ 64 = ground (arith, length-rest src) in
              let c = copy_loop-Copied n n src dst (omega arith) small vs vd e f in
              rw (fits, enough)
                (c.src_valid, c.dst_valid, inr (f, e, c.done, c.src_view, c.dst_view))
        ]
      ])
