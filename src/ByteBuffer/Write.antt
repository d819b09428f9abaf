-- ===== src/ByteBuffer/Write.antt =====
-- `Write` and `WriteBuf` of Src/Common/ByteBuffer.cpp put bytes at the end of the queue.
use p2pchat.Prelude.{
  ℕ, suc, ◌+◌, ◌-◌, ◌≤◌, ◌<◌, ◌≡◌, refl, ap, ap₂, ◌∙◌, List, [], ◌++◌, length, take, drop, ltb, leb,
  inl, inr, Bool-cases, true, false, leb→le, length-take, length-drop, take-append-drop,
  if◌then◌else◌, arith, [], ◌∷◌, ◌%◌, ◌^◌, ltb→lt, ltb→le, lt→ltb, le→ltb,
}
use p2pchat.ByteBuffer.Window.{
  write_at, skip, window, window-append, window-write_at_apart, window-write_at_self,
  length-write_at,
}
use p2pchat.ByteBuffer.Stream.{room, put}
use p2pchat.ByteBuffer.Valid.{
  IsValid, view, n_done, n_rest, length-done, length-rest, free_space_lem,
}
use p2pchat.ByteBuffer.{
  ByteBuffer, write_till_end, write_rest, write, write_buf, can_write_bytes, sub_size,
}

-- The memory after both copies.
abbrev stored : List ℕ → ℕ → ℕ → List ℕ → List ℕ
stored buf size w xs =
    if leb (size - w) (length xs)
    then write_at (write_at buf w (take (size - w) xs)) 0 (drop (size - w) xs)
    else write_at buf w xs

-- A list written in two parts, up to the end of the memory and on from its start, is met whole.
window-wrapped :
    (buf : List ℕ) (size w : ℕ) (front back : List ℕ)
    → length buf ≡ size
    → length front ≡ size - w
    → w < size
    → length back ≤ w
    → window (write_at (write_at buf w front) 0 back) size w (length front + length back)
      ≡ front ++ back
window-wrapped buf size w front back l f w_in b =
    let wraps : skip size w (length front) ≡ 0 = ground arith in
    let once : List ℕ = write_at buf w front in
    window-append (write_at once 0 back) size w (length front) (length back) w_in (omega arith)
    ∙ rw wraps (
        ap₂ ◌++◌
          (window-write_at_apart once size w (length front) 0 back w_in (omega arith) (omega arith)
            ∙ window-write_at_self buf size w front l (omega arith))
          (window-write_at_self once size 0 back (length-write_at buf w front ∙ l) (omega arith)))

module _ (buf : List ℕ) (size w : ℕ) (xs : List ℕ) (w_in : w < size) (fits : length xs ≤ size) where
  length-stored : length (stored buf size w xs) ≡ length buf
  length-stored = ground (
    arith,
    length-write_at buf w xs,
    length-write_at buf w (take (size - w) xs),
    length-write_at (write_at buf w (take (size - w) xs)) 0 (drop (size - w) xs),
  )

  window-stored_apart :
      (h n g : ℕ)
      → h < size
      → n + g + length xs ≤ size
      → w ≡ skip size h (n + g)
      → window (stored buf size w xs) size h n ≡ window buf size h n
  window-stored_apart h n g h_in room_ok e = elim (Bool-cases (leb (size - w) (length xs))) [
    | inl wraps ↦ rw wraps (
        window-write_at_apart (write_at buf w (take (size - w) xs)) size h n 0 (drop (size - w) xs)
          h_in (omega (arith, length-drop (size - w) xs))
          (ground (arith, length-drop (size - w) xs))
        ∙ window-write_at_apart buf size h n w (take (size - w) xs) h_in
            (omega (arith, length-take (size - w) xs)) (ground (arith, length-take (size - w) xs)))
    | inr short ↦
        rw short (window-write_at_apart buf size h n w xs h_in (ground arith) (ground arith))
  ]

  window-stored_self : length buf ≡ size → window (stored buf size w xs) size w (length xs) ≡ xs
  window-stored_self l = elim (Bool-cases (leb (size - w) (length xs))) [
    | inl wraps ↦
        let front : List ℕ = take (size - w) xs in
        let back : List ℕ = drop (size - w) xs in
        let whole : length xs ≡ length front + length back =
          omega (arith, leb→le _ _ wraps, length-take (size - w) xs, length-drop (size - w) xs) in
        rw (wraps, whole)
          (window-wrapped buf size w front back l
              (omega (arith, leb→le _ _ wraps, length-take (size - w) xs)) w_in
              (omega (arith, length-drop (size - w) xs))
            ∙ take-append-drop (size - w) xs)
    | inr short ↦ rw short (window-write_at_self buf size w xs l (ground arith))
  ]

-- Both writing methods end in this buffer.
abbrev pub filled : ByteBuffer → List ℕ → ByteBuffer
filled b xs = record b {
  buffer = stored b.buffer b.buffer_size b.write_pos xs;
  write_pos = skip b.buffer_size b.write_pos (length xs);
}

-- The single copy, also of nothing.
write_rest_lem :
    (b : ByteBuffer) (xs : List ℕ)
    → b.write_pos + length xs < 2 ^ 64
    → write_rest (b, xs)
      ≡ record b { buffer = write_at b.buffer b.write_pos xs; write_pos = b.write_pos + length xs }
unfolding write_rest
write_rest_lem b [] h =
    let e : b.write_pos ≡ b.write_pos + 0 = omega arith in
    λ i. record b { buffer = b.buffer; write_pos = e i }
write_rest_lem b (x ∷ xs) h =
    let e : (b.write_pos + suc (length xs)) % 2 ^ 64 ≡ b.write_pos + suc (length xs) =
      omega arith in
    rw (lt→ltb 0 (suc (length xs)) (omega arith), e)

module _ (b : ByteBuffer) (v : IsValid b) (xs : List ℕ) (fits : length xs ≤ room (view b)) where
  write_rest-write_till_end : write_rest (write_till_end b xs) ≡ filled b xs
  unfolding write_till_end
  write_rest-write_till_end =
      let t = b.buffer_size - b.write_pos in
      let e : sub_size b.buffer_size b.write_pos ≡ t = omega arith in
      elim (Bool-cases (leb t (length xs))) [
        | inl wraps ↦
            let pos : 0 + length (drop t xs) ≡ skip b.buffer_size b.write_pos (length xs) =
              ground (arith, length-done b, length-rest b, length-drop t xs) in
            rw (e, wraps)
              (write_rest_lem _ (drop t xs)
                  (omega (arith, length-drop t xs, length-done b, length-rest b))
                ∙ rw pos)
        | inr short ↦
            let pos : b.write_pos + length xs ≡ skip b.buffer_size b.write_pos (length xs) =
              ground arith in
            rw (e, short)
              (write_rest_lem b xs (ground arith)
                ∙ ap (λ k. record b { buffer = write_at b.buffer b.write_pos xs; write_pos = k })
                    pos)
      ]

  pub filled-IsValid : IsValid (filled b xs)
  filled-IsValid =
      ground
        (arith, length-done b, length-rest b, length-stored b.buffer b.buffer_size b.write_pos xs)

  filled-done : (view (filled b xs)).done ≡ (view b).done
  filled-done =
      window-stored_apart b.buffer b.buffer_size b.write_pos xs v.write_in
        (omega (arith, length-done b, length-rest b)) b.data_start (n_done b) (n_rest b) v.start_in
        (omega (arith, length-done b, length-rest b)) (ground arith)

  filled-rest : (view (filled b xs)).rest ≡ (view b).rest ++ xs
  filled-rest =
      let size = b.buffer_size in
      let longer : n_rest (filled b xs) ≡ n_rest b + length xs =
        ground (arith, length-done b, length-rest b) in
      let end : skip size b.read_pos (n_rest b) ≡ b.write_pos = ground arith in
      rw longer (
        window-append (filled b xs).buffer size b.read_pos (n_rest b) (length xs) v.read_in
          (ground arith)
        ∙ ap₂ ◌++◌
            (window-stored_apart b.buffer size b.write_pos xs v.write_in
              (omega (arith, length-done b, length-rest b)) b.read_pos (n_rest b) 0 v.read_in
              (omega (arith, length-done b, length-rest b)) (ground arith))
            (rw end (
              window-stored_self b.buffer size b.write_pos xs v.write_in
                (omega (arith, length-done b, length-rest b)) v.memory)))

  pub filled-view : view (filled b xs) ≡ record (view b) { rest = (view b).rest ++ xs }
  filled-view =
      λ i. record { capacity = b.buffer_size - 1; done = filled-done i; rest = filled-rest i }

-- The two answers as equations.
module _ (b : ByteBuffer) (v : IsValid b) (xs : List ℕ) where
  pub write-ok : length xs ≤ room (view b) → write b xs ≡ (true, filled b xs)
  unfolding write
  write-ok fits = rw (free_space_lem b v, le→ltb _ _ fits, write_rest-write_till_end b v xs fits)

  pub write-fail : room (view b) < length xs → write b xs ≡ (false, b)
  unfolding write
  write-fail full = rw (free_space_lem b v, lt→ltb _ _ full)

  pub can_write_lem : (n : ℕ) → can_write_bytes b n ≡ leb n (room (view b))
  unfolding can_write_bytes
  can_write_lem n = rw (free_space_lem b v)

-- `write` keeps a valid buffer valid, and answers and acts as `put` on the queue: it refuses what does
-- not fit, with nothing changed, and otherwise appends all bytes in order.
pub write_refines :
    (b : ByteBuffer) (xs : List ℕ)
    → IsValid b
    → let (r, b') = write b xs in IsValid b' × ((r, view b') ≡ put (view b) xs)
write_refines b xs v = elim (Bool-cases (ltb (room (view b)) (length xs))) [
  | inl full ↦ rw (full, write-fail b v xs (ltb→lt _ _ full)) (v, refl)
  | inr fits ↦
      let h : length xs ≤ room (view b) = ltb→le _ _ fits in
      rw (fits, write-ok b v xs h)
        (filled-IsValid b v xs h, ap (λ s. (true, s)) (filled-view b v xs h))
]

-- The two writing methods do the same on every buffer and list.
pub write_buf-eq-write : (b : ByteBuffer) (xs : List ℕ) → write_buf b xs ≡ write b xs
unfolding write_buf write can_write_bytes
write_buf-eq-write b xs = ground arith
