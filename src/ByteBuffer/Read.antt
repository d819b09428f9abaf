-- ===== src/ByteBuffer/Read.antt =====
-- `ReadBuf`, `ReadString`, `SkipRead`, `CommitRead` and the like of Src/Common/ByteBuffer.cpp take
-- bytes from the front of the queue.
use p2pchat.Prelude.{
  ℕ, zero, suc, ◌+◌, ◌-◌, ◌≤◌, ◌<◌, ◌^◌, ◌%◌, ◌≡◌, refl, sym, ap, ap₂, ◌∙◌, List, [], ◌++◌, length,
  take, drop, leb, inl, inr, Bool-cases, true, leb→le, leb→lt, take-append, drop-append,
  if◌then◌else◌, lt→ltb, le→leb, lt→leb, arith, append-nil,
}
use p2pchat.Outcome.{ok, fail}
use p2pchat.ByteBuffer.Window.{
  slice, skip, window, window-append, window-eq-slice, window-eq-slices, length-window,
}
use p2pchat.ByteBuffer.Stream
use p2pchat.ByteBuffer.Stream.{Stream, room, advance, get}
use p2pchat.ByteBuffer.Valid.{IsValid, view, n_done, n_rest, length-rest, readable_space_lem}
use p2pchat.ByteBuffer.{
  ByteBuffer, read_till_end, read_rest, read_now, read_buf, read_string, need_bytes, can_read_bytes,
  skip_read, advance_read_pos, add_size, sub_size,
}

-- The buffer `n` places on.
abbrev pub moved : ByteBuffer → ℕ → ByteBuffer
moved b n = record b { read_pos = skip b.buffer_size b.read_pos n }

module _ (b : ByteBuffer) (v : IsValid b) (n : ℕ) (enough : n ≤ length (view b).rest) where
  rest_split : (view b).rest ≡ window b.buffer b.buffer_size b.read_pos n ++ (view (moved b n)).rest
  rest_split =
      let e : n_rest b ≡ n + n_rest (moved b n) = ground (arith, length-rest b) in
      rw e (
        window-append b.buffer b.buffer_size b.read_pos n (n_rest (moved b n)) v.read_in
          (ground (arith, length-rest b)))

  done_longer :
      (view (moved b n)).done ≡ (view b).done ++ window b.buffer b.buffer_size b.read_pos n
  done_longer =
      let e : n_done (moved b n) ≡ n_done b + n = ground (arith, length-rest b) in
      let end : skip b.buffer_size b.data_start (n_done b) ≡ b.read_pos = ground arith in
      rw e (
        window-append b.buffer b.buffer_size b.data_start (n_done b) n v.start_in (ground arith)
        ∙ rw end)

  taken : window b.buffer b.buffer_size b.read_pos n ≡ take n (view b).rest
  taken =
      rw rest_split
        (sym (take-append _ _ n (sym (length-window b.buffer b.buffer_size b.read_pos n))))

  kept : (view (moved b n)).rest ≡ drop n (view b).rest
  kept =
      rw rest_split
        (sym (drop-append _ _ n (sym (length-window b.buffer b.buffer_size b.read_pos n))))

  pub moved-IsValid : IsValid (moved b n)
  moved-IsValid = ground (arith, length-rest b)

  pub moved-view : view (moved b n) ≡ advance (view b) n
  moved-view = λ i. record {
    capacity = b.buffer_size - 1;
    done = (done_longer ∙ ap (◌++◌ (view b).done) taken) i;
    rest = kept i;
  }

pub moved-moved :
    (b : ByteBuffer) (m n : ℕ)
    → IsValid b
    → m + n ≤ length (view b).rest
    → moved (moved b m) n ≡ moved b (m + n)
moved-moved b m n v enough =
    let e : skip b.buffer_size (skip b.buffer_size b.read_pos m) n
        ≡ skip b.buffer_size b.read_pos (m + n) =
      ground (arith, length-rest b) in
    ap (λ k. record b { read_pos = k }) e

pub moved-suc :
    (b : ByteBuffer) (n : ℕ)
    → IsValid b
    → suc n ≤ length (view b).rest
    → moved (moved b 1) n ≡ moved b (suc n)
moved-suc b n v enough = moved-moved b 1 n v (omega arith) ∙ ap (moved b) (omega arith)

-- The single copy, also of nothing.
read_rest_lem :
    (out : List ℕ) (n : ℕ) (b : ByteBuffer)
    → b.read_pos + n < 2 ^ 64
    → read_rest (out, n, b)
      ≡ (out ++ slice b.buffer b.read_pos n, record b { read_pos = b.read_pos + n })
unfolding read_rest
read_rest_lem out zero b h =
    let e : b.read_pos ≡ b.read_pos + 0 = omega arith in
    λ i. (sym (append-nil out) i, record b { read_pos = e i })
read_rest_lem out (suc n) b h =
    let e : (b.read_pos + suc n) % 2 ^ 64 ≡ b.read_pos + suc n = omega arith in
    rw (lt→ltb 0 (suc n) (omega arith), e)

module _ (b : ByteBuffer) (v : IsValid b) (n : ℕ) (enough : n ≤ length (view b).rest) where
  read_rest-read_till_end :
      read_rest (read_till_end b n) ≡ (window b.buffer b.buffer_size b.read_pos n, moved b n)
  unfolding read_till_end
  read_rest-read_till_end =
      let t = b.buffer_size - b.read_pos in
      let e : sub_size b.buffer_size b.read_pos ≡ t = omega arith in
      let few : n ≤ b.buffer_size = ground (arith, length-rest b) in
      elim (Bool-cases (leb t n)) [
        | inl wraps ↦
            let left : sub_size n t ≡ n - t = omega (arith, leb→le _ _ wraps) in
            let pos : 0 + (n - t) ≡ skip b.buffer_size b.read_pos n =
              ground (arith, length-rest b) in
            rw (e, wraps, left)
              (read_rest_lem _ (n - t) _ (omega arith)
                ∙ ap₂ (λ xs k. (xs, record b { read_pos = k }))
                    (sym (
                      window-eq-slices b.buffer b.buffer_size b.read_pos n v.memory v.read_in
                        (omega (arith, leb→le _ _ wraps)) few))
                    pos)
        | inr short ↦
            let pos : b.read_pos + n ≡ skip b.buffer_size b.read_pos n = ground arith in
            rw (e, short)
              (read_rest_lem [] n b (ground arith)
                ∙ ap₂ (λ xs k. (xs, record b { read_pos = k }))
                    (sym
                      (window-eq-slice b.buffer b.buffer_size b.read_pos n v.memory (ground arith)))
                    pos)
      ]

  pub read_now_lem : read_now n b ≡ (ok (take n (view b).rest), moved b n)
  unfolding read_now
  read_now_lem = rw (read_rest-read_till_end, taken b v n enough)

module _ (b : ByteBuffer) (v : IsValid b) (n : ℕ) where
  pub need_bytes-ok : n ≤ length (view b).rest → need_bytes n b ≡ (ok tt, b)
  unfolding need_bytes can_read_bytes
  need_bytes-ok enough = rw (readable_space_lem b v, le→leb _ _ enough)

  pub need_bytes-fail : length (view b).rest < n → need_bytes n b ≡ (fail, b)
  unfolding need_bytes can_read_bytes
  need_bytes-fail short = rw (readable_space_lem b v, lt→leb _ _ short)

  pub read_buf-ok : n ≤ length (view b).rest → read_buf n b ≡ (ok (take n (view b).rest), moved b n)
  unfolding read_buf
  read_buf-ok enough = rw (need_bytes-ok enough) (read_now_lem b v n enough)

  pub read_buf-fail : length (view b).rest < n → read_buf n b ≡ (fail, b)
  unfolding read_buf
  read_buf-fail short = rw (need_bytes-fail short)

  pub can_read_lem : can_read_bytes b n ≡ leb n (length (view b).rest)
  unfolding can_read_bytes
  can_read_lem = rw (readable_space_lem b v)

  read_buf_cases :
      IsValid (read_buf n b).1 × (((read_buf n b).0, view (read_buf n b).1) ≡ get n (view b))
  read_buf_cases = elim (Bool-cases (leb n (length (view b).rest))) [
    | inl enough ↦
        let h : n ≤ length (view b).rest = leb→le _ _ enough in
        rw (enough, read_buf-ok h)
          (moved-IsValid b v n h, ap (λ s. (ok (take n (view b).rest), s)) (moved-view b v n h))
    | inr short ↦ rw (short, read_buf-fail (leb→lt _ _ short)) (v, refl)
  ]

-- `read_buf` keeps a buffer valid, and answers and acts as `get` on the queue: with fewer than `n`
-- unread bytes it fails and changes nothing, and otherwise it returns the next `n` bytes in order.
pub read_buf_refines :
    (b : ByteBuffer) (n : ℕ)
    → IsValid b
    → let (r, b') = read_buf n b in IsValid b' × ((r, view b') ≡ get n (view b))
read_buf_refines b n v = read_buf_cases b v n

-- `read_string` does the same as `read_buf` on every buffer.
pub read_string-eq-read_buf : (b : ByteBuffer) (n : ℕ) → read_string n b ≡ read_buf n b
unfolding read_string read_buf
read_string-eq-read_buf b n = refl

-- On a valid buffer, which stays valid, `skip_read` moves past `n` unread bytes as `skip` on the queue
-- does, or refuses and changes nothing where there are fewer.
pub skip_read_refines :
    (b : ByteBuffer) (n : ℕ)
    → IsValid b
    → let (r, b') = skip_read b n in IsValid b' × ((r, view b') ≡ Stream.skip (view b) n)
unfolding skip_read can_read_bytes advance_read_pos
skip_read_refines b n v = elim (Bool-cases (leb n (length (view b).rest))) [
  | inl enough ↦
      let h : n ≤ length (view b).rest = leb→le _ _ enough in
      let pos : (if leb b.buffer_size (add_size b.read_pos n)
            then sub_size (add_size b.read_pos n) b.buffer_size
            else add_size b.read_pos n)
          ≡ skip b.buffer_size b.read_pos n =
        ground (arith, length-rest b) in
      rw (readable_space_lem b v, enough, pos)
        (moved-IsValid b v n h, ap (λ s. (true, s)) (moved-view b v n h))
  | inr short ↦ rw (readable_space_lem b v, short) (v, refl)
]
