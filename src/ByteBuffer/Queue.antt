-- ===== src/ByteBuffer/Queue.antt =====
-- The remaining operations of cByteBuffer (Src/Common/ByteBuffer.cpp) against the queue: the
-- constructor, `ClearAll`, `CommitRead`, `ResetRead`, `ReadAgain`, `ReadAll` and the space counts.
use p2pchat.Prelude.{
  ℕ, ◌+◌, ◌-◌, ◌<◌, ◌^◌, ◌%◌, ◌≡◌, refl, sym, ap, ap₂, ◌∙◌, List, [], ◌++◌, length, ltb, inl, inr,
  Bool-cases, take_all, drop_all, arith, append_assoc,
}
use p2pchat.Outcome.{ok}
use p2pchat.ByteBuffer.Window.{
  skip, window, window-append, window-eq-slice, window-eq-slices, window-dist_self,
}
use p2pchat.ByteBuffer.Stream.{commit, reset}
use p2pchat.ByteBuffer.Valid.{IsValid, view, n_done, n_rest, readable_space_lem}
use p2pchat.ByteBuffer.Read.{read_string-eq-read_buf, read_buf-ok, moved-IsValid, moved-view}
use p2pchat.ByteBuffer.{
  ByteBuffer, init, clear_all, read_all, commit_read, reset_read, read_again, sub_size,
}

-- The constructor makes a valid, empty queue that holds `n` bytes, if `new` gave `n + 1` bytes.
pub init_lem :
    (storage : List ℕ) (n : ℕ)
    → length storage ≡ n + 1
    → n + 1 < 2 ^ 63
    → IsValid (init storage n)
      × (view (init storage n) ≡ record { capacity = n; done = []; rest = [] })
unfolding init window
init_lem storage n l small =
    let e : (n + 1) % 2 ^ 64 ≡ n + 1 = omega arith in
    rw e (omega arith, λ i. record { capacity = cap i; done = []; rest = [] })
  where
    cap : n + 1 - 1 ≡ n
    cap = omega arith

-- `clear_all` empties the queue of a valid buffer and keeps its capacity.
pub clear_all_lem :
    (b : ByteBuffer)
    → IsValid b
    → IsValid (clear_all b)
      × (view (clear_all b) ≡ record { capacity = (view b).capacity; done = []; rest = [] })
unfolding clear_all window
clear_all_lem b v = (ground arith, refl)

-- On a valid buffer `commit_read` forgets the bytes that were read, as `commit` on the queue does,
-- `reset_read` makes them unread again, as `reset` does, and both keep the buffer valid.
pub commit-reset_refine :
    (b : ByteBuffer)
    → IsValid b
    → IsValid (commit_read b)
      × IsValid (reset_read b)
      × (view (commit_read b) ≡ commit (view b))
      × (view (reset_read b) ≡ reset (view b))
unfolding commit_read reset_read
commit-reset_refine b v =
    let size = b.buffer_size in
    let whole : n_rest (reset_read b) ≡ n_done b + n_rest b = ground arith in
    let end : skip size b.data_start (n_done b) ≡ b.read_pos = ground arith in
    let joined : (view (reset_read b)).rest ≡ (view b).done ++ (view b).rest = rw whole (
      window-append b.buffer size b.data_start (n_done b) (n_rest b) v.start_in (ground arith)
      ∙ rw end) in
    (
      ground arith,
      ground arith,
      (λ i. record (view b) { done = window-dist_self b.buffer size b.read_pos i }),
      λ i. record {
        capacity = size - 1;
        done = window-dist_self b.buffer size b.data_start i;
        rest = joined i;
      },
    )

-- On a valid buffer `read_again` appends to `out` exactly the bytes read since the last commit, in
-- order.
pub read_again_lem :
    (b : ByteBuffer) (out : List ℕ) → IsValid b → read_again b out ≡ out ++ (view b).done
unfolding read_again
read_again_lem b out v = elim (Bool-cases (ltb b.read_pos b.data_start)) [
  | inl wraps ↦
      let t : sub_size b.buffer_size b.data_start ≡ b.buffer_size - b.data_start = omega arith in
      let r : sub_size b.read_pos 0 ≡ b.read_pos = omega arith in
      let whole =
        window-eq-slices b.buffer b.buffer_size b.data_start
          (b.buffer_size - b.data_start + b.read_pos) v.memory v.start_in (omega arith)
          (ground arith) in
      let back : b.buffer_size - b.data_start + b.read_pos - (b.buffer_size - b.data_start)
          ≡ b.read_pos =
        omega arith in
      rw (wraps, t, append_assoc, r) (ap (◌++◌ out) (sym (rw back at whole)))
  | inr short ↦
      let r : sub_size b.read_pos b.data_start ≡ b.read_pos - b.data_start = ground arith in
      rw (short, r)
        (ap (◌++◌ out) (
          sym (
            window-eq-slice b.buffer b.buffer_size b.data_start (b.read_pos - b.data_start) v.memory
              (ground arith))))
]

-- `read_all` succeeds on every valid buffer, returns all unread bytes and leaves none unread.
pub read_all_lem :
    (b : ByteBuffer)
    → IsValid b
    → let (r, b') = read_all b in
      IsValid b'
      × (r ≡ ok (view b).rest)
      × (view b' ≡ record (view b) { done = (view b).done ++ (view b).rest; rest = [] })
unfolding read_all
read_all_lem b v =
    let all = (view b).rest in
    let done = (view b).done in
    let n = length all in
    rw (readable_space_lem b v, read_string-eq-read_buf, read_buf-ok b v n (omega arith))
      (
        moved-IsValid b v n (omega arith),
        ap ok (take_all n all (omega arith)),
        moved-view b v n (omega arith)
            ∙ ap₂ (λ xs ys. record (view b) { done = done ++ xs; rest = ys })
                (take_all n all (omega arith)) (drop_all n all (omega arith)),
      )
