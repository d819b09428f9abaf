-- ===== src/Framing/Short.antt =====
-- A frame that is not there whole yet is left as it is (`AddReceivedData` of
-- Src/Server/Protocol/cProtocol_impl.cpp).
use p2pchat.Prelude.{
  ℕ, zero, suc, ◌^◌, ◌≤◌, ◌<◌, ◌≡◌, refl, sym, ap, ◌∙◌, Bool, false, List, [], ◌∷◌, ◌++◌, length,
  length-append, take-append-drop, take, drop, take-append, drop-get_or, leb, leb→le, leb→lt,
  lt→leb, Bool-cases, inl, inr, arith,
}
use p2pchat.Outcome.{ok, fail, Reader}
use p2pchat.ByteBuffer.Stream.{reset, advance}
use p2pchat.ByteBuffer.Valid.{IsValid, view, readable_space_lem}
use p2pchat.ByteBuffer.Codec.{moved_front-IsValid, moved_front-rest}
use p2pchat.ByteBuffer.Read.{moved, moved-IsValid, moved-view, can_read_lem}
use p2pchat.ByteBuffer.Queue.{commit-reset_refine}
use p2pchat.ByteBuffer.VarInt.{read_var_int, read_var_int64}
use p2pchat.ByteBuffer.VarInt.Groups.{groups}
use p2pchat.ByteBuffer.VarInt.Codecs.{var_int-Codec}
use p2pchat.ByteBuffer.VarInt.Broken.{read_loop-short}
use p2pchat.ByteBuffer.{ByteBuffer, reset_read}
use p2pchat.Session.Packets.{frame}
use p2pchat.Framing.Frames.{Waits}
use p2pchat.Framing.{with_length, packet_round}

-- A frame has begun, and at least one byte of it is missing.
pub record IsPartial (bytes : List ℕ) : Type 0 where
  pub packet : List ℕ
  pub next : ℕ
  pub missing : List ℕ
  pub short : length packet < 2 ^ 32
  pub whole : frame packet ≡ bytes ++ next ∷ missing

reset_moved :
    (capacity n : ℕ) (bytes : List ℕ) (b : ByteBuffer)
    → Waits capacity bytes b
    → n ≤ length bytes
    → Waits capacity bytes (reset_read (moved b n))
reset_moved capacity n bytes b at h =
    let enough : n ≤ length (view b).rest = omega (arith, ap (λ s. length s.rest) at.seen) in
    let (still_valid, reset_valid, committed, was_reset) =
      commit-reset_refine (moved b n) (moved-IsValid b at.valid n enough) in
    record {
      valid = reset_valid;
      seen =
          was_reset
          ∙ ap reset (moved-view b at.valid n enough ∙ ap (λ s. advance s n) at.seen)
          ∙ ap (λ xs. record { capacity = capacity; done = []; rest = xs })
              (take-append-drop n bytes);
    }

take-append_short : (n : ℕ) (xs ys : List ℕ) → n ≤ length xs → take n (xs ++ ys) ≡ take n xs
take-append_short zero xs ys h = refl
take-append_short (suc n) [] ys h = absurd (omega arith)
take-append_short (suc n) (x ∷ xs) ys h = ap (◌∷◌ x) (take-append_short n xs ys (omega arith))

-- A list begins like another one that is not longer.
front_of :
    (xs ys us vs : List ℕ)
    → xs ++ ys ≡ us ++ vs
    → length xs ≤ length us
    → us ≡ xs ++ drop (length xs) us
front_of xs ys us vs e h =
    sym (take-append-drop (length xs) us)
    ∙ ap (λ zs. zs ++ drop (length xs) us)
        (sym (take-append_short (length xs) us vs h)
          ∙ ap (take (length xs)) (sym e)
          ∙ take-append xs ys (length xs) refl)

read_var_int-short :
    (v : ℕ) (b : ByteBuffer) (xs : List ℕ) (y : ℕ) (ys : List ℕ)
    → IsValid b
    → v < 2 ^ 32
    → groups 4 v ≡ xs ++ y ∷ ys
    → (view b).rest ≡ xs
    → read_var_int b ≡ (fail, moved b (length xs))
unfolding read_var_int read_var_int64
read_var_int-short v b xs y ys vb h g e = rw (
  readable_space_lem b vb,
  read_loop-short 4 64 (suc (length (view b).rest)) v 0 0 b xs y ys vb (omega arith) (omega arith)
      (omega (arith, ap length e)) g e,
)

module _ {W : Type 0} (fresh : ℕ → List ℕ)
    (handle : ℕ → Reader (ByteBuffer × (ByteBuffer × W)) Bool)
    (complain : ℕ → Reader W (Unit {0})) where
  -- One round of the loop at a frame that is not complete: nothing is handled, and what has arrived of
  -- it waits.
  pub packet_round-short :
      (capacity : ℕ) (bytes : List ℕ) (b : ByteBuffer) (w : W)
      → IsPartial bytes
      → Waits capacity bytes b
      → (left : ByteBuffer) × Waits capacity bytes left
        × (packet_round fresh handle complain (b, w) ≡ (ok false, (left, w)))
  unfolding packet_round with_length
  packet_round-short capacity bytes b w partial at =
      let p = partial.packet in
      let n = length p in
      let rest : (view b).rest ≡ bytes = ap (λ s. s.rest) at.seen in
      elim (Bool-cases (leb (length (groups 4 n)) (length bytes))) [
        | inr few ↦
            let h : length bytes < length (groups 4 n) = leb→lt _ _ few in
            let split : groups 4 n ≡ bytes ++ drop (length bytes) (groups 4 n) =
              front_of bytes (partial.next ∷ partial.missing) (groups 4 n) p (sym partial.whole)
                (omega arith) in
            let split' =
              split ∙ ap (λ zs. bytes ++ zs) (drop-get_or (groups 4 n) (length bytes) 0 h) in
            (
              reset_read (moved b (length bytes)),
              reset_moved capacity (length bytes) bytes b at (omega arith),
              rw (read_var_int-short n b bytes _ _ at.valid partial.short split' rest),
            )
        | inl many ↦
            let h : length (groups 4 n) ≤ length bytes = leb→le _ _ many in
            let zs = drop (length (groups 4 n)) bytes in
            let split : bytes ≡ groups 4 n ++ zs =
              front_of (groups 4 n) p bytes (partial.next ∷ partial.missing) partial.whole h in
            let front : (view b).rest ≡ groups 4 n ++ zs = rest ∙ split in
            let lacks : length (view (moved b (length (groups 4 n)))).rest < n = omega (
              arith,
              ap length (moved_front-rest b (groups 4 n) zs at.valid front),
              ap length split,
              length-append (groups 4 n) zs,
              ap length partial.whole,
              length-append (groups 4 n) p,
              length-append bytes (partial.next ∷ partial.missing),
            ) in
            (
              reset_read (moved b (length (groups 4 n))),
              reset_moved capacity (length (groups 4 n)) bytes b at h,
              rw (
                var_int-Codec.reads b n zs at.valid partial.short front,
                can_read_lem _ (moved_front-IsValid b (groups 4 n) zs at.valid front) n,
                lt→leb _ _ lacks,
              ),
            )
      ]
