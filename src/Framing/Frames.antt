-- ===== src/Framing/Frames.antt =====
-- A whole frame at the front of what was received is taken as one packet (`AddReceivedData` of
-- Src/Server/Protocol/cProtocol_impl.cpp).
use p2pchat.Prelude.{
  ℕ, ◌+◌, ◌^◌, ◌≤◌, ◌<◌, ◌≡◌, refl, ap, ap₂, ◌∙◌, Bool, true, List, [], ◌∷◌, ◌++◌, length,
  length-append, append_assoc, take, drop, take-append, drop-append, arith, le→leb, inl, inr,
}
use p2pchat.Outcome.{Outcome, ok, fail, undefined, exited, stuck, Reader}
use p2pchat.ByteBuffer.Stream.{room, commit, extend}
use p2pchat.ByteBuffer.Valid.{IsValid, view}
use p2pchat.ByteBuffer.Codec.{moved_front-IsValid, moved_front-view, moved_front-rest}
use p2pchat.ByteBuffer.Write.{filled, filled-IsValid, filled-view, write-ok}
use p2pchat.ByteBuffer.Read.{moved, can_read_lem}
use p2pchat.ByteBuffer.Queue.{init_lem, commit-reset_refine}
use p2pchat.ByteBuffer.Transfer.{read_to_byte_buffer_lem}
use p2pchat.ByteBuffer.VarInt.{read_var_int}
use p2pchat.ByteBuffer.VarInt.Groups.{groups}
use p2pchat.ByteBuffer.VarInt.Codecs.{var_int-Codec}
use p2pchat.ByteBuffer.{ByteBuffer, init, write, commit_read, read_to_byte_buffer}
use p2pchat.Session.Packets.{frame}
use p2pchat.Framing.{after_packet, with_type, take_packet, with_length, packet_size, packet_round}

-- What is left of a received packet when its type has been read, and the extra byte.
pub record IsPacket (type : ℕ) (body : List ℕ) (bb : ByteBuffer) : Type 0 where
  pub valid : IsValid bb
  pub read : (view bb).done ≡ groups 4 type
  pub unread : (view bb).rest ≡ body ++ 0 ∷ []

-- Received bytes that wait, none of them half read.
pub record Waits (capacity : ℕ) (bytes : List ℕ) (b : ByteBuffer) : Type 0 where
  pub valid : IsValid b
  pub seen : view b ≡ record { capacity = capacity; done = []; rest = bytes }

-- More bytes wait behind those that waited, where there is room.
pub filled-Waits :
    (capacity : ℕ) (old bytes : List ℕ) (b : ByteBuffer)
    → Waits capacity old b
    → length old + length bytes ≤ capacity
    → (write b bytes ≡ (true, filled b bytes)) × Waits capacity (old ++ bytes) (filled b bytes)
filled-Waits capacity old bytes b at fits =
    let space : length bytes ≤ room (view b) = omega (arith, ap room at.seen) in
    (
      write-ok b at.valid bytes space,
      record {
        valid = filled-IsValid b at.valid bytes space;
        seen = filled-view b at.valid bytes space ∙ ap (λ q. extend q bytes) at.seen;
      },
    )

-- The packet in its own buffer.
record Boxed (type : ℕ) (body tail : List ℕ) (capacity : ℕ)
    (r : Outcome (Unit {0}) × (ByteBuffer × ByteBuffer)) : Type 0 where
  answer : r.0 ≡ ok tt
  left : Waits capacity tail (commit_read r.1.0)
  read_type : read_var_int r.1.1 ≡ (ok type, moved r.1.1 (length (groups 4 type)))
  packet : IsPacket type body (write (moved r.1.1 (length (groups 4 type))) (0 ∷ [])).1

Boxed-lem :
    (type : ℕ) (body tail : List ℕ) (b bb : ByteBuffer)
    → type < 2 ^ 32
    → IsValid b
    → (view b).rest ≡ (groups 4 type ++ body) ++ tail
    → IsValid bb
    → view bb ≡ record { capacity = length (groups 4 type ++ body) + 1; done = []; rest = [] }
    → Boxed type body tail
        (view b).capacity
        (read_to_byte_buffer (length (groups 4 type ++ body)) (b, bb))
Boxed-lem type body tail b bb ht vb e vbb ebb =
    let p = groups 4 type ++ body in
    let size = length-append (groups 4 type) body in
    let whole = length-append p tail in
    let (vs, vd, cases) = read_to_byte_buffer_lem b bb (length p) vb vbb in
    elim cases [
      | inl (why, failed, same_b, same_bb) ↦ absurd (elim why [
        | inl full ↦ omega (arith, ap room ebb)
        | inr short ↦ omega (arith, ap length e, whole)
      ])
      | inr (fits, enough, answer, seen_src, seen_dst) ↦
          let src' = (read_to_byte_buffer (length p) (b, bb)).1.0 in
          let dst' = (read_to_byte_buffer (length p) (b, bb)).1.1 in
          let front : (view dst').rest ≡ groups 4 type ++ body =
            ap (λ s. s.rest) seen_dst
            ∙ ap₂ (λ s xs. s.rest ++ take (length p) xs) ebb e
            ∙ take-append p tail (length p) refl in
          let empty : (view dst').done ≡ [] = ap (λ s. s.done) seen_dst ∙ ap (λ s. s.done) ebb in
          let no_done : length (view dst').done ≡ 0 = ap length empty in
          let vm = moved_front-IsValid dst' (groups 4 type) body vd front in
          let seen_m = moved_front-view dst' (groups 4 type) body vd front in
          let space : 1 ≤ room (view (moved dst' (length (groups 4 type)))) = omega (
            arith,
            size,
            ap room seen_m,
            ap (λ s. s.capacity) seen_dst,
            ap (λ s. s.capacity) ebb,
            no_done,
            length-append (view dst').done (groups 4 type),
          ) in
          let (still_valid, reset_valid, committed, was_reset) = commit-reset_refine src' vs in
          record {
            answer = answer;
            left = record {
              valid = still_valid;
              seen =
                  committed
                  ∙ ap commit seen_src
                  ∙ ap
                      (λ xs. record {
                        capacity = (view b).capacity;
                        done = [];
                        rest = drop (length p) xs;
                      })
                      e
                  ∙ ap {A = List ℕ}
                      (λ xs. record { capacity = (view b).capacity; done = []; rest = xs })
                      (drop-append p tail (length p) refl);
            };
            read_type = var_int-Codec.reads dst' type body vd ht front;
            packet = rw (write-ok _ vm (0 ∷ []) space) (record {
              valid = filled-IsValid _ vm (0 ∷ []) space;
              read =
                  ap (λ s. s.done) (filled-view _ vm (0 ∷ []) space)
                  ∙ ap (λ s. s.done) seen_m
                  ∙ ap (λ xs. xs ++ groups 4 type) empty;
              unread =
                  ap (λ s. s.rest) (filled-view _ vm (0 ∷ []) space)
                  ∙ ap (λ s. s.rest ++ 0 ∷ []) seen_m;
            });
          }
    ]

module _ {W : Type 0} (fresh : ℕ → List ℕ)
    (handle : ℕ → Reader (ByteBuffer × (ByteBuffer × W)) Bool)
    (complain : ℕ → Reader W (Unit {0})) where
  take_packet-ok :
      (x : Outcome (Unit {0}) × (ByteBuffer × ByteBuffer)) (w : W)
      → x.0 ≡ ok tt
      → take_packet fresh handle complain x w
        ≡ with_type fresh handle complain (read_var_int x.1.1) (commit_read x.1.0, w)
  unfolding take_packet
  take_packet-ok (ok _, (b, bb)) w e = refl
  take_packet-ok (fail, (b, bb)) w e = cc
  take_packet-ok (undefined, (b, bb)) w e = cc
  take_packet-ok (exited, (b, bb)) w e = cc
  take_packet-ok (stuck, (b, bb)) w e = cc

  -- One round of the loop at a frame: the packet goes to `handle` in a buffer of its own, and the bytes
  -- behind the frame wait as they are.
  pub record Round (type : ℕ) (body tail : List ℕ) (capacity : ℕ) (w : W)
      (r : Outcome Bool × (ByteBuffer × W)) : Type 0 where
    pub bb : ByteBuffer
    pub left : ByteBuffer
    pub packet : IsPacket type body bb
    pub waits : Waits capacity tail left
    pub result : r ≡ after_packet fresh handle complain type (handle type (bb, (left, w)))

  pub packet_round_lem :
      (type : ℕ) (body tail : List ℕ) (capacity : ℕ) (b : ByteBuffer) (w : W)
      → ((n : ℕ) → length (fresh n) ≡ n)
      → type < 2 ^ 32
      → length (groups 4 type ++ body) + 1 < 2 ^ 32
      → Waits capacity (frame (groups 4 type ++ body) ++ tail) b
      → Round type body tail capacity w (packet_round fresh handle complain (b, w))
  unfolding packet_round with_length with_type
  packet_round_lem type body tail capacity b w mem ht hl at =
      let p = groups 4 type ++ body in
      let n = length p in
      let front : (view b).rest ≡ groups 4 n ++ (p ++ tail) =
        ap (λ s. s.rest) at.seen ∙ append_assoc (groups 4 n) p tail in
      let b1 = moved b (length (groups 4 n)) in
      let v1 = moved_front-IsValid b (groups 4 n) (p ++ tail) at.valid front in
      let rest1 = moved_front-rest b (groups 4 n) (p ++ tail) at.valid front in
      let enough : n ≤ length (view b1).rest =
        omega (arith, ap length rest1, length-append p tail) in
      let size : packet_size n ≡ n + 1 = omega (arith, hl) in
      let (vbb, ebb) = init_lem (fresh (n + 1 + 1)) (n + 1) (mem (n + 1 + 1)) (omega arith) in
      let boxed =
        Boxed-lem type body tail b1 (init (fresh (n + 1 + 1)) (n + 1)) ht v1 rest1 vbb ebb in
      rw
        (
          var_int-Codec.reads b n (p ++ tail) at.valid (omega (arith, hl)) front,
          size,
          can_read_lem b1 v1 n,
          le→leb _ _ enough,
          take_packet-ok (read_to_byte_buffer n (b1, init (fresh (n + 1 + 1)) (n + 1))) w
              boxed.answer,
          boxed.read_type,
        )
        (record {
          bb = _;
          left = _;
          packet = boxed.packet;
          waits = record {
            valid = boxed.left.valid;
            seen =
                boxed.left.seen
                ∙ ap (λ k. record { capacity = k; done = []; rest = tail })
                    (ap (λ s. s.capacity) at.seen);
          };
          result = refl;
        })
