-- ===== src/Framing/Stream.antt =====
-- A stream of frames, however the network cuts it (`AddReceivedData` of
-- Src/Server/Protocol/cProtocol_impl.cpp and Src/Client/peer_connection_client.cpp).
use p2pchat.Prelude.{
  ℕ, zero, suc, subst, ◌+◌, ◌^◌, ◌≤◌, ◌<◌, ◌≡◌, refl, ap, ◌∙◌, Bool, true, List, [], ◌∷◌, ◌++◌, map,
  length, length-append, append_assoc, All, arith,
}
use p2pchat.Outcome.{ok, Reader}
use p2pchat.ByteBuffer.Valid.{readable_space_lem}
use p2pchat.ByteBuffer.Write.{filled}
use p2pchat.ByteBuffer.VarInt.Groups.{groups, groups_shape}
use p2pchat.ByteBuffer.{ByteBuffer, get_readable_space}
use p2pchat.Session.Packets.{frame}
use p2pchat.Framing.Frames.{Waits, filled-Waits, IsPacket, packet_round_lem}
use p2pchat.Framing.Short.{IsPartial, packet_round-short}
use p2pchat.Framing.{after_packet, go_on, packet_loop, add_received_data}

-- A packet by its type and the bytes behind it.
abbrev pub Packet : Type 0
Packet = ℕ × List ℕ

abbrev pub packet_bytes : Packet → List ℕ
packet_bytes (type, body) = groups 4 type ++ body

abbrev pub IsSendable : Packet → Type 0
IsSendable (type, body) = (type < 2 ^ 32) × (length (groups 4 type ++ body) + 1 < 2 ^ 32)

abbrev pub frames : List Packet → List ℕ
frames [] = []
frames (p ∷ ps) = frame (packet_bytes p) ++ frames ps

length-frames_le : (ps : List Packet) → All IsSendable ps → length ps ≤ length (frames ps)
length-frames_le [] h = omega arith
length-frames_le (p ∷ ps) (h, hs) = omega (
  arith,
  length-append (frame (packet_bytes p)) (frames ps),
  length-append (groups 4 (length (packet_bytes p))) (packet_bytes p),
  groups_shape 4 (length (packet_bytes p)) (omega (arith, h)),
  length-frames_le ps hs,
)

length-map : {A B : Type 0} (f : A → B) (xs : List A) → length (map f xs) ≡ length xs
length-map f [] = refl
length-map f (x ∷ xs) = ap suc (length-map f xs)

-- The requests `Q` are sent as packets, and `act` is what they mean where `P` holds.
module _ {W Q : Type 0} (fresh : ℕ → List ℕ)
    (handle : ℕ → Reader (ByteBuffer × (ByteBuffer × W)) Bool) (complain : ℕ → Reader W (Unit {0}))
    (packet_of : Q → Packet) (act : Q → W → W) (P : W → Type 0) where
  -- The handler knows the packet, reads it to its end, and does what `act` says, the buffer of
  -- received bytes aside.
  unfoldable pub Handles : Q → Type 0
  Handles q =
      (bb b : ByteBuffer) (w : W)
      → P w
      → IsPacket (packet_of q).0 (packet_of q).1 bb
      → (bb' : ByteBuffer) × (handle (packet_of q).0 (bb, (b, w)) ≡ (ok true, (bb', (b, act q w))))
        × (get_readable_space bb' ≡ 1)
        × P (act q w)

  abbrev pub act_all : List Q → W → W
  act_all [] w = w
  act_all (p ∷ ps) w = act_all ps (act p w)

  -- The loop on waiting frames and the beginning of one.
  pub packet_loop_lem :
      (ps : List Q) (partial : List ℕ) (capacity fuel : ℕ) (b : ByteBuffer) (w : W)
      → ((n : ℕ) → length (fresh n) ≡ n)
      → All IsSendable (map packet_of ps)
      → All Handles ps
      → P w
      → IsPartial partial
      → length ps < fuel
      → Waits capacity (frames (map packet_of ps) ++ partial) b
      → (left : ByteBuffer) × Waits capacity partial left
        × (packet_loop fresh handle complain fuel (b, w) ≡ (ok tt, (left, act_all ps w)))
  unfolding packet_loop go_on Handles after_packet
  packet_loop_lem ps partial capacity zero b w mem hs hh holds short few at = absurd (omega arith)
  packet_loop_lem [] partial capacity (suc fuel) b w mem hs hh holds short few at =
      let (left, waits, e) =
        packet_round-short fresh handle complain capacity partial b w short at in
      (left, waits, rw e refl)
  packet_loop_lem (p ∷ ps) partial capacity (suc fuel) b w mem (h, hs) (k, hh) holds short few at =
      let at' : Waits capacity
          (frame (packet_bytes (packet_of p)) ++ (frames (map packet_of ps) ++ partial)) b =
        record {
          valid = at.valid;
          seen =
              at.seen
              ∙ ap (λ xs. record { capacity = capacity; done = []; rest = xs })
                  (append_assoc (frame (packet_bytes (packet_of p))) (frames (map packet_of ps))
                    partial);
        } in
      let round =
        packet_round_lem fresh handle complain (packet_of p).0 (packet_of p).1
          (frames (map packet_of ps) ++ partial) capacity b w mem h.0 h.1 at' in
      let (bb', handled, one, holds') = k round.bb round.left w holds round.packet in
      let (left, waits, e) =
        packet_loop_lem ps partial capacity fuel round.left (act p w) mem hs hh holds' short
          (omega arith) round.waits in
      (left, waits, rw (round.result, handled, one) e)

  -- Where the bytes that waited in a valid buffer and those that arrive fit it, and together are the
  -- frames of a list of requests and the beginning of another frame, and the handler knows each
  -- request's packet, reads it to its end and does what `act` says, `add_received_data` succeeds, has
  -- done what the requests say, in order, and keeps that beginning. A packet has a type below 2^32 and
  -- at most 2^32 - 2 bytes, and the memory that `new` gives has the length that was asked for.
  pub add_received_data-frames :
      (ps : List Q) (old bytes partial : List ℕ) (capacity : ℕ) (full : Reader W (Unit {0}))
      (b : ByteBuffer) (w : W)
      → ((n : ℕ) → length (fresh n) ≡ n)
      → All IsSendable (map packet_of ps)
      → All Handles ps
      → P w
      → IsPartial partial
      → old ++ bytes ≡ frames (map packet_of ps) ++ partial
      → length old + length bytes ≤ capacity
      → Waits capacity old b
      → (left : ByteBuffer) × Waits capacity partial left
        × (add_received_data fresh handle complain full bytes (b, w)
            ≡ (ok tt, (left, act_all ps w)))
  unfolding add_received_data
  add_received_data-frames ps old bytes partial capacity full b w mem hs hh holds short e fits at =
      let (written, waits) = filled-Waits capacity old bytes b at fits in
      let at' : Waits capacity (frames (map packet_of ps) ++ partial) (filled b bytes) =
        subst (λ xs. Waits capacity xs (filled b bytes)) e waits in
      let enough : length ps < suc (get_readable_space (filled b bytes)) = omega (
        arith,
        readable_space_lem (filled b bytes) at'.valid,
        ap (λ s. length s.rest) at'.seen,
        length-append (frames (map packet_of ps)) partial,
        length-frames_le (map packet_of ps) hs,
        length-map packet_of ps,
      ) in
      rw written (
        packet_loop_lem ps partial capacity (suc (get_readable_space (filled b bytes)))
          (filled b bytes) w mem hs hh holds short enough at')
