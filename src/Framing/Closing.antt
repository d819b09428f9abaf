-- ===== src/Framing/Closing.antt =====
-- A packet whose handler clears the buffer of received bytes (`AddReceivedData` and `Close` of
-- Src/Client/peer_connection_client.cpp).
use p2pchat.Prelude.{
  ℕ, suc, subst, ◌-◌, ◌+◌, ◌≤◌, ◌≡◌, refl, ap, Bool, true, List, [], ◌++◌, length, length-append,
  arith,
}
use p2pchat.Outcome.{ok, Reader}
use p2pchat.ByteBuffer.Valid.{readable_space_lem}
use p2pchat.ByteBuffer.Write.{filled}
use p2pchat.ByteBuffer.VarInt.Groups.{groups, groups_shape}
use p2pchat.ByteBuffer.{ByteBuffer, get_readable_space}
use p2pchat.Session.Packets.{frame}
use p2pchat.Framing.Frames.{Waits, filled-Waits, IsPacket, packet_round_lem}
use p2pchat.Framing.Short.{IsPartial, packet_round-short}
use p2pchat.Framing.Stream.{Packet, packet_bytes, IsSendable}
use p2pchat.Framing.{after_packet, go_on, packet_loop, add_received_data}

-- Of a frame of nothing, the one byte is missing.
pub nothing-IsPartial : IsPartial []
unfolding groups
nothing-IsPartial = record {
  packet = [];
  next = 0;
  missing = [];
  short = omega arith;
  whole = refl;
}

module _ {W : Type 0} (fresh : ℕ → List ℕ)
    (handle : ℕ → Reader (ByteBuffer × (ByteBuffer × W)) Bool)
    (complain : ℕ → Reader W (Unit {0})) where
  -- The handler reads the packet to its end, and clears the bytes that wait.
  pub record Closes (capacity : ℕ) (p : Packet) (w w' : W) : Type 0 where
    pub handles :
        (bb b : ByteBuffer) (tail : List ℕ)
        → IsPacket p.0 p.1 bb
        → Waits capacity tail b
        → (bb' b' : ByteBuffer) × (handle p.0 (bb, (b, w)) ≡ (ok true, (bb', (b', w'))))
          × (get_readable_space bb' ≡ 1)
          × Waits capacity [] b'

  packet_loop-closing :
      (p : Packet) (tail : List ℕ) (capacity fuel : ℕ) (b : ByteBuffer) (w w' : W)
      → ((n : ℕ) → length (fresh n) ≡ n)
      → IsSendable p
      → Closes capacity p w w'
      → Waits capacity (frame (packet_bytes p) ++ tail) b
      → (left : ByteBuffer) × Waits capacity [] left
        × (packet_loop fresh handle complain (suc (suc fuel)) (b, w) ≡ (ok tt, (left, w')))
  unfolding packet_loop go_on after_packet
  packet_loop-closing p tail capacity fuel b w w' mem h closes at =
      let round = packet_round_lem fresh handle complain p.0 p.1 tail capacity b w mem h.0 h.1 at in
      let (bb', b', handled, one, empty) =
        closes.handles round.bb round.left tail round.packet round.waits in
      let (left, waits, e) =
        packet_round-short fresh handle complain capacity [] b' w' nothing-IsPartial empty in
      (left, waits, rw (round.result, handled, one, e) refl)

  -- Where a packet whose handler clears the waiting bytes is at the front of what waits in a valid buffer
  -- and arrives, and all of it fits, whatever stands behind it is dropped.
  pub add_received_data-closing :
      (p : Packet) (old bytes tail : List ℕ) (capacity : ℕ) (full : Reader W (Unit {0}))
      (b : ByteBuffer) (w w' : W)
      → ((n : ℕ) → length (fresh n) ≡ n)
      → IsSendable p
      → Closes capacity p w w'
      → old ++ bytes ≡ frame (packet_bytes p) ++ tail
      → length old + length bytes ≤ capacity
      → Waits capacity old b
      → (left : ByteBuffer) × Waits capacity [] left
        × (add_received_data fresh handle complain full bytes (b, w) ≡ (ok tt, (left, w')))
  unfolding add_received_data
  add_received_data-closing p old bytes tail capacity full b w w' mem h closes e fits at =
      let (written, waits) = filled-Waits capacity old bytes b at fits in
      let n = get_readable_space (filled b bytes) in
      let some_bytes : n ≡ suc (n - 1) = omega (
        arith,
        readable_space_lem (filled b bytes) waits.valid,
        ap (λ s. length s.rest) waits.seen,
        ap length e,
        length-append (frame (packet_bytes p)) tail,
        length-append (groups 4 (length (packet_bytes p))) (packet_bytes p),
        groups_shape 4 (length (packet_bytes p)) (omega (arith, h)),
      ) in
      let at' : Waits capacity (frame (packet_bytes p) ++ tail) (filled b bytes) =
        subst (λ xs. Waits capacity xs (filled b bytes)) e waits in
      rw (written, some_bytes)
        (packet_loop-closing p tail capacity (n - 1) (filled b bytes) w w' mem h closes at')
