-- ===== src/Framing/Keeps.antt =====
-- What every packet and every complaint keeps of the rest of the state, the bytes that arrive keep
-- (`AddReceivedData` of Src/Server/Protocol/cProtocol_impl.cpp and
-- Src/Client/peer_connection_client.cpp).
use p2pchat.Prelude.{ℕ, zero, suc, ◌+◌, ◌==◌, Bool, true, false, not, Bool-cases, inl, inr, List}
use p2pchat.Outcome.{Outcome, ok, fail, undefined, exited, stuck, Reader}
use p2pchat.IniFile.{AString}
use p2pchat.ByteBuffer.{
  ByteBuffer, write, get_readable_space, can_read_bytes, read_to_byte_buffer, init, commit_read,
}
use p2pchat.ByteBuffer.VarInt.{read_var_int}
use p2pchat.Framing.{
  after_packet, with_type, take_packet, with_length, packet_size, packet_round, go_on, packet_loop,
  add_received_data,
}

module _ {W : Type 0} (fresh : ℕ → List ℕ)
    (handle : ℕ → Reader (ByteBuffer × (ByteBuffer × W)) Bool) (complain : ℕ → Reader W (Unit {0}))
    (P : W → Type 0)
    (handles : (type : ℕ) (bb b : ByteBuffer) (w : W) → P w → P (handle type (bb, (b, w))).1.1.1)
    (complains : (type : ℕ) (w : W) → P w → P (complain type w).1) where
  after_packet-keeps :
      (type : ℕ) (r : Outcome Bool × (ByteBuffer × (ByteBuffer × W)))
      → P r.1.1.1
      → P (after_packet fresh handle complain type r).1.1
  unfolding after_packet
  after_packet-keeps type (ok true, (bb, (b, w))) h =
      elim (Bool-cases (not (get_readable_space bb == 1))) [
        | inl e ↦ rw e (complains type w h)
        | inr e ↦ rw e h
      ]
  after_packet-keeps type (ok false, (bb, (b, w))) h = h
  after_packet-keeps type (fail, (bb, (b, w))) h = h
  after_packet-keeps type (undefined, (bb, (b, w))) h = h
  after_packet-keeps type (exited, (bb, (b, w))) h = h
  after_packet-keeps type (stuck, (bb, (b, w))) h = h

  with_type-keeps :
      (r : Outcome ℕ × ByteBuffer) (b : ByteBuffer) (w : W)
      → P w
      → P (with_type fresh handle complain r (b, w)).1.1
  unfolding with_type
  with_type-keeps (ok type, bb) b w h = after_packet-keeps type _ (handles type _ b w h)
  with_type-keeps (fail, bb) b w h = h
  with_type-keeps (undefined, bb) b w h = h
  with_type-keeps (exited, bb) b w h = h
  with_type-keeps (stuck, bb) b w h = h

  take_packet-keeps :
      (r : Outcome (Unit {0}) × (ByteBuffer × ByteBuffer)) (w : W)
      → P w
      → P (take_packet fresh handle complain r w).1.1
  unfolding take_packet
  take_packet-keeps (ok _, (b, bb)) w h = with_type-keeps (read_var_int bb) (commit_read b) w h
  take_packet-keeps (fail, (b, bb)) w h = h
  take_packet-keeps (undefined, (b, bb)) w h = h
  take_packet-keeps (exited, (b, bb)) w h = h
  take_packet-keeps (stuck, (b, bb)) w h = h

  with_length-keeps :
      (r : Outcome ℕ × ByteBuffer) (w : W) → P w → P (with_length fresh handle complain r w).1.1
  unfolding with_length
  with_length-keeps (ok len, b) w h = elim (Bool-cases (not (can_read_bytes b len))) [
    | inl e ↦ rw e h
    | inr e ↦ rw e (
        take_packet-keeps
          (read_to_byte_buffer len (b, init (fresh (packet_size len + 1)) (packet_size len))) w h)
  ]
  with_length-keeps (fail, b) w h = h
  with_length-keeps (undefined, b) w h = h
  with_length-keeps (exited, b) w h = h
  with_length-keeps (stuck, b) w h = h

  go_on-keeps :
      (r : Outcome Bool × (ByteBuffer × W)) (next : Reader (ByteBuffer × W) (Unit {0}))
      → P r.1.1
      → ((b : ByteBuffer) (w : W) → P w → P (next (b, w)).1.1)
      → P (go_on fresh handle complain r next).1.1
  unfolding go_on
  go_on-keeps (ok true, (b, w)) next h g = g b w h
  go_on-keeps (ok false, (b, w)) next h g = h
  go_on-keeps (fail, (b, w)) next h g = h
  go_on-keeps (undefined, (b, w)) next h g = h
  go_on-keeps (exited, (b, w)) next h g = h
  go_on-keeps (stuck, (b, w)) next h g = h

  packet_loop-keeps :
      (fuel : ℕ) (b : ByteBuffer) (w : W)
      → P w
      → P (packet_loop fresh handle complain fuel (b, w)).1.1
  unfolding packet_loop packet_round
  packet_loop-keeps zero b w h = h
  packet_loop-keeps (suc fuel) b w h =
      go_on-keeps (packet_round fresh handle complain (b, w)) _
        (with_length-keeps (read_var_int b) w h) (packet_loop-keeps fuel)

  pub add_received_data-keeps :
      (full : Reader W (Unit {0})) (bytes : AString) (b : ByteBuffer) (w : W)
      → P w
      → P (full w).1
      → P (add_received_data fresh handle complain full bytes (b, w)).1.1
  unfolding add_received_data
  add_received_data-keeps full bytes b w h g = elim (Bool-cases (not (write b bytes).0)) [
    | inl e ↦ rw e g
    | inr e ↦
        rw e (packet_loop-keeps (suc (get_readable_space (write b bytes).1)) (write b bytes).1 w h)
  ]
