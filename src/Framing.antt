-- ===== src/Framing.antt =====
-- `AddReceivedData`, which the server (Src/Server/Protocol/cProtocol_impl.cpp) and the client
-- (Src/Client/peer_connection_client.cpp) both have: the bytes of a connection are cut into packets.
-- What the packets do is the parameter `handle`, and what follows a packet that was not read to its end
-- is `complain`. The buffer of received bytes stands beside the rest of the state; the client's packets
-- may clear it, the server's handlers leave it `aside`.
pub mod Short
pub mod Frames
pub mod Stream
pub mod Keeps
pub mod Total
pub mod Reads
pub mod Fields
pub mod Closing
mod Tests
use p2pchat.Prelude.{
  ℕ, zero, suc, ◌+◌, ◌%◌, ◌^◌, Bool, true, false, not, ◌==◌, List, [], ◌∷◌, if◌then◌else◌,
}
use p2pchat.Outcome.{Outcome, ok, fail, undefined, exited, stuck, Reader}
use p2pchat.IniFile.{AString}
use p2pchat.ByteBuffer.{
  ByteBuffer, init, write, get_readable_space, can_read_bytes, reset_read, commit_read,
  read_to_byte_buffer,
}
use p2pchat.ByteBuffer.VarInt.{read_var_int}

-- A handler that does not touch the buffer of received bytes.
unfoldable pub aside :
    {W : Type 0} → Reader (ByteBuffer × W) Bool → Reader (ByteBuffer × (ByteBuffer × W)) Bool
aside h (bb, (b, w)) = let (r, (bb', w')) = h (bb, w) in (r, (bb', (b, w')))

-- The size of the packet's own buffer, one more than the packet, as a UInt32.
abbrev pub packet_size : ℕ → ℕ
packet_size len = (len + 1) % 2 ^ 32

module _ {W : Type 0} (fresh : ℕ → List ℕ)
    (handle : ℕ → Reader (ByteBuffer × (ByteBuffer × W)) Bool)
    (complain : ℕ → Reader W (Unit {0})) where
  -- Behind `HandlePacket`: is the loop to go on?
  unfoldable pub after_packet :
      ℕ → Outcome Bool × (ByteBuffer × (ByteBuffer × W)) → Outcome Bool × (ByteBuffer × W)
  after_packet type (ok true, (bb, (b, w))) =
      let (r, w') = complain type w in
      if not (get_readable_space bb == 1)
      then (
        elim r [
          | ok _ ↦ ok true
          | fail ↦ fail
          | undefined ↦ undefined
          | exited ↦ exited
          | stuck ↦ stuck
        ],
        (b, w'),
      )
      else (ok true, (b, w))
  after_packet type (ok false, (bb, s)) = (ok false, s)
  after_packet type (fail, (bb, s)) = (fail, s)
  after_packet type (undefined, (bb, s)) = (undefined, s)
  after_packet type (exited, (bb, s)) = (exited, s)
  after_packet type (stuck, (bb, s)) = (stuck, s)

  -- Behind the packet's type.
  unfoldable pub with_type : Outcome ℕ × ByteBuffer → Reader (ByteBuffer × W) Bool
  with_type (ok type, bb) s = after_packet type (handle type ((write bb (0 ∷ [])).1, s))
  with_type (fail, bb) s = (ok false, s)
  with_type (undefined, bb) s = (undefined, s)
  with_type (exited, bb) s = (exited, s)
  with_type (stuck, bb) s = (stuck, s)

  -- The packet in its own buffer; the `VERIFY` of `ReadToByteBuffer`, and `CommitRead`.
  unfoldable pub take_packet :
      Outcome (Unit {0}) × (ByteBuffer × ByteBuffer) → W → Outcome Bool × (ByteBuffer × W)
  take_packet (ok _, (b, bb)) w = with_type (read_var_int bb) (commit_read b, w)
  take_packet (_, (b, bb)) w = (exited, (b, w))

  -- Behind the length.
  unfoldable pub with_length : Outcome ℕ × ByteBuffer → W → Outcome Bool × (ByteBuffer × W)
  with_length (ok len, b) w =
      let size = packet_size len in
      let next = take_packet (read_to_byte_buffer len (b, init (fresh (size + 1)) size)) w in
      if not (can_read_bytes b len) then (ok false, (reset_read b, w)) else next
  with_length (fail, b) w = (ok false, (reset_read b, w))
  with_length (undefined, b) w = (undefined, (b, w))
  with_length (exited, b) w = (exited, (b, w))
  with_length (stuck, b) w = (stuck, (b, w))

  -- One round.
  unfoldable pub packet_round : Reader (ByteBuffer × W) Bool
  packet_round (b, w) = with_length (read_var_int b) w

  unfoldable pub go_on :
      Outcome Bool × (ByteBuffer × W)
      → Reader (ByteBuffer × W) (Unit {0})
      → Outcome (Unit {0}) × (ByteBuffer × W)
  go_on (ok true, s) next = next s
  go_on (ok false, s) next = (ok tt, s)
  go_on (fail, s) next = (fail, s)
  go_on (undefined, s) next = (undefined, s)
  go_on (exited, s) next = (exited, s)
  go_on (stuck, s) next = (stuck, s)

  -- The loop. A round takes a byte at least.
  unfoldable pub packet_loop : ℕ → Reader (ByteBuffer × W) (Unit {0})
  packet_loop zero s = (stuck, s)
  packet_loop (suc fuel) s = go_on (packet_round s) (packet_loop fuel)

  -- The whole method; `full` is the call for a buffer that cannot take the bytes.
  unfoldable pub add_received_data :
      Reader W (Unit {0}) → AString → Reader (ByteBuffer × W) (Unit {0})
  add_received_data full bytes (b, w) =
      let (written, b') = write b bytes in
      let (r, w') = full w in
      let run = packet_loop (suc (get_readable_space b')) (b', w) in
      if not written then (r, (b, w')) else run
