-- ===== src/Session.antt =====
-- A connected client: cClientHandle (Src/Server/ClientHandle.h) with its cProtocol_impl
-- (Src/Server/Protocol/cProtocol_impl.h), and the packets that are composed with a cPacketizer
-- (Src/Server/Protocol/Packetizer.h).
pub mod Packets
pub mod Cores
pub mod Sent
pub mod Disconnect
pub mod Fresh
mod Tests
pub mod Sending
use p2pchat.Prelude.{
  ℕ, zero, suc, ◌+◌, ◌%◌, ◌^◌, Bool, true, false, not, List, [], ◌∷◌, ◌++◌, length, if◌then◌else◌,
  ℤ, pos,
}
use p2pchat.Outcome.{Outcome, ok, fail, undefined, exited, stuck, Reader}
use p2pchat.IniFile.{AString}
use p2pchat.ByteBuffer.{ByteBuffer, init, get_used_space, read_all, commit_read}
use p2pchat.ByteBuffer.Numbers.{write_be_int32, write_be_uint32, write_be_int64}
use p2pchat.ByteBuffer.VarInt.{write_var_int32}
use p2pchat.ByteBuffer.Strings.{write_var_utf8_string}

-- `eState`, in its order.
pub data State : Type 0 where
  connected authenticating authenticated working destroying destroyed : State

-- The number of a state, by which the source compares and sends it.
abbrev pub rank : State → ℕ
rank connected = 0
rank authenticating = 1
rank authenticated = 2
rank working = 3
rank destroying = 4
rank destroyed = 5

-- `m_State`, `m_ReceivedData`, `m_OutPacketBuffer` and `m_OutPacketLenBuffer`.
pub record Protocol : Type 0 where
  pub state : ℕ
  pub received_data : ByteBuffer
  pub out_packet_buffer : ByteBuffer
  pub out_packet_len_buffer : ByteBuffer

-- `m_Link` is a flag with the bytes that were given to its `Send`; times are in milliseconds.
pub record ClientHandle : Type 0 where
  pub ip_string : AString
  pub username : AString
  pub protocol : Protocol
  pub incoming_data : AString
  pub outgoing_data : AString
  pub has_sent_dc : Bool
  pub ticks_since_last_packet : ℕ
  pub ping : ℤ
  pub ping_id : ℕ
  pub ping_start_time : ℕ
  pub state : State
  pub unique_id : ℕ
  pub has_link : Bool
  pub sent : AString

-- The constructor of cProtocol_impl; `fresh n` is the memory that `new char[n]` gives.
unfoldable pub new_protocol : (ℕ → List ℕ) → Protocol
new_protocol fresh = record {
  state = 1;
  received_data = init (fresh 65537) 65536;
  out_packet_buffer = init (fresh 65537) 65536;
  out_packet_len_buffer = init (fresh 21) 20;
}

-- The constructor of cClientHandle at a time, with the number of the client; `OnLinkCreated` follows.
unfoldable pub new_client : (ℕ → List ℕ) → ℕ → AString → ℕ → ClientHandle
new_client fresh now ip id = record {
  ip_string = ip;
  username = [];
  protocol = new_protocol fresh;
  incoming_data = [];
  outgoing_data = [];
  has_sent_dc = false;
  ticks_since_last_packet = 0;
  ping = pos 1000;
  ping_id = 1;
  ping_start_time = now;
  state = connected;
  unique_id = id;
  has_link = true;
  sent = [];
}

unfoldable pub send_data : AString → ClientHandle → ClientHandle
send_data bytes c = record c {
  outgoing_data = if c.has_sent_dc then c.outgoing_data else c.outgoing_data ++ bytes;
}

-- One call on a cPacketizer.
pub data Field : Type 0 where
  be_int32 be_int64 : ℤ → Field
  be_uint32 var_int32 : ℕ → Field
  string : AString → Field

unfoldable pub write_field : Field → ByteBuffer → Bool × ByteBuffer
write_field (be_int32 z) b = write_be_int32 z b
write_field (be_int64 z) b = write_be_int64 z b
write_field (be_uint32 n) b = write_be_uint32 n b
write_field (var_int32 n) b = write_var_int32 n b
write_field (string s) b = write_var_utf8_string s b

-- `VERIFY` of a write.
unfoldable pub verify : Bool × ByteBuffer → Outcome (Unit {0}) × ByteBuffer
verify (true, b) = (ok tt, b)
verify (false, b) = (exited, b)

abbrev pub and_then :
    Outcome (Unit {0}) × ByteBuffer → Reader ByteBuffer (Unit {0}) → Outcome (Unit {0}) × ByteBuffer
and_then (ok _, b) k = k b
and_then (r, b) k = (r, b)

unfoldable pub write_fields : List Field → Reader ByteBuffer (Unit {0})
write_fields [] b = (ok tt, b)
write_fields (f ∷ fs) b = and_then (verify (write_field f b)) (write_fields fs)

-- What `ReadAll` puts into a string that was empty.
abbrev pub or_empty : Outcome AString → AString
or_empty (ok s) = s
or_empty _ = []

unfoldable pub send_packet : ClientHandle → ClientHandle
send_packet c =
    let packet_len = get_used_space c.protocol.out_packet_buffer % 2 ^ 32 in
    let len_buffer = (write_var_int32 packet_len c.protocol.out_packet_len_buffer).1 in
    let (len_to_send, len_buffer') = read_all len_buffer in
    let (data_to_send, out) = read_all c.protocol.out_packet_buffer in
    let c' = send_data (or_empty len_to_send ++ or_empty data_to_send) c in
    record c' {
      protocol = record c'.protocol {
        out_packet_buffer = commit_read out;
        out_packet_len_buffer = commit_read len_buffer';
      };
    }

-- The end of a cPacketizer's life, after its fields.
unfoldable pub close_packet : Outcome (Unit {0}) → ClientHandle → Outcome (Unit {0}) × ClientHandle
close_packet (ok _) c = (ok tt, send_packet c)
close_packet fail c = (fail, c)
close_packet undefined c = (undefined, c)
close_packet exited c = (exited, c)
close_packet stuck c = (stuck, c)

-- The client with another buffer for its packet.
abbrev pub with_out : ByteBuffer → ClientHandle → ClientHandle
with_out b c = record c { protocol = record c.protocol { out_packet_buffer = b } }

-- A cPacketizer of a type, its fields and its destructor.
unfoldable pub packet : ℕ → List Field → Reader ClientHandle (Unit {0})
packet type fields c =
    let opened = (write_var_int32 type c.protocol.out_packet_buffer).1 in
    let (r, out) = write_fields fields opened in close_packet r (with_out out c)
