-- ===== src/Client/Sent.antt =====
-- A packet of the chat client, as the socket gets it (cPacketizer of Src/Client/Packetizer.cpp, `SendData`
-- of Src/Client/peer_connection_client.cpp).
use p2pchat.Prelude.{
  ℕ, ◌%◌, ◌^◌, ◌≤◌, ◌<◌, ◌≡◌, refl, ap, ◌∙◌, Bool, true, false, not, Option, some, List, [], ◌++◌,
  length, All, arith, if◌then◌else◌,
}
use p2pchat.Outcome.{Outcome, ok}
use p2pchat.IniFile.{AString}
use p2pchat.ByteBuffer.{ByteBuffer, init, get_used_space, read_all, commit_read}
use p2pchat.ByteBuffer.Stream.{room, extend}
use p2pchat.ByteBuffer.Valid.{IsValid, view, used_space_lem}
use p2pchat.ByteBuffer.Queue.{init_lem, read_all_lem}
use p2pchat.ByteBuffer.VarInt.{write_var_int32}
use p2pchat.ByteBuffer.VarInt.Groups.{groups, groups_shape}
use p2pchat.ByteBuffer.VarInt.Codecs.{var_int32-Codec}
use p2pchat.Session.{Field, write_fields}
use p2pchat.Session.Packets.{IsBlank, IsField, payload, write_packet_lem, drained-IsBlank}
use p2pchat.Client.{
  Sockets, Client, at_socket, with_socket, set_socket, send_data, send_packet, packet,
}

-- The socket behind bytes, and behind a frame, that are sent if there is a connection.
abbrev pub given : {K : Type 0} → Sockets K → Bool → AString → K → K
given sockets connected bytes k = if connected then sockets.send bytes k else k

abbrev pub given_frame : {K : Type 0} → Sockets K → Bool → AString → K → K
given_frame sockets connected bytes k =
    given sockets connected bytes (given sockets connected (groups 4 (length bytes)) k)

-- The client with another socket and another buffer for its packets.
abbrev pub with_out : {K O : Type 0} → K → ByteBuffer → Client K O → Client K O
with_out k out c = record c { control_socket = some k; out_packet_buffer = out }

-- The memory of the buffer behind a packet.
abbrev pub drained : ByteBuffer → ByteBuffer
drained b = commit_read (read_all b).1

abbrev pub out_after : ℕ → List Field → ByteBuffer → ByteBuffer
out_after type fs b = drained (write_fields fs (write_var_int32 type b).1).1

-- The bytes went to the socket behind their length, if there is a connection, and nothing else changed
-- but the memory of the empty buffer in which packets are composed.
pub record Posted {K O : Type 0} (sockets : Sockets K) (k : K) (bytes : AString) (out : ByteBuffer)
    (c : Client K O) (r : Outcome (Unit {0}) × Client K O) : Type 0 where
  pub out_blank : IsBlank 65536 out
  pub result : r ≡ (ok tt, with_out (given_frame sockets c.is_connected bytes k) out c)

module _ {K O : Type 0} (sockets : Sockets K) (fresh : ℕ → List ℕ) where
  -- The choice of `send_data`, on the flag alone.
  choose :
      (connected : Bool) (bytes : AString) (k : K) (c : Client K O)
      → c.control_socket ≡ some k
      → (if not connected then (ok tt, c) else with_socket (sockets.send bytes) c)
        ≡ (ok tt, set_socket (given sockets connected bytes k) c)
  unfolding with_socket at_socket
  choose true bytes k c e = rw (e, with_socket, at_socket) refl
  choose false bytes k c e = ap {A = Option K} (λ s. (ok tt, record c { control_socket = s })) e

  pub send_data_lem :
      (bytes : AString) (k : K) (c : Client K O)
      → c.control_socket ≡ some k
      → send_data sockets fresh bytes c
        ≡ (ok tt, set_socket (given sockets c.is_connected bytes k) c)
  unfolding send_data
  send_data_lem bytes k c e = choose c.is_connected bytes k c e

  -- `send_packet` sends what has been composed, behind its length.
  send_packet-Posted :
      (c : Client K O) (k : K) (bytes : AString)
      → ((n : ℕ) → length (fresh n) ≡ n)
      → c.control_socket ≡ some k
      → IsValid c.out_packet_buffer
      → view c.out_packet_buffer ≡ record { capacity = 65536; done = []; rest = bytes }
      → length bytes ≤ 65536
      → Posted sockets k bytes (drained c.out_packet_buffer) c (send_packet sockets fresh c)
  unfolding send_packet
  send_packet-Posted c k bytes mem e v seen few =
      let len : get_used_space c.out_packet_buffer % 2 ^ 32 ≡ length bytes = omega (
        arith,
        used_space_lem c.out_packet_buffer v,
        ap (λ s. length s.done) seen,
        ap (λ s. length s.rest) seen,
      ) in
      let (vl, el) = init_lem (fresh 21) 20 (mem 21) (omega arith) in
      let w =
        var_int32-Codec.writes (init (fresh 21) 20) (length bytes) vl (omega arith)
          (omega (arith, ap room el, groups_shape 4 (length bytes) (omega arith))) in
      let (vl', al, sl) = read_all_lem _ w.valid in
      let len_all : (read_all (write_var_int32 (length bytes) (init (fresh 21) 20)).1).0
          ≡ ok (groups 4 (length bytes)) =
        al ∙ ap ok (ap (λ s. s.rest) w.seen ∙ ap (λ s. s.rest ++ groups 4 (length bytes)) el) in
      let (vd, ad, sd) = read_all_lem c.out_packet_buffer v in
      let data_all : (read_all c.out_packet_buffer).0 ≡ ok bytes =
        ad ∙ ap ok (ap (λ s. s.rest) seen) in
      record {
        out_blank = drained-IsBlank c.out_packet_buffer 65536 v (ap (λ s. s.capacity) seen);
        result =
            rw
              (
                len,
                len_all,
                data_all,
                send_data_lem (groups 4 (length bytes)) k c e,
                send_data_lem bytes (given sockets c.is_connected (groups 4 (length bytes)) k)
                    (set_socket (given sockets c.is_connected (groups 4 (length bytes)) k) c) refl,
              )
              refl;
      }

  -- A packet whose type is below 2^32, whose fields are in range and whose bytes, with the type's, are
  -- at most 65,536, is given to the socket as one frame, in two parts, its length first, by a client
  -- that is connected, has a socket and an empty buffer for packets; a client that is not connected
  -- sends nothing. Either way nothing else changes but the memory of the buffer, which is empty again.
  -- The memory that `new` gives has the length that was asked for.
  pub packet-Posted :
      (c : Client K O) (k : K) (type : ℕ) (fs : List Field)
      → ((n : ℕ) → length (fresh n) ≡ n)
      → c.control_socket ≡ some k
      → IsBlank 65536 c.out_packet_buffer
      → type < 2 ^ 32
      → All IsField fs
      → length (payload type fs) ≤ 65536
      → Posted sockets k
          (payload type fs)
          (out_after type fs c.out_packet_buffer)
          c
          (packet sockets fresh type fs c)
  unfolding packet
  packet-Posted c k type fs mem e blank ht hs few =
      let f = write_packet_lem type fs c.out_packet_buffer blank ht hs few in
      let out = (write_fields fs (write_var_int32 type c.out_packet_buffer).1).1 in
      let d =
        send_packet-Posted (record c { out_packet_buffer = out }) k (payload type fs) mem e f.valid
          (f.seen ∙ ap (λ q. extend q (payload type fs)) blank.seen) few in
      rw f.answer (record { out_blank = d.out_blank; result = d.result })
