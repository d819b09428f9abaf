-- ===== src/Conversation.antt =====
-- A text from one chat client to another, through the server: `SendToPeer` and `DataReceived` of
-- Src/Client/peer_connection_client.cpp, and `DataReceived` of Src/Server/Protocol/cProtocol_impl.cpp with
-- `ForwardMediaMsg` of Src/Server/Server.cpp.
mod Tests
use p2pchat.Prelude.{
  ℕ, ◌+◌, ◌-◌, ◌%◌, ◌^◌, ◌<◌, ◌≤◌, ◌≡◌, refl, sym, ◌∙◌, ap, Bool, true, some, List, [], ◌∷◌, ◌++◌,
  map, length, length-append, append-nil, append_assoc, arith, ℤ, pos, negsuc, to_bits, of_bits,
}
use p2pchat.Outcome.{Outcome, ok, modify}
use p2pchat.IniFile.{AString}
use p2pchat.ByteBuffer.{ByteBuffer}
use p2pchat.ByteBuffer.VarInt.Groups.{groups, groups_shape}
use p2pchat.ByteBuffer.Strings.Codecs.{string_bytes}
use p2pchat.Framing.Frames.{Waits}
use p2pchat.Framing.Stream.{frames}
use p2pchat.Framing.Closing.{nothing-IsPartial}
use p2pchat.Session.{ClientHandle, var_int32, string}
use p2pchat.Session.Packets.{IsBlank, fields_bytes, payload, frame}
use p2pchat.Session.Sent.{Sent, IsFit}
use p2pchat.Session.Disconnect.{to_bits_lt}
use p2pchat.Server.{Server, find_client, on_client}
use p2pchat.Server.Delivery.{put, found-All}
use p2pchat.Server.Events.{set_received_data, data_received as server_received}
use p2pchat.Server.Forward.{server_forward_media_msg-Forwarded}
use p2pchat.Server.Served.{AreFit}
use p2pchat.Server.Stream.{media_msg, request_packet}
use p2pchat.Server.Stream.Received.{data_received-requests}
use p2pchat.Client.{Sockets, Observer, Client, send_to_peer}
use p2pchat.Client.Events.{data_received}
use p2pchat.Client.Handlers.{on_message_from_peer}
use p2pchat.Client.Sent.{given_frame, with_out, out_after, packet-Posted}
use p2pchat.Client.Stream.{message_from, message_packet, with_received, IsSignedIn, IsWatching}
use p2pchat.Client.Stream.Received.{data_received-messages}

-- A text with a number, as a packet: to the server the number is the receiver's, from the server it is the
-- sender's.
abbrev pub text_bytes : ℕ → AString → AString
text_bytes id message = frame (payload 0x12 (var_int32 id ∷ string message ∷ []))

-- The packet fits the buffers.
record Fits (id : ℕ) (message : AString) : Type 0 where
  body : length (payload 0x12 (var_int32 id ∷ string message ∷ [])) ≤ 65100
  whole : length (text_bytes id message) ≤ 65536

text-Fits : (id : ℕ) (message : AString) → id < 2 ^ 32 → length message ≤ 65000 → Fits id message
text-Fits id message h few =
    let body = payload 0x12 (var_int32 id ∷ string message ∷ []) in
    let small : length body ≤ 65100 = omega (
      arith,
      length-append (groups 4 0x12) (fields_bytes (var_int32 id ∷ string message ∷ [])),
      length-append (groups 4 id) (fields_bytes (string message ∷ [])),
      length-append (string_bytes message) [],
      length-append (groups 4 (length message)) message,
      groups_shape 4 0x12 (omega arith),
      groups_shape 4 id (omega arith),
      groups_shape 4 (length message) (omega arith),
    ) in
    record {
      body = small;
      whole = omega (
        arith,
        length-append (groups 4 (length body)) body,
        groups_shape 4 (length body) (omega arith),
      );
    }

-- The packet of a text is one request for the server, and one message for the client.
text_bytes-request :
    (id : ℕ) (message : AString)
    → text_bytes id message ≡ frames (map request_packet (media_msg id message ∷ [])) ++ []
text_bytes-request id message =
    ap (λ xs. frame (groups 4 0x12 ++ (groups 4 id ++ xs))) (append-nil (string_bytes message))
    ∙ sym (append-nil _ ∙ append-nil _)

text_bytes-message :
    (id : ℕ) (message : AString)
    → text_bytes id message ≡ frames (map message_packet (message_from id message ∷ [])) ++ []
text_bytes-message id message = sym (append-nil _ ∙ append-nil _)

module _ {K O : Type 0} (sockets : Sockets K) (fresh : ℕ → List ℕ)
    (mem : (n : ℕ) → length (fresh n) ≡ n) where
  -- The text from the sender's call to the receiver's observer.
  pub record Relayed (observer : Observer (Client K O)) (now id : ℕ) (peer_id : ℤ)
      (message : AString) (k : K) (a b : Client K O) (s : Server) (receiver : ClientHandle)
      : Type 0 where
    pub size : AString
    pub packet : AString
    pub out : ByteBuffer
    pub posted :
        send_to_peer sockets fresh peer_id message a
        ≡ (ok tt, with_out (sockets.send packet (sockets.send size k)) out a)
    pub sent : size ++ packet ≡ text_bytes (to_bits 32 peer_id) message
    pub told : ClientHandle
    pub queued : Sent (text_bytes id message) receiver told
    pub waiting : ByteBuffer
    pub served : server_received fresh now id (text_bytes (to_bits 32 peer_id) message) s ≡ (
      ok tt,
      (on_client id
          (modify (set_received_data waiting))
          (record s { clients = put (to_bits 32 peer_id) told s.clients })).1,
    )
    pub left : ByteBuffer
    pub heard : data_received sockets fresh observer (text_bytes id message) b ≡ (
      ok tt,
      with_received left (on_message_from_peer sockets fresh observer (of_bits 32 id) message b).1,
    )

  -- A text of up to 65,000 bytes that a connected client sends to a number is given to its socket in two
  -- parts, which together are one packet; all its bytes, at a server on which every packet can be sent,
  -- from the working client with the number `id`, on which nothing waits, queue one packet with that
  -- number and the text for the first client with the number that was named, unless that client has been
  -- sent its disconnect, and change nothing else but the memory of the buffers of these two; and that
  -- packet, at a client that has signed in, on which nothing waits, means that its observer is told of
  -- the text, or of the end of the call where the text is the hangup. The sending client's buffer for
  -- packets is empty, the receiving observer's answers to messages change the observer alone, and the
  -- memory that `new` gives has the length that was asked for.
  pub send_to_peer-Relayed :
      (observer : Observer (Client K O)) (E : O → Type 0) (now id : ℕ) (peer_id : ℤ)
      (message : AString) (k : K) (a b : Client K O) (s : Server) (sender receiver : ClientHandle)
      → IsWatching E observer
      → length message ≤ 65000
      → IsBlank 65536 a.out_packet_buffer
      → a.control_socket ≡ some k
      → a.is_connected ≡ true
      → AreFit s
      → id < 2 ^ 32
      → find_client id s.clients ≡ some sender
      → sender.protocol.state ≡ 3
      → Waits 65536 [] sender.protocol.received_data
      → find_client (to_bits 32 peer_id) s.clients ≡ some receiver
      → IsSignedIn E b
      → Waits 65536 [] b.received_data
      → Relayed observer now id peer_id message k a b s receiver
  unfolding send_to_peer
  send_to_peer-Relayed observer E now id peer_id message k a b s sender receiver watching few blank
        e on fit hid found three empty found' inb empty' =
      let to_id = to_bits 32 peer_id in
      let hto = to_bits_lt peer_id in
      let fs = var_int32 to_id ∷ string message ∷ [] in
      let p =
        packet-Posted sockets fresh a k 0x12 fs mem e blank (omega arith)
          (hto, (omega (arith, few), tt)) (omega (arith, (text-Fits to_id message hto few).body)) in
      let (waiting, waits, served) =
        data_received-requests fresh now id (media_msg to_id message ∷ []) []
          (text_bytes to_id message) [] s sender mem found three hid fit ((hto, few), tt) empty
          nothing-IsPartial (text_bytes-request to_id message)
          (omega (arith, (text-Fits to_id message hto few).whole)) in
      let f =
        server_forward_media_msg-Forwarded to_id id message s receiver found'
          (found-All IsFit to_id s.clients receiver fit.clients found').ready hid few in
      let (left, waits', heard) =
        data_received-messages sockets fresh observer E mem watching (message_from id message ∷ [])
          [] (text_bytes id message) [] b inb ((hid, few), tt) empty' nothing-IsPartial
          (text_bytes-message id message) (omega (arith, (text-Fits id message hid few).whole)) in
      record {
        size = groups 4 (length (payload 0x12 fs));
        packet = payload 0x12 fs;
        out = out_after 0x12 fs a.out_packet_buffer;
        posted =
            p.result
            ∙ ap
                (λ c. (
                  ok tt,
                  with_out (given_frame sockets c (payload 0x12 fs) k)
                      (out_after 0x12 fs a.out_packet_buffer) a,
                ))
                on;
        sent = refl;
        told = f.receiver;
        queued = f.sent;
        waiting = waiting;
        served =
            served
            ∙ ap (λ r. (ok tt, (on_client id (modify (set_received_data waiting)) r.1).1)) f.result;
        left = left;
        heard = heard;
      }
