-- ===== src/Client/Stream/Received.antt =====
-- A stream of messages that reaches a signed-in client, from the bytes to what they mean (`DataReceived` of
-- Src/Client/peer_connection_client.cpp).
use p2pchat.Prelude.{
  ℕ, ◌+◌, ◌≤◌, ◌≡◌, refl, sym, ◌∙◌, ap, true, List, [], ◌∷◌, ◌++◌, map, length, length-append,
  append-nil, All, arith, of_bits,
}
use p2pchat.Outcome.{Outcome, ok, Reader, modify}
use p2pchat.ByteBuffer.{ByteBuffer}
use p2pchat.ByteBuffer.Valid.{IsValid, view, readable_space_lem}
use p2pchat.ByteBuffer.VarInt.Groups.{groups, groups_shape}
use p2pchat.ByteBuffer.VarInt.Codecs.{var_int32-Codec}
use p2pchat.ByteBuffer.Strings.Codecs.{string-Codec, string_bytes}
use p2pchat.Framing.Frames.{IsPacket, Waits}
use p2pchat.Framing.Short.{IsPartial}
use p2pchat.Framing.Stream.{IsSendable, frames, Handles, act_all, add_received_data-frames}
use p2pchat.Framing.Reads.{handle_read, handled}
use p2pchat.Framing.Fields.{read_one, read_two, read_three}
use p2pchat.Session.Packets.{fields_bytes}
use p2pchat.Client.{Sockets, Observer, Client}
use p2pchat.Client.Handlers.{
  handle_packet, dispatch, handle_packet_keep_alive, handle_packet_user_info, handle_packet_media,
  handle_packet_media_msg, read_user_info, read_peer_type, read_peer_message, on_user_info,
  on_media, on_message_from_peer,
}
use p2pchat.Client.Events.{within, keep_received, data_received}
use p2pchat.Client.Stream.{
  Message, ping, user_info, media_from, message_from, message_type, message_fields, message_packet,
  IsMessage, with_received, IsSignedIn, IsWatching, receive, receive_all,
}
use p2pchat.Client.Stream.Receive.{receive-Taken}

module _ {K O : Type 0} (sockets : Sockets K) (fresh : ℕ → List ℕ)
    (observer : Observer (Client K O)) where
  -- The packet of a message, in its own buffer, with its type read.
  dispatch_message :
      (q : Message) (bb : ByteBuffer) (c : Client K O)
      → IsMessage q
      → IsPacket (message_type q) (fields_bytes (message_fields q)) bb
      → (left : ByteBuffer) × IsValid left
        × ((view left).rest ≡ 0 ∷ [])
        × (dispatch sockets fresh observer 3 (message_type q) (bb, c)
            ≡ handled left (receive sockets fresh observer q c))
  unfolding dispatch handle_packet_keep_alive handle_packet_user_info handle_packet_media
      handle_packet_media_msg read_user_info read_peer_type read_peer_message
  dispatch_message (ping n) bb c h p =
      let e = p.unread ∙ ap (λ xs. xs ++ 0 ∷ []) (append-nil (groups 4 n)) in
      let r = read_one var_int32-Codec bb n p.valid h e in
      (r.left, r.valid, r.one, rw r.result refl)
  dispatch_message (user_info uid name state) bb c (hu, hn, hs) p =
      let e =
        p.unread
        ∙ ap (λ xs. (groups 4 uid ++ (string_bytes name ++ xs)) ++ 0 ∷ [])
            (append-nil (groups 4 state)) in
      let r = read_three string-Codec bb uid name state p.valid hu (omega (arith, hn)) hs e in
      (
        r.left,
        r.valid,
        r.one,
        ap
            (λ x.
              handle_read x (λ u. on_user_info sockets fresh observer (of_bits 32 u.0) u.1 u.2) c)
            r.result,
      )
  dispatch_message (media_from peer_id type) bb c (hp, hy) p =
      let e =
        p.unread ∙ ap (λ xs. (groups 4 peer_id ++ xs) ++ 0 ∷ []) (append-nil (groups 4 type)) in
      let r = read_two var_int32-Codec bb peer_id type p.valid hp hy e in
      (
        r.left,
        r.valid,
        r.one,
        ap (λ x. handle_read x (λ m. on_media sockets fresh observer m.0 m.1) c) r.result,
      )
  dispatch_message (message_from peer_id text) bb c (hp, ht) p =
      let e =
        p.unread ∙ ap (λ xs. (groups 4 peer_id ++ xs) ++ 0 ∷ []) (append-nil (string_bytes text)) in
      let r = read_two string-Codec bb peer_id text p.valid hp (omega (arith, ht)) e in
      (
        r.left,
        r.valid,
        r.one,
        ap
            (λ x.
              handle_read x (λ m. on_message_from_peer sockets fresh observer (of_bits 32 m.0) m.1)
                c)
            r.result,
      )

message_packet-IsSendable : (q : Message) → IsMessage q → IsSendable (message_packet q)
message_packet-IsSendable (ping n) h = (
  omega arith,
  omega (
    arith,
    length-append (groups 4 0x00) (groups 4 n ++ []),
    length-append (groups 4 n) [],
    groups_shape 4 0x00 (omega arith),
    groups_shape 4 n (omega arith),
  ),
)
message_packet-IsSendable (user_info uid name state) (hu, hn, hs) = (
  omega arith,
  omega (
    arith,
    length-append (groups 4 0x01) (groups 4 uid ++ (string_bytes name ++ (groups 4 state ++ []))),
    length-append (groups 4 uid) (string_bytes name ++ (groups 4 state ++ [])),
    length-append (string_bytes name) (groups 4 state ++ []),
    length-append (groups 4 (length name)) name,
    length-append (groups 4 state) [],
    groups_shape 4 0x01 (omega arith),
    groups_shape 4 uid (omega arith),
    groups_shape 4 state (omega arith),
    groups_shape 4 (length name) (omega arith),
  ),
)
message_packet-IsSendable (media_from peer_id type) (hp, hy) = (
  omega arith,
  omega (
    arith,
    length-append (groups 4 0x11) (groups 4 peer_id ++ (groups 4 type ++ [])),
    length-append (groups 4 peer_id) (groups 4 type ++ []),
    length-append (groups 4 type) [],
    groups_shape 4 0x11 (omega arith),
    groups_shape 4 peer_id (omega arith),
    groups_shape 4 type (omega arith),
  ),
)
message_packet-IsSendable (message_from peer_id text) (hp, ht) = (
  omega arith,
  omega (
    arith,
    length-append (groups 4 0x12) (groups 4 peer_id ++ (string_bytes text ++ [])),
    length-append (groups 4 peer_id) (string_bytes text ++ []),
    length-append (string_bytes text) [],
    length-append (groups 4 (length text)) text,
    groups_shape 4 0x12 (omega arith),
    groups_shape 4 peer_id (omega arith),
    groups_shape 4 (length text) (omega arith),
  ),
)

messages-AreSendable :
    (qs : List Message) → All IsMessage qs → All IsSendable (map message_packet qs)
messages-AreSendable [] h = tt
messages-AreSendable (q ∷ qs) (h, hs) = (message_packet-IsSendable q h, messages-AreSendable qs hs)

handled-ok :
    {S : Type 0} (bb : ByteBuffer) (r : Outcome (Unit {0}) × S) (s : S)
    → r ≡ (ok tt, s)
    → handled bb r ≡ (ok true, (bb, s))
handled-ok bb r s e = ap (handled bb) e

module _ {K O : Type 0} (sockets : Sockets K) (fresh : ℕ → List ℕ)
    (observer : Observer (Client K O)) (E : O → Type 0) (mem : (n : ℕ) → length (fresh n) ≡ n)
    (watching : IsWatching E observer) where
  abbrev quiet : ℕ → Reader (Client K O) (Unit {0})
  quiet type = modify (λ c. c)

  abbrev act : Message → Client K O → Client K O
  act q c = (receive sockets fresh observer q c).1

  receive-Handles :
      (q : Message)
      → IsMessage q
      → Handles fresh (within sockets fresh observer) quiet message_packet act (IsSignedIn E) q
  unfolding Handles within handle_packet
  receive-Handles q h bb b c w p =
      let t = receive-Taken sockets fresh observer E mem watching q c h w in
      let (left, valid, one, e) =
        dispatch_message sockets fresh observer q bb (with_received b c) h p in
      let c' = (receive sockets fresh observer q c).1 in
      let same : c'.received_data ≡ c.received_data =
        ap (λ r. r.1.received_data) (t.apart c.received_data) in
      let whole : handle_packet sockets fresh observer (message_type q) (bb, with_received b c)
          ≡ (ok true, (left, with_received b c')) =
        ap (λ state. dispatch sockets fresh observer state (message_type q) (bb, with_received b c))
          w.signed_in
        ∙ e
        ∙ handled-ok left _ _ (t.apart b) in
      (
        left,
        ap (λ r. (r.0, (r.1.0, (r.1.1.received_data, with_received c.received_data r.1.1)))) whole
            ∙ ap {A = ByteBuffer} (λ x. (ok true, (left, (b, with_received x c')))) (sym same),
        omega (arith, readable_space_lem left valid, ap length one),
        t.keeps,
      )

  receive-HandlesAll :
      (qs : List Message)
      → All IsMessage qs
      → All
          (Handles fresh (within sockets fresh observer) quiet message_packet act (IsSignedIn E))
          qs
  receive-HandlesAll [] h = tt
  receive-HandlesAll (q ∷ qs) (h, hs) = (receive-Handles q h, receive-HandlesAll qs hs)

  act_all-receive_all :
      (qs : List Message) (c : Client K O)
      → act_all fresh (within sockets fresh observer) quiet message_packet act (IsSignedIn E) qs c
        ≡ receive_all sockets fresh observer qs c
  act_all-receive_all [] c = refl
  act_all-receive_all (q ∷ qs) c = act_all-receive_all qs (receive sockets fresh observer q c).1

  -- Bytes that reach a client that has signed in and has a socket and an empty buffer for packets, behind
  -- those that waited, make exactly the packets of a list of messages of the server (pings, users, media
  -- requests and texts; numbers of 32 bits, names and texts of up to 65,000 bytes) and the beginning of
  -- another packet, and fit the buffer: then the client does what the messages say, in order, and the
  -- beginning waits. The observer's answers to these messages change the observer alone, and the memory
  -- that `new` gives has the length that was asked for.
  pub data_received-messages :
      (qs : List Message) (old bytes partial : List ℕ) (c : Client K O)
      → IsSignedIn E c
      → All IsMessage qs
      → Waits 65536 old c.received_data
      → IsPartial partial
      → old ++ bytes ≡ frames (map message_packet qs) ++ partial
      → length old + length bytes ≤ 65536
      → (left : ByteBuffer) × Waits 65536 partial left
        × (data_received sockets fresh observer bytes c
            ≡ (ok tt, with_received left (receive_all sockets fresh observer qs c)))
  unfolding data_received
  data_received-messages qs old bytes partial c signed hs waits short e fits =
      let (left, waits', result) =
        add_received_data-frames fresh (within sockets fresh observer) quiet message_packet act
          (IsSignedIn E) qs old bytes partial 65536 (modify (λ c'. c')) c.received_data c mem
          (messages-AreSendable qs hs) (receive-HandlesAll qs hs) signed short e fits waits in
      (
        left,
        waits',
        ap (keep_received sockets fresh observer)
            (result ∙ ap (λ c'. (ok tt, (left, c'))) (act_all-receive_all qs c)),
      )
