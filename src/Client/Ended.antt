-- ===== src/Client/Ended.antt =====
-- The server ends a session with a code (`HandleErrorCode` of Src/Client/peer_connection_client.cpp).
use p2pchat.Prelude.{
  ℕ, ◌+◌, ◌≤◌, ◌≡◌, refl, ap, ◌∙◌, true, false, some, List, [], ◌∷◌, ◌++◌, length, if◌then◌else◌,
  length-append, append-nil, arith, ℤ, InBits, to_bits,
}
use p2pchat.Outcome.{ok, Reader, modify, ◌>>◌, continue}
use p2pchat.ByteBuffer.{ByteBuffer, clear_all}
use p2pchat.ByteBuffer.Endian.{be_bytes, length-be_bytes}
use p2pchat.ByteBuffer.Valid.{IsValid, view, readable_space_lem}
use p2pchat.ByteBuffer.Queue.{clear_all_lem}
use p2pchat.ByteBuffer.Numbers.Codecs.{int32-Codec}
use p2pchat.ByteBuffer.VarInt.Groups.{groups, groups_shape}
use p2pchat.Framing.Frames.{IsPacket, Waits}
use p2pchat.Framing.Stream.{Packet, packet_bytes, IsSendable}
use p2pchat.Framing.Closing.{Closes, add_received_data-closing}
use p2pchat.Framing.Fields.{read_one}
use p2pchat.Framing.Reads.{handled}
use p2pchat.Session.{be_int32}
use p2pchat.Session.Packets.{frame, fields_bytes}
use p2pchat.Client.{
  signing_out, signing_out_waiting, Sockets, Observer, Client, at_socket, with_socket, set_socket,
  set_state, is_signed_out, is_open, forget, clear_names, close, leave, sign_out,
}
use p2pchat.Client.Handlers.{
  reason_text, handle_error_code, handle_packet_login_disconnect, handle_packet_error_code,
  dispatch, handle_packet,
}
use p2pchat.Client.Events.{within, keep_received, data_received}
use p2pchat.Client.Stream.{with_received, IsCalm}

-- The state of the protocol and the type of the packet with the code.
pub data IsErrorType : ℕ → ℕ → Type 0 where
  login : IsErrorType 2 0x00
  work : IsErrorType 3 0x40

abbrev pub Anywhere : {O : Type 0} → O → Type 0
Anywhere o = Unit {0}

-- The observer's answers to the end change the observer alone.
pub record IsParting {K O : Type 0} (observer : Observer (Client K O)) : Type 0 where
  pub disconnected : IsCalm Anywhere observer.on_disconnected
  pub notified : (code : ℤ) → IsCalm Anywhere (observer.post_notification (reason_text code))

module _ {K O : Type 0} (sockets : Sockets K) (fresh : ℕ → List ℕ)
    (observer : Observer (Client K O)) (parting : IsParting observer) where
  -- The observer has been told.
  abbrev pub told :
      {call : Reader (Client K O) (Unit {0})} → IsCalm Anywhere call → Client K O → Client K O
  told calm c = record c { observer = calm.behind c }

  -- The client is signed out, and the observer has been told twice, and has the code's text.
  abbrev pub ended : ℤ → K → Client K O → Client K O
  ended code k c = told (parting.notified code) (
      told parting.disconnected
        (clear_names (told parting.disconnected (forget (set_socket (sockets.close k) c)))))

  close_lem :
      (k : K) (c : Client K O)
      → c.control_socket ≡ some k
      → close sockets fresh c ≡ (ok tt, forget (set_socket (sockets.close k) c))
  unfolding close with_socket at_socket
  close_lem k c e = rw (e, close, with_socket, at_socket) refl

  leave-ended :
      (k : K) (b : ByteBuffer) (c : Client K O)
      → c.control_socket ≡ some k
      → is_open (sockets.get_state k) ≡ true
      → leave sockets fresh observer.on_disconnected k (with_received b c) ≡ (
        ok tt,
        with_received
            (clear_all b)
            (told parting.disconnected (forget (set_socket (sockets.close k) c))),
      )
  unfolding leave
  leave-ended k b c e opened =
      let c' = with_received b c in
      ap
        (λ o.
          (if o
              then modify (set_state signing_out) >> close sockets fresh >> observer.on_disconnected
              else modify (set_state signing_out_waiting))
            c')
        opened
      ∙ ap (λ r. continue r (λ _. observer.on_disconnected))
          (close_lem k (set_state signing_out c') e)
      ∙ parting.disconnected.result (forget (set_socket (sockets.close k) c)) (clear_all b) tt

  sign_out-ended :
      (k : K) (b : ByteBuffer) (c : Client K O)
      → is_signed_out c.state ≡ false
      → c.control_socket ≡ some k
      → is_open (sockets.get_state k) ≡ true
      → sign_out sockets fresh observer.on_disconnected (with_received b c) ≡ (
        ok tt,
        with_received
            (clear_all b)
            (clear_names (told parting.disconnected (forget (set_socket (sockets.close k) c)))),
      )
  unfolding sign_out at_socket
  sign_out-ended k b c signed e opened =
      rw (signed, sign_out, e, at_socket, leave-ended k b c e opened) refl

  handle_error_code-ended :
      (code : ℤ) (k : K) (b : ByteBuffer) (c : Client K O)
      → is_signed_out c.state ≡ false
      → c.control_socket ≡ some k
      → is_open (sockets.get_state k) ≡ true
      → handle_error_code sockets fresh observer code (with_received b c)
        ≡ (ok tt, with_received (clear_all b) (ended code k c))
  unfolding handle_error_code
  handle_error_code-ended code k b c signed e opened =
      let c1 = clear_names (told parting.disconnected (forget (set_socket (sockets.close k) c))) in
      let c2 = told parting.disconnected c1 in
      rw
        (
          sign_out-ended k b c signed e opened,
          parting.disconnected.result c1 (clear_all b) tt,
          (parting.notified code).result c2 (clear_all b) tt,
        )
        refl

  abbrev code_packet : ℕ → ℤ → Packet
  code_packet type code = (type, fields_bytes (be_int32 code ∷ []))

  code_packet-IsSendable :
      {state type : ℕ} (code : ℤ) → IsErrorType state type → IsSendable (code_packet type code)
  code_packet-IsSendable code login = (
    omega arith,
    omega (
      arith,
      length-append (groups 4 0x00) (be_bytes 4 (to_bits 32 code) ++ []),
      length-append (be_bytes 4 (to_bits 32 code)) [],
      groups_shape 4 0x00 (omega arith),
      length-be_bytes 4 (to_bits 32 code),
    ),
  )
  code_packet-IsSendable code work = (
    omega arith,
    omega (
      arith,
      length-append (groups 4 0x40) (be_bytes 4 (to_bits 32 code) ++ []),
      length-append (be_bytes 4 (to_bits 32 code)) [],
      groups_shape 4 0x40 (omega arith),
      length-be_bytes 4 (to_bits 32 code),
    ),
  )

  -- The packet with the code, in its own buffer, with its type read.
  dispatch_code :
      {state type : ℕ} (code : ℤ) (bb : ByteBuffer) (c : Client K O)
      → IsErrorType state type
      → InBits 32 code
      → IsPacket type (fields_bytes (be_int32 code ∷ [])) bb
      → (left : ByteBuffer) × IsValid left
        × ((view left).rest ≡ 0 ∷ [])
        × (dispatch sockets fresh observer state type (bb, c)
            ≡ handled left (handle_error_code sockets fresh observer code c))
  unfolding dispatch handle_packet_login_disconnect handle_packet_error_code
  dispatch_code code bb c login h p =
      let e = p.unread ∙ ap (λ xs. xs ++ 0 ∷ []) (append-nil (be_bytes 4 (to_bits 32 code))) in
      let r = read_one int32-Codec bb code p.valid h e in (r.left, r.valid, r.one, rw r.result refl)
  dispatch_code code bb c work h p =
      let e = p.unread ∙ ap (λ xs. xs ++ 0 ∷ []) (append-nil (be_bytes 4 (to_bits 32 code))) in
      let r = read_one int32-Codec bb code p.valid h e in (r.left, r.valid, r.one, rw r.result refl)

  code_packet-Closes :
      (type : ℕ) (code : ℤ) (k : K) (c : Client K O)
      → IsErrorType c.protocol_state type
      → InBits 32 code
      → is_signed_out c.state ≡ false
      → c.control_socket ≡ some k
      → is_open (sockets.get_state k) ≡ true
      → Closes fresh
          (within sockets fresh observer)
          (λ _. modify (λ c'. c'))
          65536
          (code_packet type code)
          c
          (with_received c.received_data (ended code k c))
  unfolding within handle_packet
  code_packet-Closes type code k c phase h signed e opened = record {
    handles = λ bb b tail p waits.
        let (left, valid, one, d) = dispatch_code code bb (with_received b c) phase h p in
        let whole : handle_packet sockets fresh observer type (bb, with_received b c)
            ≡ (ok true, (left, with_received (clear_all b) (ended code k c))) =
          d ∙ ap (handled left) (handle_error_code-ended code k b c signed e opened) in
        let (valid', seen) = clear_all_lem b waits.valid in
        (
          left,
          clear_all b,
          ap (λ r. (r.0, (r.1.0, (r.1.1.received_data, with_received c.received_data r.1.1))))
              whole,
          omega (arith, readable_space_lem left valid, ap length one),
          record {
            valid = valid';
            seen =
                seen
                ∙ ap {A = ℕ} (λ n. record { capacity = n; done = []; rest = [] })
                    (ap (λ s. s.capacity) waits.seen);
          },
        );
  }

  -- Where the packet with a code, of 32 bits, is at the front of what waits and arrives at a client with
  -- an open socket that is not signed out, in the login state or signed in, and all of it fits the
  -- buffer, the client signs out: the socket is closed, the buffers are empty, the protocol is back in its
  -- first state, the name and the password are forgotten, the observer is told twice that the client is
  -- disconnected and gets the text for the code, and the bytes behind the packet are dropped. The
  -- observer's answers change the observer alone, and the memory that `new` gives has the length that
  -- was asked for.
  pub data_received-ended :
      (type : ℕ) (code : ℤ) (k : K) (old bytes tail : List ℕ) (c : Client K O)
      → ((n : ℕ) → length (fresh n) ≡ n)
      → IsErrorType c.protocol_state type
      → InBits 32 code
      → is_signed_out c.state ≡ false
      → c.control_socket ≡ some k
      → is_open (sockets.get_state k) ≡ true
      → Waits 65536 old c.received_data
      → old ++ bytes ≡ frame (packet_bytes (type, fields_bytes (be_int32 code ∷ []))) ++ tail
      → length old + length bytes ≤ 65536
      → (left : ByteBuffer) × Waits 65536 [] left
        × (data_received sockets fresh observer bytes c
            ≡ (ok tt, with_received left (ended code k c)))
  unfolding data_received
  data_received-ended type code k old bytes tail c mem phase h signed e opened waits split fits =
      let (left, waits', result) =
        add_received_data-closing fresh (within sockets fresh observer) (λ _. modify (λ c'. c'))
          (code_packet type code) old bytes tail 65536 (modify (λ c'. c')) c.received_data c
          (with_received c.received_data (ended code k c)) mem (code_packet-IsSendable code phase)
          (code_packet-Closes type code k c phase h signed e opened) split fits waits in
      (left, waits', ap (keep_received sockets fresh observer) result)
