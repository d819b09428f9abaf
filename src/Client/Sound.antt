-- ===== src/Client/Sound.antt =====
-- What holds of the client whatever the user, the server and the network do
-- (Src/Client/peer_connection_client.cpp), as long as the observer keeps it.
pub mod Packets
pub mod Events
use p2pchat.Prelude.{
  ℕ, zero, suc, ◌+◌, ◌==◌, ◌||◌, ◌%◌, ◌^◌, ltb, ◌≤◌, ◌≡◌, refl, sym, ◌∙◌, ap, Bool, true, false,
  not, Bool-cases, Option-cases, inl, inr, Option, some, none, List, [], ◌∷◌, ℤ, pos, negsuc, arith,
  if◌then◌else◌, is_nil, of_bits,
}
use p2pchat.Outcome.{
  Outcome, ok, fail, undefined, exited, stuck, Reader, ◌>>=◌, ◌>>◌, modify, continue,
}
use p2pchat.IniFile.{AString}
use p2pchat.ByteBuffer.{ByteBuffer, read_all, get_used_space, init, commit_read}
use p2pchat.ByteBuffer.Numbers.{read_be_int32}
use p2pchat.ByteBuffer.VarInt.{read_var_int32, write_var_int32}
use p2pchat.Framing.Keeps.{add_received_data-keeps}
use p2pchat.Framing.{add_received_data}
use p2pchat.Session.{Field, write_fields, string, var_int32}
use p2pchat.Client.{
  State, not_connected, resolving, signing_in, connected, signing_out_waiting, signing_out, Address,
  Sockets, SocketState, Reason, Observer, Client, new_peer_client, at_socket, with_socket,
  set_socket, set_state, is_signed_in, is_signed_out, is_open, forget, clear_names, send_data,
  send_packet, packet, close, after_connect, connect_control_socket, is_sending_message, leave,
  sign_out, request_to_peer, send_to_peer, send_hang_up, assigned,
}
use p2pchat.Client.Handlers.{
  set_peer, erase_peer, answered_state, set_protocol_state, handle_error_code, on_status,
  handle_packet_status_request, handle_packet_login_disconnect, handle_packet_login_success,
  handle_packet_keep_alive, on_user_info, handle_packet_user_info, on_media, handle_packet_media,
  on_message_from_peer, handle_packet_media_msg, handle_packet_error_code, dispatch, handle_packet,
  read_status, read_user_info, read_peer_type, read_peer_message,
}
use p2pchat.Client.Events.{
  Event, connects, resolves, connected_event, reads, closes, signs_out, requests, sends, hangs_up,
  do_connect, resolve_or_connect, connect, on_resolve_result, on_connect, within, keep_received,
  data_received, on_read, on_close, step, run,
}
use p2pchat.Client.Peers.{IsOrdered, IsOrdered-set_peer, IsOrdered-erase_peer}
use p2pchat.Client.Keeps.{
  Keeps, continue-keeps, bind-Keeps, then-Keeps, if-Keeps, choice-keeps, handled-keeps,
  handle_read-keeps, at_socket-Keeps, modify-Keeps,
}

-- The states in which the client rests.
abbrev pub is_resting : State → Bool
is_resting connected = false
is_resting signing_out = false
is_resting _ = true

-- The client rests in one of four states, follows the protocol in its states 1 to 3, keeps the peers in
-- the order of their numbers, and has no number of its own; `Q` holds of the observer.
pub record Sound {O : Type 0} (Q : O → Type 0) (state : State) (protocol_state : ℕ)
    (peers : List (ℤ × AString)) (my_id : ℤ) (observer : O) : Type 0 where
  pub resting : is_resting state ≡ true
  pub low : 1 ≤ protocol_state
  pub high : protocol_state ≤ 3
  pub ordered : IsOrdered peers
  pub nameless : my_id ≡ negsuc 0
  pub watched : Q observer

abbrev pub IsSound : {K O : Type 0} → (O → Type 0) → Client K O → Type 0
IsSound Q c = Sound Q c.state c.protocol_state c.peers c.my_id c.observer

abbrev pub IsSoundTurn : {K O : Type 0} → (O → Type 0) → ByteBuffer × Client K O → Type 0
IsSoundTurn Q t = IsSound Q t.1

-- An observer that keeps it.
pub record IsCivil {K O : Type 0} (Q : O → Type 0) (observer : Observer (Client K O)) : Type 0 where
  pub disconnected : Keeps (IsSound Q) observer.on_disconnected
  pub signed_in : Keeps (IsSound Q) observer.on_signed_in
  pub peer_connected :
      (id : ℤ) (name : AString) → Keeps (IsSound Q) (observer.on_peer_connected id name)
  pub peer_disconnected : (id : ℤ) → Keeps (IsSound Q) (observer.on_peer_disconnected id)
  pub peer_response : (id code : ℤ) → Keeps (IsSound Q) (observer.on_peer_response id code)
  pub message :
      (id : ℤ) (text : AString) → Keeps (IsSound Q) (observer.on_message_from_peer id text)
  pub failure : Keeps (IsSound Q) observer.on_server_connection_failure
  pub notified : (reason : Reason) → Keeps (IsSound Q) (observer.post_notification reason)

module _ {K O : Type 0} (sockets : Sockets K) (fresh : ℕ → List ℕ) (Q : O → Type 0) where
  pub with_socket-IsSound : (call : K → K) → Keeps (IsSound {K = K} Q) (with_socket call)
  unfolding with_socket
  with_socket-IsSound call = at_socket-Keeps (IsSound Q) _ (λ k c e h. h)

  send_data-IsSound : (bytes : AString) → Keeps (IsSound {K = K} Q) (send_data sockets fresh bytes)
  unfolding send_data
  send_data-IsSound bytes = record {
    at = λ c h.
        choice-keeps (IsSound Q) _ (ok tt, c) (with_socket (sockets.send bytes) c) h
          ((with_socket-IsSound (sockets.send bytes)).at c h);
  }

  -- The two parts of a frame.
  parts-IsSound :
      (len bytes : AString) (out : ByteBuffer)
      → Keeps (IsSound {K = K} Q) (
          send_data sockets fresh len
          >> send_data sockets fresh bytes
          >> modify (λ c. record c { out_packet_buffer = out }))
  parts-IsSound len bytes out =
      then-Keeps (IsSound Q) _ _
        (then-Keeps (IsSound Q) _ _ (send_data-IsSound len) (send_data-IsSound bytes))
        (modify-Keeps (IsSound Q) (λ c. record c { out_packet_buffer = out }) (λ c h. h))

  send_packet-IsSound : Keeps (IsSound {K = K} Q) (send_packet sockets fresh)
  unfolding send_packet
  send_packet-IsSound = record {
    at = λ c h.
        let packet_len = get_used_space c.out_packet_buffer % 2 ^ 32 in
        let len_to_send =
          assigned (read_all (write_var_int32 packet_len (init (fresh 21) 20)).1).0 [] in
        (parts-IsSound len_to_send (assigned (read_all c.out_packet_buffer).0 len_to_send)
            (commit_read (read_all c.out_packet_buffer).1)).at
          c h;
  }

  pub packet-IsSound :
      (type : ℕ) (fs : List Field) → Keeps (IsSound {K = K} Q) (packet sockets fresh type fs)
  unfolding packet
  packet-IsSound type fs = record {
    at = λ c h. continue-keeps (IsSound Q) _ _ h (λ _. send_packet-IsSound);
  }

  abbrev forget-IsSound : (c : Client K O) → IsSound Q c → IsSound Q (forget c)
  forget-IsSound c h = record {
    resting = refl;
    low = omega arith;
    high = omega arith;
    ordered = h.ordered;
    nameless = refl;
    watched = h.watched;
  }

  pub close-IsSound : Keeps (IsSound {K = K} Q) (close sockets fresh)
  unfolding close
  close-IsSound =
      then-Keeps (IsSound Q) _ _ (with_socket-IsSound sockets.close)
        (modify-Keeps (IsSound Q) _ forget-IsSound)

  -- `SignOut` passes through a state of its own, and `Close` leaves it.
  close_now-IsSound :
      (k : K) (c : Client K O)
      → c.control_socket ≡ some k
      → IsSound Q c
      → close sockets fresh (set_state signing_out c)
        ≡ (ok tt, forget (set_socket (sockets.close k) (set_state signing_out c)))
  unfolding close with_socket at_socket
  close_now-IsSound k c e h = rw (e, close, with_socket, at_socket) refl

  leave-IsSound :
      (on_disconnected : Reader (Client K O) (Unit {0})) (k : K) (c : Client K O)
      → Keeps (IsSound Q) on_disconnected
      → c.control_socket ≡ some k
      → IsSound Q c
      → IsSound Q (leave sockets fresh on_disconnected k c).1
  unfolding leave
  leave-IsSound on_disconnected k c civil e h = elim (Bool-cases (is_open (sockets.get_state k))) [
    | inl t ↦
        rw (t, leave, close_now-IsSound k c e h)
          (civil.at (forget (set_socket (sockets.close k) (set_state signing_out c)))
            (forget-IsSound c h))
    | inr t ↦
        rw (t, leave)
          (record {
            resting = refl;
            low = h.low;
            high = h.high;
            ordered = h.ordered;
            nameless = h.nameless;
            watched = h.watched;
          })
  ]

  pub sign_out-IsSound :
      (on_disconnected : Reader (Client K O) (Unit {0}))
      → Keeps (IsSound Q) on_disconnected
      → Keeps (IsSound Q) (sign_out sockets fresh on_disconnected)
  unfolding sign_out
  sign_out-IsSound on_disconnected civil = record {
    at = λ c h.
        choice-keeps (IsSound Q) (is_signed_out c.state) (ok tt, c)
          ((at_socket (leave sockets fresh on_disconnected) >> modify clear_names) c) h
          ((then-Keeps (IsSound Q) _ _
              (at_socket-Keeps (IsSound Q) (leave sockets fresh on_disconnected)
                (λ k c' e h'. leave-IsSound on_disconnected k c' civil e h'))
              (modify-Keeps (IsSound Q) _ (λ c' h'. h'))).at
            c h);
  }

  after_connect-IsSound : (r : Bool × K) → Keeps (IsSound {K = K} Q) (after_connect sockets fresh r)
  unfolding after_connect
  after_connect-IsSound (true, k) = record { at = λ c h. h }
  after_connect-IsSound (false, k) = record {
    at = λ c h.
        continue-keeps (IsSound Q) (close sockets fresh (set_socket k c)) (λ _ c'. (ok false, c'))
          (close-IsSound.at (set_socket k c) h) (λ _. record { at = λ c' h'. h' });
  }

  pub connect_control_socket-IsSound :
      Keeps (IsSound {K = K} Q) (connect_control_socket sockets fresh)
  unfolding connect_control_socket
  connect_control_socket-IsSound =
      at_socket-Keeps (IsSound Q)
        (λ k c. after_connect sockets fresh (sockets.connect c.server_address k) c)
        (λ k c e h. (after_connect-IsSound (sockets.connect c.server_address k)).at c h)
