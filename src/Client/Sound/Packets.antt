-- ===== src/Client/Sound/Packets.antt =====
-- The client stays sound with every packet from the server (Src/Client/peer_connection_client.cpp).
use p2pchat.Prelude.{
  ℕ, ◌==◌, ltb, ◌≤◌, ◌≡◌, true, false, Bool-cases, Option-cases, inl, inr, some, List, [], ◌∷◌, ℤ,
  pos, negsuc, arith, of_bits,
}
use p2pchat.Outcome.{ok}
use p2pchat.IniFile.{AString}
use p2pchat.ByteBuffer.{ByteBuffer}
use p2pchat.ByteBuffer.Numbers.{read_be_int32}
use p2pchat.ByteBuffer.VarInt.{read_var_int32}
use p2pchat.Session.{string, var_int32}
use p2pchat.Client.{Sockets, Observer, Client, packet}
use p2pchat.Client.Handlers.{
  set_peer, erase_peer, answered_state, set_protocol_state, handle_error_code, on_status,
  handle_packet_status_request, handle_packet_login_disconnect, handle_packet_login_success,
  handle_packet_keep_alive, on_user_info, handle_packet_user_info, on_media, handle_packet_media,
  on_message_from_peer, handle_packet_media_msg, handle_packet_error_code, dispatch, read_status,
  read_user_info, read_peer_type, read_peer_message,
}
use p2pchat.Client.Peers.{IsOrdered-set_peer, IsOrdered-erase_peer}
use p2pchat.Client.Keeps.{
  Keeps, then-Keeps, if-Keeps, choice-keeps, handled-keeps, handle_read-keeps, modify-Keeps,
}
use p2pchat.Client.Sound.{IsSound, IsSoundTurn, IsCivil, packet-IsSound, sign_out-IsSound}

module _ {K O : Type 0} (sockets : Sockets K) (fresh : ℕ → List ℕ) (Q : O → Type 0)
    (observer : Observer (Client K O)) (civil : IsCivil Q observer) where
  handle_error_code-IsSound :
      (code : ℤ) → Keeps (IsSound Q) (handle_error_code sockets fresh observer code)
  unfolding handle_error_code
  handle_error_code-IsSound code =
      then-Keeps (IsSound Q) _ _
        (then-Keeps (IsSound Q) _ _
          (sign_out-IsSound sockets fresh Q observer.on_disconnected civil.disconnected)
          civil.disconnected)
        (civil.notified _)

  answered_state_bounds : (z : ℤ) (n : ℕ) → answered_state z ≡ some n → (1 ≤ n) × (n ≤ 3)
  unfolding answered_state
  answered_state_bounds (pos m) n e = ground arith
  answered_state_bounds (negsuc m) n e = cc

  on_status-IsSound : (state : ℤ) → Keeps (IsSound Q) (on_status sockets fresh observer state)
  unfolding on_status
  on_status-IsSound state = record {
    at = λ c h. elim (Option-cases (answered_state state)) [
      | inl e ↦ rw (e, on_status) h
      | inr (n, e) ↦
          let (low, high) = answered_state_bounds state n e in
          let c' = set_protocol_state sockets fresh observer n c in
          rw (e, on_status)
            ((packet-IsSound sockets fresh Q 0x00 (string c.user_name ∷ string c.pass_word ∷ [])).at
              c'
              (record {
                resting = h.resting;
                low = low;
                high = high;
                ordered = h.ordered;
                nameless = h.nameless;
                watched = h.watched;
              }))
    ];
  }

  on_user_info-IsSound :
      (uid : ℤ) (name : AString) (state : ℕ)
      → Keeps (IsSound Q) (on_user_info sockets fresh observer uid name state)
  unfolding on_user_info
  on_user_info-IsSound uid name state =
      if-Keeps (IsSound Q) (ltb 3 state) _ _
        (then-Keeps (IsSound Q) _ _
          (modify-Keeps (IsSound Q) (λ c. record c { peers = erase_peer uid c.peers })
            (λ c h. record {
              resting = h.resting;
              low = h.low;
              high = h.high;
              ordered = IsOrdered-erase_peer uid c.peers h.ordered;
              nameless = h.nameless;
              watched = h.watched;
            }))
          (civil.peer_disconnected uid))
        (then-Keeps (IsSound Q) _ _
          (modify-Keeps (IsSound Q) (λ c. record c { peers = set_peer uid name c.peers })
            (λ c h. record {
              resting = h.resting;
              low = h.low;
              high = h.high;
              ordered = IsOrdered-set_peer uid name c.peers h.ordered;
              nameless = h.nameless;
              watched = h.watched;
            }))
          (civil.peer_connected uid name))

  on_media-IsSound :
      (peer_id type : ℕ) → Keeps (IsSound Q) (on_media sockets fresh observer peer_id type)
  unfolding on_media
  on_media-IsSound peer_id type =
      if-Keeps (IsSound Q) (type == 0) _ _
        (record { at = λ c h. (packet-IsSound sockets fresh Q 0x11 _).at c h })
        (civil.peer_response (of_bits 32 peer_id) (of_bits 32 type))

  on_message_from_peer-IsSound :
      (peer_id : ℤ) (text : AString)
      → Keeps (IsSound Q) (on_message_from_peer sockets fresh observer peer_id text)
  unfolding on_message_from_peer
  on_message_from_peer-IsSound peer_id text =
      if-Keeps (IsSound Q) _ _ _ (civil.peer_disconnected peer_id) (civil.message peer_id text)

  -- Every packet, in every state of the protocol.
  pub dispatch-IsSound :
      (state type : ℕ) (bb : ByteBuffer) (c : Client K O)
      → IsSound Q c
      → 1 ≤ state
      → state ≤ 3
      → IsSound Q (dispatch sockets fresh observer state type (bb, c)).1.1
  unfolding dispatch handle_packet_status_request handle_packet_login_disconnect
      handle_packet_login_success handle_packet_keep_alive handle_packet_user_info
      handle_packet_media handle_packet_media_msg handle_packet_error_code
  dispatch-IsSound state type bb c h low high =
      let error =
        handle_read-keeps (IsSound Q) (read_be_int32 bb) (handle_error_code sockets fresh observer)
          c h handle_error_code-IsSound in
      let keep_alive =
        handle_read-keeps (IsSound Q) (read_var_int32 bb)
          (λ id. packet sockets fresh 0x00 (var_int32 id ∷ [])) c h
          (λ id. packet-IsSound sockets fresh Q 0x00 (var_int32 id ∷ [])) in
      let user_info =
        handle_read-keeps (IsSound Q) (read_user_info bb)
          (λ u. on_user_info sockets fresh observer (of_bits 32 u.0) u.1 u.2) c h
          (λ u. on_user_info-IsSound (of_bits 32 u.0) u.1 u.2) in
      let media =
        handle_read-keeps (IsSound Q) (read_peer_type bb)
          (λ m. on_media sockets fresh observer m.0 m.1) c h (λ m. on_media-IsSound m.0 m.1) in
      let message =
        handle_read-keeps (IsSound Q) (read_peer_message bb)
          (λ m. on_message_from_peer sockets fresh observer (of_bits 32 m.0) m.1) c h
          (λ m. on_message_from_peer-IsSound (of_bits 32 m.0) m.1) in
      elim (Bool-cases (state == 1)) [
        | inl t ↦
            rw (t, dispatch)
              (choice-keeps (IsSoundTurn Q) (type == 0x00) _ (ok false, (bb, c))
                (handle_read-keeps (IsSound Q) (read_status bb)
                  (λ r. on_status sockets fresh observer r.0) c h (λ r. on_status-IsSound r.0))
                h)
        | inr f ↦ elim (Bool-cases (state == 2)) [
          | inl t ↦
              rw (f, t, dispatch)
                (choice-keeps (IsSoundTurn Q) (type == 0x00) _ _ error (
                  choice-keeps (IsSoundTurn Q) (type == 0x01) _ (ok false, (bb, c))
                    (handled-keeps (IsSound Q) bb _ (
                      (then-Keeps (IsSound Q) _ _
                          (modify-Keeps (IsSound Q) (set_protocol_state sockets fresh observer 3)
                            (λ c' h'. record {
                              resting = h'.resting;
                              low = omega arith;
                              high = omega arith;
                              ordered = h'.ordered;
                              nameless = h'.nameless;
                              watched = h'.watched;
                            }))
                          civil.signed_in).at
                        c h))
                    h))
          | inr f' ↦
              let three : (state == 3) ≡ true = ground arith in
              rw (f, f', three, dispatch)
                (choice-keeps (IsSoundTurn Q) (type == 0x00) _ _ keep_alive (
                  choice-keeps (IsSoundTurn Q) (type == 0x01) _ _ user_info (
                    choice-keeps (IsSoundTurn Q) (type == 0x11) _ _ media (
                      choice-keeps (IsSoundTurn Q) (type == 0x12) _ _ message (
                        choice-keeps (IsSoundTurn Q) (type == 0x40) _ (ok false, (bb, c)) error
                          h)))))
        ]
      ]
