-- ===== src/Client/Sound/Events.antt =====
-- The client stays sound with everything that the user and the network do
-- (Src/Client/peer_connection_client.cpp).
use p2pchat.Prelude.{ℕ, ◌≡◌, refl, true, false, not, List, [], ◌∷◌, ℤ, arith}
use p2pchat.Outcome.{ok, modify}
use p2pchat.IniFile.{AString}
use p2pchat.Framing.Keeps.{add_received_data-keeps}
use p2pchat.Client.{
  State, not_connected, resolving, signing_in, connected, signing_out_waiting, signing_out, Address,
  Sockets, Observer, Client, new_peer_client, set_socket, set_state, is_signed_in,
  connect_control_socket, is_sending_message, request_to_peer, send_to_peer, send_hang_up,
}
use p2pchat.Client.Handlers.{handle_packet}
use p2pchat.Client.Events.{
  Event, connects, resolves, connected_event, reads, closes, signs_out, requests, sends, hangs_up,
  do_connect, is_not_connected, port_or_default, resolve_or_connect, connect, on_resolve_result,
  on_connect, within, data_received, on_read, on_close, step, run,
}
use p2pchat.Client.Keeps.{Keeps, bind-Keeps, then-Keeps, if-Keeps, choice-keeps, modify-Keeps}
use p2pchat.Client.Sound.{
  is_resting, IsSound, IsCivil, with_socket-IsSound, packet-IsSound, close-IsSound,
  sign_out-IsSound, connect_control_socket-IsSound,
}
use p2pchat.Client.Sound.Packets.{dispatch-IsSound}

module _ {K O : Type 0} (sockets : Sockets K) (fresh : ℕ → List ℕ) (Q : O → Type 0)
    (observer : Observer (Client K O)) (civil : IsCivil Q observer) where
  do_connect-IsSound : Keeps (IsSound Q) (do_connect sockets fresh observer)
  unfolding do_connect
  do_connect-IsSound =
      then-Keeps (IsSound Q) _ _
        (modify-Keeps (IsSound Q) (λ c. set_socket (sockets.create c.server_address) c) (λ c h. h))
        (bind-Keeps (IsSound Q) (connect_control_socket sockets fresh) _
          (connect_control_socket-IsSound sockets fresh Q)
          (λ connects.
            if-Keeps (IsSound Q) connects _ _
              (modify-Keeps (IsSound Q) (set_state signing_in) (λ c h. record {
                resting = refl;
                low = h.low;
                high = h.high;
                ordered = h.ordered;
                nameless = h.nameless;
                watched = h.watched;
              }))
              civil.failure))

  pub connect-IsSound :
      (server : AString) (port : ℤ) (user pass : AString)
      → Keeps (IsSound Q) (connect sockets fresh observer server port user pass)
  unfolding connect resolve_or_connect
  connect-IsSound server port user pass = record {
    at = λ c h.
        let c' : Client K O = record c {
          server_address = (server, port_or_default port);
          user_name = user;
          pass_word = pass;
        } in
        let failed = civil.failure.at c h in
        choice-keeps (IsSound Q) (not (is_not_connected c.state)) _ _ failed (
          choice-keeps (IsSound Q) _ _ (resolve_or_connect sockets fresh observer c') failed (
            choice-keeps (IsSound Q) _ (ok tt, record c' { state = resolving; has_resolver = true })
              (do_connect sockets fresh observer c')
              (record {
                resting = refl;
                low = h.low;
                high = h.high;
                ordered = h.ordered;
                nameless = h.nameless;
                watched = h.watched;
              })
              (do_connect-IsSound.at c' h)));
  }

  on_resolve_result-IsSound :
      (error : ℤ) (address : Address)
      → Keeps (IsSound Q) (on_resolve_result sockets fresh observer error address)
  unfolding on_resolve_result
  on_resolve_result-IsSound error address =
      if-Keeps (IsSound Q) _ _ _
        (then-Keeps (IsSound Q) _ _ civil.failure (
          modify-Keeps (IsSound Q) (λ c. record c { has_resolver = false; state = not_connected })
            (λ c h. record {
              resting = refl;
              low = h.low;
              high = h.high;
              ordered = h.ordered;
              nameless = h.nameless;
              watched = h.watched;
            })))
        (then-Keeps (IsSound Q) _ _
          (modify-Keeps (IsSound Q) (λ c. record c { server_address = address }) (λ c h. h))
          do_connect-IsSound)

  on_connect-IsSound : Keeps (IsSound Q) (on_connect sockets fresh observer)
  unfolding on_connect
  on_connect-IsSound =
      then-Keeps (IsSound Q) _ _
        (modify-Keeps (IsSound Q) (λ c. record c { is_connected = true }) (λ c h. h))
        (packet-IsSound sockets fresh Q 0x00 _)

  data_received-IsSound :
      (bytes : AString) → Keeps (IsSound Q) (data_received sockets fresh observer bytes)
  unfolding data_received within handle_packet
  data_received-IsSound bytes = record {
    at = λ c h.
        add_received_data-keeps fresh (within sockets fresh observer) (λ type. modify (λ c'. c'))
          (IsSound Q)
          (λ type bb b w h'.
            dispatch-IsSound sockets fresh Q observer civil w.protocol_state type bb
              (record w { received_data = b }) h' h'.low h'.high)
          (λ type w h'. h') (modify (λ c'. c')) bytes c.received_data c h h;
  }

  on_read-IsSound :
      (chunks : List AString) → Keeps (IsSound Q) (on_read sockets fresh observer chunks)
  unfolding on_read
  on_read-IsSound [] = record { at = λ c h. h }
  on_read-IsSound (bytes ∷ more) =
      then-Keeps (IsSound Q) _ _ (data_received-IsSound bytes) (on_read-IsSound more)

  on_close-IsSound : Keeps (IsSound Q) (on_close sockets fresh observer)
  unfolding on_close
  on_close-IsSound =
      then-Keeps (IsSound Q) _ _
        (then-Keeps (IsSound Q) _ _ (with_socket-IsSound sockets fresh Q sockets.close)
          (close-IsSound sockets fresh Q))
        civil.failure

  pub step-IsSound : (e : Event) → Keeps (IsSound Q) (step sockets fresh observer e)
  unfolding step request_to_peer send_to_peer send_hang_up
  step-IsSound (connects server port user pass) = connect-IsSound server port user pass
  step-IsSound (resolves error address) = on_resolve_result-IsSound error address
  step-IsSound connected_event = on_connect-IsSound
  step-IsSound (reads chunks) = on_read-IsSound chunks
  step-IsSound closes = on_close-IsSound
  step-IsSound signs_out =
      sign_out-IsSound sockets fresh Q observer.on_disconnected civil.disconnected
  step-IsSound (requests peer_id) = packet-IsSound sockets fresh Q 0x11 _
  step-IsSound (sends peer_id text) = packet-IsSound sockets fresh Q 0x12 _
  step-IsSound (hangs_up peer_id) = packet-IsSound sockets fresh Q 0x12 _

  -- With an observer whose answers keep it, a sound client is sound behind every sequence of events, also
  -- where one of them stops early: it rests in one of four states, follows the protocol in its states 1
  -- to 3, keeps the peers in the order of their numbers without repeats, and has no number of its own.
  pub run-IsSound :
      (es : List Event) (c : Client K O)
      → IsSound Q c
      → IsSound Q (run sockets fresh observer es c).1
  unfolding run
  run-IsSound [] c h = h
  run-IsSound (e ∷ es) c h =
      (then-Keeps (IsSound Q) _ _ (step-IsSound e) (record { at = run-IsSound es })).at c h

-- A client that has just been made is sound.
pub new_peer_client-IsSound :
    (K : Type 0) {O : Type 0} (fresh : ℕ → List ℕ) (Q : O → Type 0) (observer : O)
    → Q observer
    → IsSound Q (new_peer_client {K = K} fresh observer)
unfolding new_peer_client
new_peer_client-IsSound K fresh Q observer q = record {
  resting = refl;
  low = omega arith;
  high = omega arith;
  ordered = tt;
  nameless = refl;
  watched = q;
}

resting-is_signed_in : (state : State) → is_resting state ≡ true → is_signed_in state ≡ false
resting-is_signed_in not_connected h = refl
resting-is_signed_in resolving h = refl
resting-is_signed_in signing_in h = refl
resting-is_signed_in connected h = cc
resting-is_signed_in signing_out_waiting h = refl
resting-is_signed_in signing_out h = cc

-- A sound client answers that it is sending no message.
pub is_sending_message-IsSound :
    {K O : Type 0} (sockets : Sockets K) (fresh : ℕ → List ℕ) (Q : O → Type 0) (c : Client K O)
    → IsSound Q c
    → is_sending_message sockets fresh c ≡ (ok false, c)
unfolding is_sending_message
is_sending_message-IsSound sockets fresh Q c h = rw (resting-is_signed_in c.state h.resting) refl
