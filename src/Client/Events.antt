-- ===== src/Client/Events.antt =====
-- What the user and the network make the client do (Src/Client/peer_connection_client.cpp): it connects,
-- resolves the server's name, receives bytes and is closed.
use p2pchat.Prelude.{
  ℕ, ◌==◌, ◌||◌, Bool, true, false, not, is_nil, List, [], ◌∷◌, if◌then◌else◌, ℤ, pos, negsuc,
}
use p2pchat.Outcome.{Outcome, ok, Reader, ◌>>=◌, ◌>>◌, modify}
use p2pchat.IniFile.{AString}
use p2pchat.ByteBuffer.{ByteBuffer}
use p2pchat.Framing.{add_received_data}
use p2pchat.Session.{string, be_int32}
use p2pchat.Client.{
  State, not_connected, resolving, signing_in, Address, Sockets, Observer, Client, client_app,
  default_server, default_port, with_socket, set_socket, set_state, packet, close,
  connect_control_socket, sign_out, request_to_peer, send_to_peer, send_hang_up,
}
use p2pchat.Client.Handlers.{handle_packet, int_eq}

-- A port of 0 or below stands for the default.
unfoldable pub port_or_default : ℤ → ℤ
port_or_default (pos n) = if n == 0 then default_port else pos n
port_or_default (negsuc n) = default_port

abbrev pub is_not_connected : State → Bool
is_not_connected not_connected = true
is_not_connected _ = false

pub data Event : Type 0 where
  connects : AString → ℤ → AString → AString → Event
  resolves : ℤ → Address → Event
  connected_event : Event
  reads : List AString → Event
  closes : Event
  signs_out : Event
  requests : ℤ → Event
  sends : ℤ → AString → Event
  hangs_up : ℤ → Event

module _ {K O : Type 0} (sockets : Sockets K) (fresh : ℕ → List ℕ)
    (observer : Observer (Client K O)) where
  unfoldable pub do_connect : Reader (Client K O) (Unit {0})
  do_connect =
      modify (λ c. set_socket (sockets.create c.server_address) c)
      >> (connect_control_socket sockets fresh >>= λ connects.
          if connects then modify (set_state signing_in) else observer.on_server_connection_failure)

  -- The end of `Connect`, for an address.
  unfoldable pub resolve_or_connect : Reader (Client K O) (Unit {0})
  resolve_or_connect c =
      let connecting = do_connect c in
      if sockets.is_unresolved_ip c.server_address
      then (ok tt, record c { state = resolving; has_resolver = true })
      else connecting

  unfoldable pub connect : AString → ℤ → AString → AString → Reader (Client K O) (Unit {0})
  connect server port user pass c =
      let failed = observer.on_server_connection_failure c in
      let begun = resolve_or_connect (record c {
        server_address = (server, port_or_default port);
        user_name = user;
        pass_word = pass;
      }) in
      if not (is_not_connected c.state)
      then failed
      else if is_nil server || is_nil user || is_nil pass
      then failed
      else begun

  -- `OnResolveResult` with the resolver's error and its address.
  unfoldable pub on_resolve_result : ℤ → Address → Reader (Client K O) (Unit {0})
  on_resolve_result error address =
      if not (int_eq error (pos 0))
      then observer.on_server_connection_failure
        >> modify (λ c. record c { has_resolver = false; state = not_connected })
      else modify (λ c. record c { server_address = address }) >> do_connect

  -- The client says which application, server and port it wants, and the login state, 2.
  unfoldable pub on_connect : Reader (Client K O) (Unit {0})
  on_connect =
      modify (λ c. record c { is_connected = true })
      >> packet sockets fresh 0x00 (
          string client_app ∷ string default_server ∷ be_int32 default_port ∷ be_int32 (pos 2) ∷ [])

  -- The handler of a packet with the buffer of received bytes taken out of the client.
  unfoldable pub within :
      ℕ
      → ByteBuffer × (ByteBuffer × Client K O)
      → Outcome Bool × (ByteBuffer × (ByteBuffer × Client K O))
  within type (bb, (b, c)) =
      let (r, (bb', c')) =
        handle_packet sockets fresh observer type (bb, record c { received_data = b }) in
      (r, (bb', (c'.received_data, record c' { received_data = c.received_data })))

  -- The buffer goes back into the client.
  abbrev pub keep_received :
      Outcome (Unit {0}) × (ByteBuffer × Client K O) → Outcome (Unit {0}) × Client K O
  keep_received (r, (b, c)) = (r, record c { received_data = b })

  -- `DataReceived`: bytes for which the buffer has no room are lost, and a packet that is not read to
  -- its end is logged (in a release build).
  unfoldable pub data_received : AString → Reader (Client K O) (Unit {0})
  data_received bytes c = keep_received (
      add_received_data fresh within (λ type. modify (λ c'. c')) (modify (λ c'. c')) bytes
        (c.received_data, c))

  -- `OnRead`, with the bytes that the calls of `Recv` give until one gives none.
  unfoldable pub on_read : List AString → Reader (Client K O) (Unit {0})
  on_read [] = modify (λ c. c)
  on_read (bytes ∷ more) = data_received bytes >> on_read more

  -- `OnClose` does the same for each error.
  unfoldable pub on_close : Reader (Client K O) (Unit {0})
  on_close =
      with_socket sockets.close >> close sockets fresh >> observer.on_server_connection_failure

  unfoldable pub step : Event → Reader (Client K O) (Unit {0})
  step (connects server port user pass) = connect server port user pass
  step (resolves error address) = on_resolve_result error address
  step connected_event = on_connect
  step (reads chunks) = on_read chunks
  step closes = on_close
  step signs_out = sign_out sockets fresh observer.on_disconnected
  step (requests peer_id) = request_to_peer sockets fresh peer_id
  step (sends peer_id message) = send_to_peer sockets fresh peer_id message
  step (hangs_up peer_id) = send_hang_up sockets fresh peer_id

  unfoldable pub run : List Event → Reader (Client K O) (Unit {0})
  run [] = modify (λ c. c)
  run (e ∷ es) = step e >> run es
