-- ===== src/Server/Handlers.antt =====
-- The handlers of the packets from a client (Src/Server/Protocol/cProtocol_impl.cpp), with the server and
-- the rest of the packet.
use p2pchat.Prelude.{
  ℕ, ◌==◌, ◌||◌, ltb, Bool, false, not, Option, none, some, [], ◌∷◌, ◌++◌, if◌then◌else◌, ℤ, pos,
  negsuc,
}
use p2pchat.Outcome.{ok, Reader, pure, ◌>>=◌, ◌>>◌, modify}
use p2pchat.IniFile.{AString, str_eq}
use p2pchat.ByteBuffer.{ByteBuffer}
use p2pchat.ByteBuffer.Numbers.{read_be_int32, read_be_int64}
use p2pchat.ByteBuffer.VarInt.{read_var_int32}
use p2pchat.ByteBuffer.Strings.{read_var_utf8_string}
use p2pchat.Framing.Reads.{handle_read, not_handled}
use p2pchat.Session.{authenticating}
use p2pchat.Session.Sending.{
  bad_app, kick, status_reply, ping_reply, handle_keep_alive, packet_unknown, set_protocol_state,
}
use p2pchat.Server.{Server, find_client, on_client, server_forward_media, server_forward_media_msg}

-- "p2pchat".
abbrev pub app_name : AString
app_name = 112 ∷ 50 ∷ 112 ∷ 99 ∷ 104 ∷ 97 ∷ 116 ∷ []

abbrev pub Turn : Type 0
Turn = ByteBuffer × Server

-- The state of a status request is 1 or 2.
unfoldable pub allowed_state : ℤ → Option ℕ
allowed_state (pos n) = if ltb n 1 || ltb 2 n then none else some n
allowed_state (negsuc n) = none

unfoldable pub on_status_request : ℕ → AString → ℤ → Reader Server (Unit {0})
on_status_request id app state = elim (allowed_state state) [
  | none ↦ on_client id (kick bad_app)
  | some n ↦
      if not (str_eq app app_name)
      then on_client id (kick bad_app)
      else on_client id (status_reply n)
]

unfoldable pub read_status_request : Reader ByteBuffer (AString × ℤ)
read_status_request = do
  app ← read_var_utf8_string
  server ← read_var_utf8_string
  port ← read_be_int32
  state ← read_be_int32
  pure (app, state)

unfoldable pub handle_packet_status_request : ℕ → Reader Turn Bool
handle_packet_status_request id (bb, s) =
    handle_read (read_status_request bb) (λ request. on_status_request id request.0 request.1) s

unfoldable pub handle_packet_status_ping : ℕ → Reader Turn Bool
handle_packet_status_ping id (bb, s) =
    handle_read (read_be_int64 bb) (λ timestamp. on_client id (ping_reply timestamp)) s

-- `HandleLogin` of the client.
unfoldable pub handle_login : ℕ → AString → AString → Reader Server (Unit {0})
handle_login id username password =
    on_client id (modify (λ c. record c { state = authenticating }))
    >> modify (λ s. record s {
      queue = s.queue ++ record { client_id = id; username = username; password = password } ∷ [];
    })

unfoldable pub read_login_info : Reader ByteBuffer (AString × AString)
read_login_info = do
  username ← read_var_utf8_string
  password ← read_var_utf8_string
  pure (username, password)

unfoldable pub handle_packet_login_info : ℕ → Reader Turn Bool
handle_packet_login_info id (bb, s) =
    handle_read (read_login_info bb) (λ login. handle_login id login.0 login.1) s

unfoldable pub handle_packet_keep_alive : ℕ → ℕ → Reader Turn Bool
handle_packet_keep_alive now id (bb, s) =
    handle_read (read_var_int32 bb)
      (λ keep_alive_id. on_client id (modify (handle_keep_alive now keep_alive_id))) s

unfoldable pub read_media : Reader ByteBuffer (ℕ × ℕ)
read_media = do peer_id ← read_var_int32; type ← read_var_int32; pure (peer_id, type)

unfoldable pub handle_packet_media : ℕ → Reader Turn Bool
handle_packet_media id (bb, s) =
    handle_read (read_media bb) (λ media. server_forward_media media.0 id media.1) s

unfoldable pub read_media_msg : Reader ByteBuffer (ℕ × AString)
read_media_msg = do peer_id ← read_var_int32; msg ← read_var_utf8_string; pure (peer_id, msg)

unfoldable pub handle_packet_media_msg : ℕ → Reader Turn Bool
handle_packet_media_msg id (bb, s) =
    handle_read (read_media_msg bb) (λ media. server_forward_media_msg media.0 id media.1) s

-- Behind the `switch`: the packet is reported.
unfoldable pub unknown : ℕ → Reader Turn Bool
unknown id (bb, s) = not_handled bb (on_client id packet_unknown s)

-- The state of `default`: further packets are ignored.
unfoldable pub ignore : ℕ → Reader Turn Bool
ignore id (bb, s) = not_handled bb (on_client id (modify (set_protocol_state 255)) s)

-- The `switch` over the protocol's state and the packet's type.
unfoldable pub dispatch : ℕ → ℕ → ℕ → ℕ → Reader Turn Bool
dispatch state now id type t =
    if state == 1
    then (if type == 0x00
        then handle_packet_status_request id t
        else if type == 0x01
        then handle_packet_status_ping id t
        else unknown id t)
    else if state == 2
    then (if type == 0x00 then handle_packet_login_info id t else unknown id t)
    else if state == 3
    then (if type == 0x00
        then handle_packet_keep_alive now id t
        else if type == 0x11
        then handle_packet_media id t
        else if type == 0x12
        then handle_packet_media_msg id t
        else unknown id t)
    else if state == 255
    then (ok false, t)
    else ignore id t

unfoldable pub handle_packet : ℕ → ℕ → ℕ → Reader Turn Bool
handle_packet now id type (bb, s) = elim (find_client id s.clients) [
  | none ↦ (ok false, (bb, s))
  | some c ↦ dispatch c.protocol.state now id type (bb, s)
]
