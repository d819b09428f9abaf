-- ===== src/Client/Handlers.antt =====
-- The handlers of the packets from the server (Src/Client/peer_connection_client.cpp), with the rest of
-- the packet.
use p2pchat.Prelude.{
  ℕ, ◌==◌, ◌||◌, ltb, Bool, true, false, Option, none, some, List, [], ◌∷◌, if◌then◌else◌, ℤ, pos,
  negsuc, to_bits, of_bits,
}
use p2pchat.Outcome.{ok, Reader, pure, ◌>>=◌, ◌>>◌, modify}
use p2pchat.IniFile.{AString, str_eq}
use p2pchat.ByteBuffer.{ByteBuffer}
use p2pchat.ByteBuffer.Numbers.{read_be_int32}
use p2pchat.ByteBuffer.VarInt.{read_var_int32}
use p2pchat.ByteBuffer.Strings.{read_var_utf8_string}
use p2pchat.Framing.Reads.{handled, handle_read}
use p2pchat.Session.{var_int32, string}
use p2pchat.Client.{
  Sockets, Observer, Client, Reason, account_not_match, account_not_exist, packet_error,
  packet_unknown, server_busy, client_timeout, account_already_login, account_other_login,
  server_shutdown, bad_app, invalid_key_length, invalid_nonce_length, hacked_client, no_text,
  bye_message, packet, sign_out,
}

-- The text for a code of Include/ErrorCode.h.
unfoldable pub reason_text : ℤ → Reason
reason_text (pos n) = if n == 0 then account_not_match else no_text
reason_text (negsuc n) =
    if n == 0
    then account_not_exist
    else if n == 1
    then account_already_login
    else if n == 2
    then account_other_login
    else if n == 3
    then packet_error
    else if n == 4
    then packet_unknown
    else if n == 5
    then server_busy
    else if n == 6
    then server_shutdown
    else if n == 7
    then client_timeout
    else if n == 10
    then bad_app
    else if n == 11
    then invalid_key_length
    else if n == 12
    then invalid_nonce_length
    else if n == 13
    then hacked_client
    else no_text

-- The order of `int`, and the map `Peers`, in the order of its keys.
abbrev pub int_ltb : ℤ → ℤ → Bool
int_ltb (pos a) (pos b) = ltb a b
int_ltb (pos a) (negsuc b) = false
int_ltb (negsuc a) (pos b) = true
int_ltb (negsuc a) (negsuc b) = ltb b a

abbrev pub int_eq : ℤ → ℤ → Bool
int_eq (pos a) (pos b) = a == b
int_eq (pos a) (negsuc b) = false
int_eq (negsuc a) (pos b) = false
int_eq (negsuc a) (negsuc b) = a == b

unfoldable pub set_peer : ℤ → AString → List (ℤ × AString) → List (ℤ × AString)
set_peer id name [] = (id, name) ∷ []
set_peer id name ((k, v) ∷ ps) =
    let rest = set_peer id name ps in
    if int_ltb id k
    then (id, name) ∷ (k, v) ∷ ps
    else if int_eq id k
    then (k, name) ∷ ps
    else (k, v) ∷ rest

unfoldable pub erase_peer : ℤ → List (ℤ × AString) → List (ℤ × AString)
erase_peer id [] = []
erase_peer id ((k, v) ∷ ps) =
    let rest = erase_peer id ps in if int_eq id k then ps else (k, v) ∷ rest

-- `peers_[id]`, of a key that is there.
unfoldable pub find_peer : ℤ → List (ℤ × AString) → Option AString
find_peer id [] = none
find_peer id ((k, v) ∷ ps) = let rest = find_peer id ps in if int_eq id k then some v else rest

-- The state of a status answer is 1, 2 or 3.
unfoldable pub answered_state : ℤ → Option ℕ
answered_state (pos n) = if ltb 3 n || ltb n 1 then none else some n
answered_state (negsuc n) = none

unfoldable pub read_status : Reader ByteBuffer (ℤ × AString)
read_status = do state ← read_be_int32; ip ← read_var_utf8_string; pure (state, ip)

unfoldable pub read_user_info : Reader ByteBuffer (ℕ × AString × ℕ)
read_user_info = do
  uid ← read_var_int32
  name ← read_var_utf8_string
  state ← read_var_int32
  pure (uid, name, state)

unfoldable pub read_peer_type : Reader ByteBuffer (ℕ × ℕ)
read_peer_type = do peer_id ← read_var_int32; type ← read_var_int32; pure (peer_id, type)

unfoldable pub read_peer_message : Reader ByteBuffer (ℕ × AString)
read_peer_message = do
  peer_id ← read_var_int32
  message ← read_var_utf8_string
  pure (peer_id, message)

module _ {K O : Type 0} (sockets : Sockets K) (fresh : ℕ → List ℕ)
    (observer : Observer (Client K O)) where
  abbrev pub Turn : Type 0
  Turn = ByteBuffer × Client K O

  abbrev pub set_protocol_state : ℕ → Client K O → Client K O
  set_protocol_state n c = record c { protocol_state = n }

  unfoldable pub handle_error_code : ℤ → Reader (Client K O) (Unit {0})
  handle_error_code code =
      sign_out sockets fresh observer.on_disconnected
      >> observer.on_disconnected
      >> observer.post_notification (reason_text code)

  unfoldable pub on_status : ℤ → Reader (Client K O) (Unit {0})
  on_status state = elim (answered_state state) [
    | none ↦ modify (λ c. c)
    | some n ↦
        modify (set_protocol_state n)
        >> (λ c. packet sockets fresh 0x00 (string c.user_name ∷ string c.pass_word ∷ []) c)
  ]

  unfoldable pub handle_packet_status_request : Reader Turn Bool
  handle_packet_status_request (bb, c) = handle_read (read_status bb) (λ r. on_status r.0) c

  unfoldable pub handle_packet_login_disconnect : Reader Turn Bool
  handle_packet_login_disconnect (bb, c) = handle_read (read_be_int32 bb) handle_error_code c

  unfoldable pub handle_packet_login_success : Reader Turn Bool
  handle_packet_login_success (bb, c) =
      handled bb ((modify (set_protocol_state 3) >> observer.on_signed_in) c)

  unfoldable pub handle_packet_keep_alive : Reader Turn Bool
  handle_packet_keep_alive (bb, c) =
      handle_read (read_var_int32 bb) (λ id. packet sockets fresh 0x00 (var_int32 id ∷ [])) c

  -- A state beyond 3 is offline.
  unfoldable pub on_user_info : ℤ → AString → ℕ → Reader (Client K O) (Unit {0})
  on_user_info uid name state =
      if ltb 3 state
      then modify (λ c. record c { peers = erase_peer uid c.peers })
        >> observer.on_peer_disconnected uid
      else modify (λ c. record c { peers = set_peer uid name c.peers })
        >> observer.on_peer_connected uid name

  unfoldable pub handle_packet_user_info : Reader Turn Bool
  handle_packet_user_info (bb, c) =
      handle_read (read_user_info bb) (λ u. on_user_info (of_bits 32 u.0) u.1 u.2) c

  -- A request for a call is answered with 1, or with -1 by a client that is busy.
  unfoldable pub on_media : ℕ → ℕ → Reader (Client K O) (Unit {0})
  on_media peer_id type =
      if type == 0
      then (λ c.
          let code = if observer.is_busy c then negsuc 0 else pos 1 in
          packet sockets fresh 0x11 (var_int32 peer_id ∷ var_int32 (to_bits 32 code) ∷ []) c)
      else observer.on_peer_response (of_bits 32 peer_id) (of_bits 32 type)

  unfoldable pub handle_packet_media : Reader Turn Bool
  handle_packet_media (bb, c) = handle_read (read_peer_type bb) (λ m. on_media m.0 m.1) c

  unfoldable pub on_message_from_peer : ℤ → AString → Reader (Client K O) (Unit {0})
  on_message_from_peer peer_id message =
      if str_eq message bye_message
      then observer.on_peer_disconnected peer_id
      else observer.on_message_from_peer peer_id message

  unfoldable pub handle_packet_media_msg : Reader Turn Bool
  handle_packet_media_msg (bb, c) =
      handle_read (read_peer_message bb) (λ m. on_message_from_peer (of_bits 32 m.0) m.1) c

  unfoldable pub handle_packet_error_code : Reader Turn Bool
  handle_packet_error_code (bb, c) = handle_read (read_be_int32 bb) handle_error_code c

  -- The `switch` over the protocol's state and the packet's type.
  unfoldable pub dispatch : ℕ → ℕ → Reader Turn Bool
  dispatch state type (bb, c) =
      if state == 1
      then (if type == 0x00 then handle_packet_status_request (bb, c) else (ok false, (bb, c)))
      else if state == 2
      then (if type == 0x00
          then handle_packet_login_disconnect (bb, c)
          else if type == 0x01
          then handle_packet_login_success (bb, c)
          else (ok false, (bb, c)))
      else if state == 3
      then (if type == 0x00
          then handle_packet_keep_alive (bb, c)
          else if type == 0x01
          then handle_packet_user_info (bb, c)
          else if type == 0x11
          then handle_packet_media (bb, c)
          else if type == 0x12
          then handle_packet_media_msg (bb, c)
          else if type == 0x40
          then handle_packet_error_code (bb, c)
          else (ok false, (bb, c)))
      else if state == 255
      then (ok false, (bb, c))
      else (ok false, (bb, set_protocol_state 255 c))

  unfoldable pub handle_packet : ℕ → Reader Turn Bool
  handle_packet type (bb, c) = dispatch c.protocol_state type (bb, c)
