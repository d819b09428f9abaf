-- ===== src/Client.antt =====
-- The chat client's connection to the server: PeerConnectionClient
-- (Src/Client/peer_connection_client.cpp), with the packets that it composes with a cPacketizer
-- (Src/Client/Packetizer.cpp). The socket is a parameter, and so is the observer that is told of what
-- happens, which may change the client in turn.
pub mod Handlers
pub mod Events
pub mod Fresh
mod Tests
pub mod Ended
pub mod Stream
pub mod Keeps
pub mod Sound
pub mod Peers
pub mod Sent
use p2pchat.Prelude.{
  ℕ, ◌%◌, ◌^◌, ◌==◌, ◌||◌, ltb, leb, Bool, true, false, not, Option, none, some, List, [], ◌∷◌,
  if◌then◌else◌, is_nil, ℤ, pos, negsuc, to_bits,
}
use p2pchat.Outcome.{
  Outcome, ok, fail, undefined, exited, stuck, Reader, ◌>>=◌, ◌>>◌, modify, continue,
}
use p2pchat.IniFile.{AString}
use p2pchat.ByteBuffer.{ByteBuffer, init, get_used_space, read_all, commit_read, clear_all}
use p2pchat.ByteBuffer.VarInt.{write_var_int32}
use p2pchat.Session.{Field, be_int32, var_int32, string, write_fields}

-- `State`, in its order.
pub data State : Type 0 where
  not_connected resolving signing_in connected signing_out_waiting signing_out : State

-- A host and a port.
abbrev pub Address : Type 0
Address = AString × ℤ

-- `CS_CLOSED`, `CS_CONNECTING` and `CS_CONNECTED`.
pub data SocketState : Type 0 where
  cs_closed cs_connecting cs_connected : SocketState

-- What the client calls of rtc::AsyncSocket and rtc::SocketAddress. `connect` answers `false` for
-- `SOCKET_ERROR`.
pub record Sockets (K : Type 0) : Type 0 where
  pub create : Address → K
  pub connect : Address → K → Bool × K
  pub get_state : K → SocketState
  pub send : AString → K → K
  pub close : K → K
  pub is_unresolved_ip : Address → Bool

-- The texts of `HandleErrorCode`.
pub data Reason : Type 0 where
  account_not_match account_not_exist packet_error packet_unknown server_busy client_timeout
        account_already_login account_other_login server_shutdown bad_app invalid_key_length
        invalid_nonce_length hacked_client no_text :
      Reason

-- PeerConnectionClientObserver, without `OnMessageSent`, which the client does not call.
pub record Observer (S : Type 0) : Type 0 where
  pub on_disconnected : Reader S (Unit {0})
  pub on_signed_in : Reader S (Unit {0})
  pub is_busy : S → Bool
  pub on_peer_connected : ℤ → AString → Reader S (Unit {0})
  pub on_peer_disconnected : ℤ → Reader S (Unit {0})
  pub on_peer_response : ℤ → ℤ → Reader S (Unit {0})
  pub on_message_from_peer : ℤ → AString → Reader S (Unit {0})
  pub on_server_connection_failure : Reader S (Unit {0})
  pub post_notification : Reason → Reader S (Unit {0})

-- The members; `observer` is the object behind `callback_`, `is_connected` is `m_bConnect`, and a
-- resolver is a flag.
pub record Client (K O : Type 0) : Type 0 where
  pub received_data : ByteBuffer
  pub out_packet_buffer : ByteBuffer
  pub observer : O
  pub server_address : Address
  pub has_resolver : Bool
  pub control_socket : Option K
  pub state : State
  pub my_id : ℤ
  pub peers : List (ℤ × AString)
  pub is_connected : Bool
  pub user_name : AString
  pub pass_word : AString
  pub protocol_state : ℕ

-- "BYE", "p2pchat" and "127.0.0.1".
abbrev pub bye_message : AString
bye_message = 66 ∷ 89 ∷ 69 ∷ []

abbrev pub client_app : AString
client_app = 112 ∷ 50 ∷ 112 ∷ 99 ∷ 104 ∷ 97 ∷ 116 ∷ []

abbrev pub default_server : AString
default_server = 49 ∷ 50 ∷ 55 ∷ 46 ∷ 48 ∷ 46 ∷ 48 ∷ 46 ∷ 49 ∷ []

abbrev pub default_port : ℤ
default_port = pos 6666

-- The constructor; `fresh n` is the memory that `new char[n]` gives.
unfoldable pub new_peer_client : {K O : Type 0} → (ℕ → List ℕ) → O → Client K O
new_peer_client fresh observer = record {
  received_data = init (fresh 65537) 65536;
  out_packet_buffer = init (fresh 65537) 65536;
  observer = observer;
  server_address = ([], pos 0);
  has_resolver = false;
  control_socket = none;
  state = not_connected;
  my_id = negsuc 0;
  peers = [];
  is_connected = false;
  user_name = [];
  pass_word = [];
  protocol_state = 1;
}

-- What `ReadAll` makes of the string that it is given.
abbrev pub assigned : Outcome AString → AString → AString
assigned (ok s) old = s
assigned _ old = old

-- A call on `control_socket_`, which may be null.
unfoldable pub at_socket {ℓ} :
    {K O : Type 0} {A : Type ℓ} → (K → Reader (Client K O) A) → Reader (Client K O) A
at_socket call c = elim c.control_socket [ none ↦ (undefined, c) | some k ↦ call k c ]

abbrev pub set_socket : {K O : Type 0} → K → Client K O → Client K O
set_socket k c = record c { control_socket = some k }

unfoldable pub with_socket : {K O : Type 0} → (K → K) → Reader (Client K O) (Unit {0})
with_socket call = at_socket (λ k. modify (set_socket (call k)))

abbrev pub is_signed_out : State → Bool
is_signed_out not_connected = true
is_signed_out signing_out = true
is_signed_out _ = false

-- `state_ == CONNECTED`.
abbrev pub is_signed_in : State → Bool
is_signed_in connected = true
is_signed_in _ = false

abbrev pub is_closed : SocketState → Bool
is_closed cs_closed = true
is_closed _ = false

abbrev pub is_open : SocketState → Bool
is_open cs_connected = true
is_open _ = false

-- The members that `Close` sets, and those that `SignOut` clears.
abbrev pub forget : {K O : Type 0} → Client K O → Client K O
forget c = record c {
  received_data = clear_all c.received_data;
  out_packet_buffer = clear_all c.out_packet_buffer;
  has_resolver = false;
  state = not_connected;
  my_id = negsuc 0;
  is_connected = false;
  protocol_state = 1;
}

abbrev pub clear_names : {K O : Type 0} → Client K O → Client K O
clear_names c = record c { user_name = []; pass_word = [] }

abbrev pub set_state : {K O : Type 0} → State → Client K O → Client K O
set_state state c = record c { state = state }

module _ {K O : Type 0} (sockets : Sockets K) (fresh : ℕ → List ℕ) where
  unfoldable pub send_data : AString → Reader (Client K O) (Unit {0})
  send_data bytes c =
      let sent = with_socket (sockets.send bytes) c in
      if not c.is_connected then (ok tt, c) else sent

  -- The end of a cPacketizer's life: what has been composed is sent in two parts, its length first.
  unfoldable pub send_packet : Reader (Client K O) (Unit {0})
  send_packet c =
      let packet_len = get_used_space c.out_packet_buffer % 2 ^ 32 in
      let len_buffer = (write_var_int32 packet_len (init (fresh 21) 20)).1 in
      let len_to_send = assigned (read_all len_buffer).0 [] in
      let (data_to_send, out) = read_all c.out_packet_buffer in
      (send_data len_to_send
          >> send_data (assigned data_to_send len_to_send)
          >> modify (λ c'. record c' { out_packet_buffer = commit_read out }))
        c

  -- A cPacketizer of a type, its fields and its destructor.
  unfoldable pub packet : ℕ → List Field → Reader (Client K O) (Unit {0})
  packet type fields c =
      let opened = (write_var_int32 type c.out_packet_buffer).1 in
      let (r, out) = write_fields fields opened in
      continue (r, record c { out_packet_buffer = out }) (λ _. send_packet)

  unfoldable pub request_to_peer : ℤ → Reader (Client K O) (Unit {0})
  request_to_peer peer_id = packet 0x11 (var_int32 (to_bits 32 peer_id) ∷ var_int32 0 ∷ [])

  unfoldable pub send_to_peer : ℤ → AString → Reader (Client K O) (Unit {0})
  send_to_peer peer_id message = packet 0x12 (var_int32 (to_bits 32 peer_id) ∷ string message ∷ [])

  unfoldable pub send_hang_up : ℤ → Reader (Client K O) (Unit {0})
  send_hang_up peer_id = send_to_peer peer_id bye_message

  unfoldable pub close : Reader (Client K O) (Unit {0})
  close = with_socket sockets.close >> modify forget

  -- Behind `Connect`.
  unfoldable pub after_connect : Bool × K → Reader (Client K O) Bool
  after_connect (true, k) c = (ok true, set_socket k c)
  after_connect (false, k) c = continue (close (set_socket k c)) (λ _ c'. (ok false, c'))

  unfoldable pub connect_control_socket : Reader (Client K O) Bool
  connect_control_socket = at_socket (λ k c. after_connect (sockets.connect c.server_address k) c)

  unfoldable pub is_sending_message : Reader (Client K O) Bool
  is_sending_message c =
      let asked = at_socket (λ k c'. (ok (not (is_closed (sockets.get_state k))), c')) c in
      if is_signed_in c.state then asked else (ok false, c)

  -- `SignOut`, with the observer's `OnDisconnected`. It answers true.
  unfoldable pub leave : Reader (Client K O) (Unit {0}) → K → Reader (Client K O) (Unit {0})
  leave on_disconnected k =
      if is_open (sockets.get_state k)
      then modify (set_state signing_out) >> close >> on_disconnected
      else modify (set_state signing_out_waiting)

  unfoldable pub sign_out : Reader (Client K O) (Unit {0}) → Reader (Client K O) (Unit {0})
  sign_out on_disconnected c =
      let leaving = (at_socket (leave on_disconnected) >> modify clear_names) c in
      if is_signed_out c.state then (ok tt, c) else leaving
