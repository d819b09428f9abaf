-- ===== src/Client/Stream.antt =====
-- What the server tells a client that has signed in (Src/Client/peer_connection_client.cpp): the messages,
-- their packets, and what they mean.
pub mod Receive
pub mod Received
use p2pchat.Prelude.{ℕ, ◌^◌, ◌<◌, ◌≤◌, ◌≡◌, Bool, some, List, [], ◌∷◌, length, ℤ, of_bits}
use p2pchat.Outcome.{Outcome, ok, Reader}
use p2pchat.IniFile.{AString}
use p2pchat.ByteBuffer.{ByteBuffer}
use p2pchat.Framing.Stream.{Packet}
use p2pchat.Session.{Field, var_int32, string}
use p2pchat.Session.Packets.{IsBlank, fields_bytes}
use p2pchat.Client.{Sockets, Observer, Client, packet}
use p2pchat.Client.Handlers.{on_user_info, on_media, on_message_from_peer}

-- The messages but the error code.
pub data Message : Type 0 where
  ping : ℕ → Message
  user_info : ℕ → AString → ℕ → Message
  media_from : ℕ → ℕ → Message
  message_from : ℕ → AString → Message

abbrev pub message_type : Message → ℕ
message_type (ping n) = 0x00
message_type (user_info uid name state) = 0x01
message_type (media_from peer_id type) = 0x11
message_type (message_from peer_id text) = 0x12

abbrev pub message_fields : Message → List Field
message_fields (ping n) = var_int32 n ∷ []
message_fields (user_info uid name state) = var_int32 uid ∷ string name ∷ var_int32 state ∷ []
message_fields (media_from peer_id type) = var_int32 peer_id ∷ var_int32 type ∷ []
message_fields (message_from peer_id text) = var_int32 peer_id ∷ string text ∷ []

abbrev pub message_packet : Message → Packet
message_packet q = (message_type q, fields_bytes (message_fields q))

abbrev pub IsMessage : Message → Type 0
IsMessage (ping n) = n < 2 ^ 32
IsMessage (user_info uid name state) = (uid < 2 ^ 32) × (length name ≤ 65000) × (state < 2 ^ 32)
IsMessage (media_from peer_id type) = (peer_id < 2 ^ 32) × (type < 2 ^ 32)
IsMessage (message_from peer_id text) = (peer_id < 2 ^ 32) × (length text ≤ 65000)

-- The client with other received bytes.
abbrev pub with_received : {K O : Type 0} → ByteBuffer → Client K O → Client K O
with_received b c = record c { received_data = b }

-- A client that has signed in, and can send.
pub record IsSignedIn {K O : Type 0} (E : O → Type 0) (c : Client K O) : Type 0 where
  pub signed_in : c.protocol_state ≡ 3
  pub socket : K
  pub has_socket : c.control_socket ≡ some socket
  pub blank : IsBlank 65536 c.out_packet_buffer
  pub watched : E c.observer

-- Where `E` holds of the observer, a call of it changes the observer alone, and keeps `E`.
pub record IsCalm {K O : Type 0} (E : O → Type 0) (call : Reader (Client K O) (Unit {0}))
    : Type 0 where
  pub behind : Client K O → O
  pub keeps : (c : Client K O) → E c.observer → E (behind c)
  pub result :
      (c : Client K O) (b : ByteBuffer)
      → E c.observer
      → call (with_received b c) ≡ (ok tt, record (with_received b c) { observer = behind c })

-- An observer whose calls behind these messages are calm, and whether it is busy does not depend on the
-- bytes that wait.
pub record IsWatching {K O : Type 0} (E : O → Type 0) (observer : Observer (Client K O))
    : Type 0 where
  pub busy :
      (c : Client K O) (b : ByteBuffer) → observer.is_busy (with_received b c) ≡ observer.is_busy c
  pub peer_connected : (id : ℤ) (name : AString) → IsCalm E (observer.on_peer_connected id name)
  pub peer_disconnected : (id : ℤ) → IsCalm E (observer.on_peer_disconnected id)
  pub peer_response : (id code : ℤ) → IsCalm E (observer.on_peer_response id code)
  pub message : (id : ℤ) (text : AString) → IsCalm E (observer.on_message_from_peer id text)

module _ {K O : Type 0} (sockets : Sockets K) (fresh : ℕ → List ℕ)
    (observer : Observer (Client K O)) where
  -- What a message of the server means.
  abbrev pub receive : Message → Reader (Client K O) (Unit {0})
  receive (ping n) = packet sockets fresh 0x00 (var_int32 n ∷ [])
  receive (user_info uid name state) =
      on_user_info sockets fresh observer (of_bits 32 uid) name state
  receive (media_from peer_id type) = on_media sockets fresh observer peer_id type
  receive (message_from peer_id text) =
      on_message_from_peer sockets fresh observer (of_bits 32 peer_id) text

  abbrev pub receive_all : List Message → Client K O → Client K O
  receive_all [] c = c
  receive_all (q ∷ qs) c = receive_all qs (receive q c).1
