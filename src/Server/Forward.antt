-- ===== src/Server/Forward.antt =====
-- The forwarding of media from one client to another (`ForwardMedia` and `ForwardMediaMsg` of
-- Src/Server/Server.cpp).
use p2pchat.Prelude.{
  ℕ, ◌^◌, ◌<◌, ◌≤◌, ◌≡◌, ap, some, List, [], ◌∷◌, ◌++◌, length, length-append, arith,
}
use p2pchat.Outcome.{Outcome, ok}
use p2pchat.IniFile.{AString}
use p2pchat.ByteBuffer.VarInt.Groups.{groups, groups_shape}
use p2pchat.Session.{ClientHandle, string, var_int32}
use p2pchat.Session.Packets.{IsReady, fields_bytes, payload, frame, packet-Delivered}
use p2pchat.Session.Sent.{Sent, Delivered-Sent}
use p2pchat.Session.Sending.{forward_media, forward_media_msg}
use p2pchat.Server.{Server, find_client, server_forward_media, server_forward_media_msg}
use p2pchat.Server.Delivery.{put, first_with-put}

-- The one client has been sent the bytes, and nothing else has changed.
pub record Forwarded (id : ℕ) (bytes : List ℕ) (c : ClientHandle) (s : Server)
    (r : Outcome (Unit {0}) × Server) : Type 0 where
  pub receiver : ClientHandle
  pub sent : Sent bytes c receiver
  pub result : r ≡ (ok tt, record s { clients = put id receiver s.clients })

media_fits :
    (a b : ℕ)
    → a < 2 ^ 32
    → b < 2 ^ 32
    → length (payload 0x11 (var_int32 a ∷ var_int32 b ∷ [])) ≤ 65536
media_fits a b ha hb = omega (
  arith,
  length-append (groups 4 0x11) (fields_bytes (var_int32 a ∷ var_int32 b ∷ [])),
  length-append (groups 4 a) (fields_bytes (var_int32 b ∷ [])),
  length-append (groups 4 b) [],
  groups_shape 4 0x11 (omega arith),
  groups_shape 4 a (omega arith),
  groups_shape 4 b (omega arith),
)

msg_fits :
    (a : ℕ) (s : AString)
    → a < 2 ^ 32
    → length s ≤ 65000
    → length (payload 0x12 (var_int32 a ∷ string s ∷ [])) ≤ 65536
msg_fits a s ha hs = omega (
  arith,
  length-append (groups 4 0x12) (fields_bytes (var_int32 a ∷ string s ∷ [])),
  length-append (groups 4 a) (fields_bytes (string s ∷ [])),
  length-append (groups 4 (length s) ++ s) [],
  length-append (groups 4 (length s)) s,
  groups_shape 4 0x12 (omega arith),
  groups_shape 4 a (omega arith),
  groups_shape 4 (length s) (omega arith),
)

pub forward_media-Sent :
    (from_id type : ℕ) (c : ClientHandle)
    → IsReady c
    → from_id < 2 ^ 32
    → type < 2 ^ 32
    → ((forward_media from_id type c).0 ≡ ok tt)
      × Sent
          (frame (payload 0x11 (var_int32 from_id ∷ var_int32 type ∷ [])))
          c
          (forward_media from_id type c).1
unfolding forward_media
forward_media-Sent from_id type c ready hf ht = Delivered-Sent c _ (forward_media from_id type c) (
    packet-Delivered c 0x11 (var_int32 from_id ∷ var_int32 type ∷ []) ready (omega arith)
      (hf, (ht, tt)) (media_fits from_id type hf ht))

pub forward_media_msg-Sent :
    (from_id : ℕ) (msg : AString) (c : ClientHandle)
    → IsReady c
    → from_id < 2 ^ 32
    → length msg ≤ 65000
    → ((forward_media_msg from_id msg c).0 ≡ ok tt)
      × Sent
          (frame (payload 0x12 (var_int32 from_id ∷ string msg ∷ [])))
          c
          (forward_media_msg from_id msg c).1
unfolding forward_media_msg
forward_media_msg-Sent from_id msg c ready hf hm =
    Delivered-Sent c _ (forward_media_msg from_id msg c) (
      packet-Delivered c 0x12 (var_int32 from_id ∷ string msg ∷ []) ready (omega arith)
        (hf, (omega (arith, hm), tt)) (msg_fits from_id msg hf hm))

-- A media request with a type and a sender below 2^32 is queued for the first client with the number
-- that it names, whose buffers for packets are empty, as one packet with the sender's number and the
-- type, unless that client has been sent its disconnect; no other client changes.
pub server_forward_media-Forwarded :
    (to_id from_id type : ℕ) (s : Server) (c : ClientHandle)
    → find_client to_id s.clients ≡ some c
    → IsReady c
    → from_id < 2 ^ 32
    → type < 2 ^ 32
    → Forwarded to_id
        (frame (payload 0x11 (var_int32 from_id ∷ var_int32 type ∷ [])))
        c
        s
        (server_forward_media to_id from_id type s)
unfolding server_forward_media
server_forward_media-Forwarded to_id from_id type s c found ready hf ht =
    let (answer, sent) = forward_media-Sent from_id type c ready hf ht in
    record {
      receiver = (forward_media from_id type c).1;
      sent = sent;
      result = rw (first_with-put to_id (forward_media from_id type) s.clients c found) (
          ap (λ r. (r, record s { clients = put to_id (forward_media from_id type c).1 s.clients }))
            answer);
    }

-- A text of up to 65,000 bytes from a sender below 2^32 is queued for the first client with the number
-- that it names, whose buffers for packets are empty, as one packet with the sender's number and the
-- text, unless that client has been sent its disconnect; no other client changes.
pub server_forward_media_msg-Forwarded :
    (to_id from_id : ℕ) (msg : AString) (s : Server) (c : ClientHandle)
    → find_client to_id s.clients ≡ some c
    → IsReady c
    → from_id < 2 ^ 32
    → length msg ≤ 65000
    → Forwarded to_id
        (frame (payload 0x12 (var_int32 from_id ∷ string msg ∷ [])))
        c
        s
        (server_forward_media_msg to_id from_id msg s)
unfolding server_forward_media_msg
server_forward_media_msg-Forwarded to_id from_id msg s c found ready hf hm =
    let (answer, sent) = forward_media_msg-Sent from_id msg c ready hf hm in
    record {
      receiver = (forward_media_msg from_id msg c).1;
      sent = sent;
      result = rw (first_with-put to_id (forward_media_msg from_id msg) s.clients c found) (
          ap
            (λ r.
              (r, record s { clients = put to_id (forward_media_msg from_id msg c).1 s.clients }))
            answer);
    }
