-- ===== src/Client/Stream/Receive.antt =====
-- A message of the server leaves a signed-in client signed in, and the bytes that wait as they are
-- (Src/Client/peer_connection_client.cpp).
use p2pchat.Prelude.{
  ℕ, ◌==◌, ◌^◌, ◌<◌, ◌≤◌, ◌≡◌, refl, sym, ap, ◌∙◌, ltb, Bool, true, false, Bool-cases, inl, inr,
  List, [], ◌∷◌, length, length-append, All, arith, ℤ, pos, negsuc, to_bits, of_bits, if◌then◌else◌,
}
use p2pchat.Outcome.{ok, Reader}
use p2pchat.IniFile.{AString, str_eq}
use p2pchat.ByteBuffer.{ByteBuffer}
use p2pchat.ByteBuffer.VarInt.Groups.{groups, groups_shape}
use p2pchat.Session.{Field, var_int32}
use p2pchat.Session.Packets.{IsField, fields_bytes, payload}
use p2pchat.Client.{Sockets, Observer, Client, packet, bye_message}
use p2pchat.Client.Sent.{packet-Posted}
use p2pchat.Client.Handlers.{set_peer, erase_peer, on_user_info, on_media, on_message_from_peer}
use p2pchat.Client.Stream.{
  Message, ping, user_info, media_from, message_from, IsMessage, with_received, IsSignedIn, IsCalm,
  IsWatching, receive,
}

-- The call keeps the client signed in, and does the same whatever bytes wait.
pub record Taken {K O : Type 0} (E : O → Type 0) (call : Reader (Client K O) (Unit {0}))
    (c : Client K O) : Type 0 where
  pub keeps : IsSignedIn E (call c).1
  pub apart : (b : ByteBuffer) → call (with_received b c) ≡ (ok tt, with_received b (call c).1)

module _ {K O : Type 0} (sockets : Sockets K) (fresh : ℕ → List ℕ)
    (observer : Observer (Client K O)) (E : O → Type 0) (mem : (n : ℕ) → length (fresh n) ≡ n)
    (watching : IsWatching E observer) where
  packet-Taken :
      (type : ℕ) (fs : List Field) (c : Client K O)
      → IsSignedIn E c
      → type < 2 ^ 32
      → All IsField fs
      → length (payload type fs) ≤ 65536
      → Taken E (packet sockets fresh type fs) c
  packet-Taken type fs c h ht hs few =
      let p = packet-Posted sockets fresh c h.socket type fs mem h.has_socket h.blank ht hs few in
      record {
        keeps = rw p.result (record {
          signed_in = h.signed_in;
          socket = _;
          has_socket = refl;
          blank = p.out_blank;
          watched = h.watched;
        });
        apart = λ b.
            (packet-Posted sockets fresh (with_received b c) h.socket type fs mem h.has_socket
              h.blank ht hs few).result
            ∙ ap (λ r. (ok tt, with_received b r.1)) (sym p.result);
      }

  calm-Taken :
      (call : Reader (Client K O) (Unit {0})) (c : Client K O)
      → IsCalm E call
      → IsSignedIn E c
      → Taken E call c
  calm-Taken call c calm h =
      let e : call c ≡ (ok tt, record c { observer = calm.behind c }) =
        calm.result c c.received_data h.watched in
      record {
        keeps = rw e (record {
          signed_in = h.signed_in;
          socket = h.socket;
          has_socket = h.has_socket;
          blank = h.blank;
          watched = calm.keeps c h.watched;
        });
        apart = λ b. calm.result c b h.watched ∙ ap (λ r. (ok tt, with_received b r.1)) (sym e);
      }

  -- The list of peers changes, and the observer is told.
  user_info-Taken :
      (uid : ℤ) (name : AString) (state : ℕ) (c : Client K O)
      → IsSignedIn E c
      → Taken E (on_user_info sockets fresh observer uid name state) c
  unfolding on_user_info
  user_info-Taken uid name state c h = elim (Bool-cases (ltb 3 state)) [
    | inl e ↦
        let t =
          calm-Taken (observer.on_peer_disconnected uid)
            (record c { peers = erase_peer uid c.peers }) (watching.peer_disconnected uid)
            (record {
              signed_in = h.signed_in;
              socket = h.socket;
              has_socket = h.has_socket;
              blank = h.blank;
              watched = h.watched;
            }) in
        rw (e, on_user_info) (record { keeps = t.keeps; apart = t.apart })
    | inr e ↦
        let t =
          calm-Taken (observer.on_peer_connected uid name)
            (record c { peers = set_peer uid name c.peers }) (watching.peer_connected uid name)
            (record {
              signed_in = h.signed_in;
              socket = h.socket;
              has_socket = h.has_socket;
              blank = h.blank;
              watched = h.watched;
            }) in
        rw (e, on_user_info) (record { keeps = t.keeps; apart = t.apart })
  ]

  two_numbers_fit :
      (type a b : ℕ)
      → type < 2 ^ 32
      → a < 2 ^ 32
      → b < 2 ^ 32
      → length (payload type (var_int32 a ∷ var_int32 b ∷ [])) ≤ 65536
  two_numbers_fit type a b ht ha hb = omega (
    arith,
    length-append (groups 4 type) (fields_bytes (var_int32 a ∷ var_int32 b ∷ [])),
    length-append (groups 4 a) (fields_bytes (var_int32 b ∷ [])),
    length-append (groups 4 b) [],
    groups_shape 4 type (omega arith),
    groups_shape 4 a (omega arith),
    groups_shape 4 b (omega arith),
  )

  one_number_fits :
      (type a : ℕ) → type < 2 ^ 32 → a < 2 ^ 32 → length (payload type (var_int32 a ∷ [])) ≤ 65536
  one_number_fits type a ht ha = omega (
    arith,
    length-append (groups 4 type) (fields_bytes (var_int32 a ∷ [])),
    length-append (groups 4 a) [],
    groups_shape 4 type (omega arith),
    groups_shape 4 a (omega arith),
  )

  -- The answer to a request for a call.
  answer-Taken :
      (peer_id : ℕ) (busy : Bool) (c : Client K O)
      → peer_id < 2 ^ 32
      → IsSignedIn E c
      → Taken E
          (packet sockets fresh 0x11
            (var_int32 peer_id ∷ var_int32 (to_bits 32 (if busy then negsuc 0 else pos 1)) ∷ []))
          c
  answer-Taken peer_id true c hp h =
      packet-Taken 0x11 (var_int32 peer_id ∷ var_int32 (to_bits 32 (negsuc 0)) ∷ []) c h
        (omega arith) (hp, (omega arith, tt))
        (two_numbers_fit 0x11 peer_id _ (omega arith) hp (omega arith))
  answer-Taken peer_id false c hp h =
      packet-Taken 0x11 (var_int32 peer_id ∷ var_int32 (to_bits 32 (pos 1)) ∷ []) c h (omega arith)
        (hp, (omega arith, tt)) (two_numbers_fit 0x11 peer_id _ (omega arith) hp (omega arith))

  media-Taken :
      (peer_id type : ℕ) (c : Client K O)
      → peer_id < 2 ^ 32
      → IsSignedIn E c
      → Taken E (on_media sockets fresh observer peer_id type) c
  unfolding on_media
  media-Taken peer_id type c hp h = elim (Bool-cases (type == 0)) [
    | inl e ↦
        let t = answer-Taken peer_id (observer.is_busy c) c hp h in
        rw (e, on_media)
          (record { keeps = t.keeps; apart = λ b. rw (watching.busy c b) (t.apart b) })
    | inr e ↦
        rw (e, on_media)
          (calm-Taken (observer.on_peer_response (of_bits 32 peer_id) (of_bits 32 type)) c
            (watching.peer_response (of_bits 32 peer_id) (of_bits 32 type)) h)
  ]

  message-Taken :
      (peer_id : ℤ) (text : AString) (c : Client K O)
      → IsSignedIn E c
      → Taken E (on_message_from_peer sockets fresh observer peer_id text) c
  unfolding on_message_from_peer
  message-Taken peer_id text c h = elim (Bool-cases (str_eq text bye_message)) [
    | inl e ↦ rw (e, on_message_from_peer) (calm-Taken _ c (watching.peer_disconnected peer_id) h)
    | inr e ↦ rw (e, on_message_from_peer) (calm-Taken _ c (watching.message peer_id text) h)
  ]

  pub receive-Taken :
      (q : Message) (c : Client K O)
      → IsMessage q
      → IsSignedIn E c
      → Taken E (receive sockets fresh observer q) c
  receive-Taken (ping n) c hq h =
      packet-Taken 0x00 (var_int32 n ∷ []) c h (omega arith) (hq, tt)
        (one_number_fits 0x00 n (omega arith) hq)
  receive-Taken (user_info uid name state) c hq h = user_info-Taken (of_bits 32 uid) name state c h
  receive-Taken (media_from peer_id type) c hq h = media-Taken peer_id type c hq.0 h
  receive-Taken (message_from peer_id text) c hq h = message-Taken (of_bits 32 peer_id) text c h
