-- ===== src/Server/Sessions/Turns.antt =====
-- What reaches the server moves the sessions as the step relation says
-- (Src/Server/Protocol/cProtocol_impl.cpp, Src/Server/Server.cpp).
use p2pchat.Prelude.{
  ℕ, ◌≡◌, sym, subst, not, ◌==◌, some, inl, inr, ◌⊎◌, List, [], ◌∷◌, All, arith, ℤ, pos, negsuc,
  Bool-cases, Option-cases,
}
use p2pchat.Outcome.{Outcome, ok, fail, undefined, exited, stuck, Reader, modify}
use p2pchat.IniFile.{AString, str_eq}
use p2pchat.ByteBuffer.{ByteBuffer}
use p2pchat.ByteBuffer.Numbers.{read_be_int64}
use p2pchat.ByteBuffer.VarInt.{read_var_int32}
use p2pchat.Session.{
  State, connected, destroyed, authenticating, authenticated, working, destroying, ClientHandle,
}
use p2pchat.Session.Cores.{
  keep_alive-Same, forward_media-Same, forward_media_msg-Same, core, packet-Same,
  send_disconnect-Same,
}
use p2pchat.Session.Sending.{
  kick, bad_app, status_reply, ping_reply, handle_keep_alive, packet_unknown, set_protocol_state,
  forward_media, forward_media_msg,
}
use p2pchat.Server.{Server, find_client, on_client, server_forward_media, server_forward_media_msg}
use p2pchat.Framing.Reads.{handled, handle_read, not_handled}
use p2pchat.Server.Handlers.{
  allowed_state, on_status_request, read_status_request, handle_packet_status_request,
  handle_packet_status_ping, handle_login, read_login_info, handle_packet_login_info,
  handle_packet_keep_alive, read_media, handle_packet_media, read_media_msg,
  handle_packet_media_msg, unknown, dispatch, handle_packet, app_name,
}
use p2pchat.Server.Clients.{cores, find_client-cases}
use p2pchat.Server.Sessions.{roll, Move, asks, logs_in, Reaches, stays, IsSound, Agree, IsOrderly}
use p2pchat.Server.Sessions.Refines.{Refines, continue-Refines, on_client-Refines, on_client-moves}

handled-Reaches :
    (s : Server) (bb : ByteBuffer) (r : Outcome (Unit {0}) × Server)
    → Reaches (roll s) (roll r.1)
    → Reaches (roll s) (roll (handled bb r).1.1)
handled-Reaches s bb (ok _, s') h = h
handled-Reaches s bb (fail, s') h = h
handled-Reaches s bb (undefined, s') h = h
handled-Reaches s bb (exited, s') h = h
handled-Reaches s bb (stuck, s') h = h

not_handled-Reaches :
    (s : Server) (bb : ByteBuffer) (r : Outcome (Unit {0}) × Server)
    → Reaches (roll s) (roll r.1)
    → Reaches (roll s) (roll (not_handled bb r).1.1)
not_handled-Reaches s bb (ok _, s') h = h
not_handled-Reaches s bb (fail, s') h = h
not_handled-Reaches s bb (undefined, s') h = h
not_handled-Reaches s bb (exited, s') h = h
not_handled-Reaches s bb (stuck, s') h = h

handle_read-Reaches {ℓ} :
    {A : Type ℓ} (r : Outcome A × ByteBuffer) (act : A → Reader Server (Unit {0})) (s : Server)
    → ((a : A) → Reaches (roll s) (roll (act a s).1))
    → Reaches (roll s) (roll (handle_read r act s).1.1)
handle_read-Reaches (ok a, bb) act s h = handled-Reaches s bb (act a s) (h a)
handle_read-Reaches (fail, bb) act s h = stays
handle_read-Reaches (undefined, bb) act s h = stays
handle_read-Reaches (exited, bb) act s h = stays
handle_read-Reaches (stuck, bb) act s h = stays

-- The states that a status request may name.
allowed_state-cases : (state : ℤ) (n : ℕ) → allowed_state state ≡ some n → (n ≡ 1) ⊎ (n ≡ 2)
unfolding allowed_state
allowed_state-cases (pos m) n e = ground arith
allowed_state-cases (negsuc m) n e = cc

on_status_request-Reaches :
    (id : ℕ) (app : AString) (state : ℤ) (s : Server) (c : ClientHandle)
    → find_client id s.clients ≡ some c
    → c.protocol.state ≡ 1
    → Reaches (roll s) (roll (on_status_request id app state s).1)
unfolding on_status_request status_reply kick
on_status_request-Reaches id app state s c found one = elim (Option-cases (allowed_state state)) [
  | inl e ↦
      rw (e, on_status_request)
        (on_client-Refines id (kick bad_app) (send_disconnect-Same bad_app) s)
  | inr (n, e) ↦ elim (Bool-cases (not (str_eq app app_name))) [
    | inl e' ↦
        rw (e, e', on_status_request)
          (on_client-Refines id (kick bad_app) (send_disconnect-Same bad_app) s)
    | inr e' ↦
        rw (e, e', on_status_request)
          (on_client-moves id (status_reply n) s c found (
            subst (λ k. Move (cores s.clients) (core c) k)
              (sym (packet-Same _ _ (set_protocol_state n c)))
              (asks (core c) n one (allowed_state-cases state n e))))
  ]
]

handle_login-Reaches :
    (id : ℕ) (username password : AString) (s : Server) (c : ClientHandle)
    → find_client id s.clients ≡ some c
    → c.protocol.state ≡ 2
    → Reaches (roll s) (roll (handle_login id username password s).1)
unfolding handle_login
handle_login-Reaches id username password s c found two =
    continue-Refines s (on_client id (modify (λ c. record c { state = authenticating })) s) _
      (on_client-moves id (modify (λ c. record c { state = authenticating })) s c found
        (logs_in (core c) two))
      (λ s'. stays)

media-Refines : (to_id from_id type : ℕ) → Refines (server_forward_media to_id from_id type)
unfolding server_forward_media
media-Refines to_id from_id type =
    on_client-Refines to_id (forward_media from_id type) (forward_media-Same from_id type)

media_msg-Refines :
    (to_id from_id : ℕ) (msg : AString) → Refines (server_forward_media_msg to_id from_id msg)
unfolding server_forward_media_msg
media_msg-Refines to_id from_id msg =
    on_client-Refines to_id (forward_media_msg from_id msg) (forward_media_msg-Same from_id msg)

ping_reply-Refines : (id : ℕ) (timestamp : ℤ) → Refines (on_client id (ping_reply timestamp))
unfolding ping_reply
ping_reply-Refines id timestamp = on_client-Refines id (ping_reply timestamp) (packet-Same _ _)

unknown-Reaches :
    (id : ℕ) (bb : ByteBuffer) (s : Server) → Reaches (roll s) (roll (unknown id (bb, s)).1.1)
unfolding unknown packet_unknown
unknown-Reaches id bb s =
    not_handled-Reaches s bb _ (on_client-Refines id packet_unknown (send_disconnect-Same _) s)

-- The packets of a client that is working.
dispatch_working :
    (now id type : ℕ) (bb : ByteBuffer) (s : Server)
    → Reaches (roll s) (roll (dispatch 3 now id type (bb, s)).1.1)
unfolding dispatch handle_packet_keep_alive handle_packet_media handle_packet_media_msg unknown
dispatch_working now id type bb s = elim (Bool-cases (type == 0x00)) [
  | inl e ↦ rw e (
      handle_read-Reaches (read_var_int32 bb) _ s
        (λ n. on_client-Refines id (modify (handle_keep_alive now n)) (keep_alive-Same now n) s))
  | inr e ↦ elim (Bool-cases (type == 0x11)) [
    | inl e' ↦
        rw (e, e') (handle_read-Reaches (read_media bb) _ s (λ m. media-Refines m.0 id m.1 s))
    | inr e' ↦ elim (Bool-cases (type == 0x12)) [
      | inl e'' ↦
          rw (e, e', e'')
            (handle_read-Reaches (read_media_msg bb) _ s (λ m. media_msg-Refines m.0 id m.1 s))
      | inr e'' ↦ rw (e, e', e'') (unknown-Reaches id bb s)
    ]
  ]
]

dispatch_login :
    (now id type : ℕ) (bb : ByteBuffer) (s : Server) (c : ClientHandle)
    → find_client id s.clients ≡ some c
    → c.protocol.state ≡ 2
    → Reaches (roll s) (roll (dispatch 2 now id type (bb, s)).1.1)
unfolding dispatch handle_packet_login_info
dispatch_login now id type bb s c found two = elim (Bool-cases (type == 0x00)) [
  | inl e ↦ rw e (
      handle_read-Reaches (read_login_info bb) _ s
        (λ login. handle_login-Reaches id login.0 login.1 s c found two))
  | inr e ↦ rw e (unknown-Reaches id bb s)
]

dispatch_status :
    (now id type : ℕ) (bb : ByteBuffer) (s : Server) (c : ClientHandle)
    → find_client id s.clients ≡ some c
    → c.protocol.state ≡ 1
    → Reaches (roll s) (roll (dispatch 1 now id type (bb, s)).1.1)
unfolding dispatch handle_packet_status_request handle_packet_status_ping
dispatch_status now id type bb s c found one = elim (Bool-cases (type == 0x00)) [
  | inl e ↦ rw e (
      handle_read-Reaches (read_status_request bb) _ s
        (λ request. on_status_request-Reaches id request.0 request.1 s c found one))
  | inr e ↦ elim (Bool-cases (type == 0x01)) [
    | inl e' ↦
        rw (e, e') (handle_read-Reaches (read_be_int64 bb) _ s (λ t. ping_reply-Refines id t s))
    | inr e' ↦ rw (e, e') (unknown-Reaches id bb s)
  ]
]

-- The protocol's state of a client of an orderly roll.
protocol_state-cases : (state : State) (n : ℕ) → Agree state n → (n ≡ 1) ⊎ ((n ≡ 2) ⊎ (n ≡ 3))
protocol_state-cases connected n (inl e) = inl e
protocol_state-cases connected n (inr e) = inr (inl e)
protocol_state-cases authenticating n a = inr (inl a)
protocol_state-cases authenticated n a = inr (inr a)
protocol_state-cases working n a = inr (inr a)
protocol_state-cases destroying n a = absurd a
protocol_state-cases destroyed n a = elim (Bool-cases (n == 1)) [
  | inl e ↦ inl (ground arith)
  | inr e ↦ elim (Bool-cases (n == 2)) [
    | inl e' ↦ inr (inl (ground arith))
    | inr e' ↦ inr (inr (ground arith))
  ]
]

found-IsSound :
    (id : ℕ) (cs : List ClientHandle) (c : ClientHandle)
    → All IsSound (cores cs)
    → find_client id cs ≡ some c
    → IsSound (core c)
unfolding find_client
found-IsSound id [] c h found = cc
found-IsSound id (c' ∷ cs) c (h, hs) found = elim (find_client-cases id c' cs c found) [
  | inl (e, same) ↦ subst (λ x. IsSound (core x)) same h
  | inr (e, rest) ↦ found-IsSound id cs c hs rest
]

pub handle_packet-Reaches :
    (now id type : ℕ) (bb : ByteBuffer) (s : Server)
    → IsOrderly (roll s)
    → Reaches (roll s) (roll (handle_packet now id type (bb, s)).1.1)
unfolding handle_packet
handle_packet-Reaches now id type bb s o = elim (Option-cases (find_client id s.clients)) [
  | inl e ↦ rw (e, handle_packet) stays
  | inr (c, e) ↦
      rw (e, handle_packet)
        (elim (protocol_state-cases c.state c.protocol.state
          (found-IsSound id s.clients c o.sound e)) [
            | inl one ↦
                subst (λ n. Reaches (roll s) (roll (dispatch n now id type (bb, s)).1.1)) (sym one)
                  (dispatch_status now id type bb s c e one)
            | inr (inl two) ↦
                subst (λ n. Reaches (roll s) (roll (dispatch n now id type (bb, s)).1.1)) (sym two)
                  (dispatch_login now id type bb s c e two)
            | inr (inr three) ↦
                subst (λ n. Reaches (roll s) (roll (dispatch n now id type (bb, s)).1.1))
                  (sym three) (dispatch_working now id type bb s)
          ])
]
