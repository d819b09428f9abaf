-- ===== src/Server/Tests.antt =====
-- The theorems on the server at concrete clients.
use p2pchat.Prelude.{
  ℕ, ◌≡◌, refl, sym, append-nil, get_or, ap, [], ◌∷◌, length, map, arith, List, zero, suc,
  replicate, inr,
}
use p2pchat.Outcome.{ok, undefined, modify}
use p2pchat.IniFile.{AString}
use p2pchat.ByteBuffer.{ByteBuffer}
use p2pchat.ByteBuffer.VarInt.Groups.{groups}
use p2pchat.Framing.Frames.{Waits}
use p2pchat.Framing.Stream.{frames}
use p2pchat.Framing.Short.{IsPartial}
use p2pchat.Session.{ClientHandle, working, new_client, new_protocol, var_int32, string}
use p2pchat.Session.Packets.{IsReady, payload, frame}
use p2pchat.Session.Sent.{IsFit}
use p2pchat.Session.Fresh.{new_protocol-out, new_protocol-len, new_protocol-Waits}
use p2pchat.Server.{
  Server, find_client, on_client, server_forward_media_msg, broadcast_user_info,
  on_connection_accepted,
}
use p2pchat.Server.Delivery.Broadcast.{Broadcast, broadcast_user_info_lem}
use p2pchat.Server.Events.{
  Event, accepts, receives, ticks, authenticates, closes, run, start, data_received,
  set_received_data,
}
use p2pchat.Server.Forward.{Forwarded, server_forward_media_msg-Forwarded}
use p2pchat.Server.Served.{AreFit}
use p2pchat.Server.Served.Rounds.{rounds-Drained}
use p2pchat.Server.Sessions.{roll, Reaches, IsOrderly}
use p2pchat.Server.Sessions.Runs.{run-Reaches, run-IsOrderly}
use p2pchat.Server.Stream.Received.{data_received-requests}
use p2pchat.Server.Stream.{Request, keep_alive, media_msg, request_packet, serve_all}

-- Memory that is all zero.
abbrev zeros : ℕ → List ℕ
zeros n = replicate n 0

length-zeros : (n : ℕ) → length (zeros n) ≡ n
length-zeros zero = refl
length-zeros (suc n) = ap suc (length-zeros n)

-- A digest for the tests.
abbrev digest : AString → AString
digest s = 53 ∷ s

-- Two clients that work.
abbrev alice : ClientHandle
alice = record (new_client zeros 0 (49 ∷ []) 1) {
  username = 97 ∷ [];
  protocol = record (new_protocol zeros) { state = 3 };
  state = working;
  unique_id = 1;
}

abbrev bob : ClientHandle
bob = record (new_client zeros 0 (50 ∷ []) 2) {
  username = 98 ∷ [];
  protocol = record (new_protocol zeros) { state = 3 };
  state = working;
  unique_id = 2;
}

alice-IsReady : IsReady alice
alice-IsReady = record {
  out = new_protocol-out zeros length-zeros;
  len = new_protocol-len zeros length-zeros;
}

alice-IsFit : IsFit alice
alice-IsFit = record { ready = alice-IsReady; named = omega arith; numbered = omega arith }

bob-IsReady : IsReady bob
bob-IsReady = record {
  out = new_protocol-out zeros length-zeros;
  len = new_protocol-len zeros length-zeros;
}

bob-IsFit : IsFit bob
bob-IsFit = record { ready = bob-IsReady; named = omega arith; numbered = omega arith }

-- A server with both, and a user who waits.
abbrev chat : Server
chat = record {
  clients = alice ∷ bob ∷ [];
  client_count = 2;
  queue = record { client_id = 2; username = 99 ∷ []; password = 53 ∷ 99 ∷ [] } ∷ [];
}

chat-AreFit : AreFit chat
chat-AreFit = record { clients = (alice-IsFit, (bob-IsFit, tt)); queue = (omega arith, tt) }

chat-IsOrderly : IsOrderly (roll chat)
chat-IsOrderly = record {
  sound = (refl, (refl, tt));
  named_apart = ((inr (λ e. omega (arith, ap (λ s. get_or s 0 0) e)), tt), (tt, tt));
  rising = (omega arith, (omega arith, tt), (omega arith, tt, tt));
  counted = omega arith;
}

-- A connection, bytes that come on it, and a tick that takes them in.
abbrev events : List (ℕ × Event)
events =
    (0, accepts (49 ∷ []))
    ∷ (5, receives 1 (2 ∷ 1 ∷ 1 ∷ []))
    ∷ (50, ticks)
    ∷ (60, authenticates)
    ∷ (70, closes 1)
    ∷ (100, ticks)
    ∷ []

-- The greatest number has been given.
abbrev full_count : Server
full_count = record start { client_count = 2147483647 }

accept_overflow : on_connection_accepted zeros 0 [] full_count ≡ (undefined, full_count)
unfolding on_connection_accepted
accept_overflow = refl

run-IsOrderly_example : IsOrderly (roll (run zeros digest events start).1)
run-IsOrderly_example = run-IsOrderly zeros digest events

run-Reaches_example : Reaches (roll chat) (roll (run zeros digest events chat).1)
run-Reaches_example = run-Reaches zeros digest events chat chat-IsOrderly

rounds-Drained_example :
    ((run zeros digest (replicate (length chat.queue) (9, authenticates)) chat).0 ≡ ok tt)
    × ((run zeros digest (replicate (length chat.queue) (9, authenticates)) chat).1.queue ≡ [])
rounds-Drained_example = rounds-Drained zeros digest chat.queue 9 chat chat-AreFit refl

broadcast_user_info_lem_example : Broadcast 1 alice chat (broadcast_user_info 1 chat)
unfolding find_client
broadcast_user_info_lem_example =
    broadcast_user_info_lem 1 chat alice refl (alice-IsFit, (bob-IsFit, tt))

server_forward_media_msg-Forwarded_example :
    Forwarded 2
      (frame (payload 0x12 (var_int32 1 ∷ string (104 ∷ 105 ∷ []) ∷ [])))
      bob
      chat
      (server_forward_media_msg 2 1 (104 ∷ 105 ∷ []) chat)
unfolding find_client
server_forward_media_msg-Forwarded_example =
    server_forward_media_msg-Forwarded 2 1 (104 ∷ 105 ∷ []) chat bob refl bob-IsReady (omega arith)
      (omega arith)

-- Alice answers a ping and writes to Bob; the first byte of a third packet comes along.
abbrev requests : List Request
requests = keep_alive 5 ∷ media_msg 2 (104 ∷ 105 ∷ []) ∷ []

third : IsPartial []
unfolding groups
third = record { packet = []; next = 0; missing = []; short = omega arith; whole = refl }

data_received-requests_example :
    (left : ByteBuffer) × Waits 65536 [] left
    × (data_received zeros 9 1 (frames (map request_packet requests)) chat
        ≡ (ok tt, (on_client 1 (modify (set_received_data left)) (serve_all 9 1 requests chat)).1))
unfolding find_client groups
data_received-requests_example =
    data_received-requests zeros 9 1 requests [] (frames (map request_packet requests)) [] chat
      alice length-zeros refl refl (omega arith) chat-AreFit
      (omega arith, ((omega arith, omega arith), tt)) (new_protocol-Waits zeros length-zeros) third
      (sym (append-nil (frames (map request_packet requests)))) (omega arith)
