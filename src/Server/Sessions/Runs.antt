-- ===== src/Server/Sessions/Runs.antt =====
-- Every run of the server moves the sessions as the step relation says, so that what is orderly stays so
-- (Src/Server/Server.cpp, Src/Server/ClientHandle.cpp and Src/Server/Protocol/Authenticator.cpp).
use p2pchat.Prelude.{
  ℕ, ◌≡◌, refl, sym, subst, Bool, true, false, ◌==◌, some, inl, inr, ◌⊎◌, List, [], ◌∷◌, map, pos,
  Bool-cases, Option-cases, if◌then◌else◌, is_nil, arith,
}
use p2pchat.Outcome.{Outcome, ok, fail, undefined, exited, stuck, Reader, ◌>>◌, continue, modify}
use p2pchat.IniFile.{AString}
use p2pchat.ByteBuffer.{ByteBuffer}
use p2pchat.Framing.{aside, add_received_data}
use p2pchat.Framing.Keeps.{add_received_data-keeps}
use p2pchat.Session.{rank, ClientHandle}
use p2pchat.Session.Cores.{Core, core, Same, send_disconnect-Same, end_tick-core}
use p2pchat.Session.Sending.{packet_error, packet_buffer_full, end_tick, on_received_data}
use p2pchat.Server.{User, Server, find_client, on_client}
use p2pchat.Server.Handlers.{handle_packet}
use p2pchat.Server.Events.{
  set_received_data, keep_received, data_received, process_incoming, server_tick, erase_client,
  tick_one, tick_loop, tick_clients, answer_user, execute_round, auth_from_db_poll, Event, accepts,
  receives, ticks, authenticates, closes, step, run, start,
}
use p2pchat.Server.Clients.{cores, find_client-cases}
use p2pchat.Server.Sessions.{
  roll, Move, rests, begins, Removed, this, later, Reaches, stays, loses, Reaches-trans, IsOrderly,
}
use p2pchat.Server.Sessions.Orderly.{Reaches-IsOrderly}
use p2pchat.Server.Sessions.Turns.{handle_packet-Reaches}
use p2pchat.Server.Sessions.Refines.{
  Refines, on_client-Refines, on_client-always, kick_user-Refines, destroy-Refines,
  on_connection_accepted-Reaches, authenticate_user-Refines,
}

keep_received-Reaches :
    (s : Server) (id : ℕ) (r : Outcome (Unit {0}) × (ByteBuffer × Server))
    → Reaches (roll s) (roll r.1.1)
    → Reaches (roll s) (roll (keep_received id r).1)
keep_received-Reaches s id (r, (b, s')) h =
    Reaches-trans (roll s) (roll s') _ h
      (on_client-Refines id (modify (set_received_data b)) (λ c. refl) s')

-- A call that needs an orderly roll.
Careful : Reader Server (Unit {0}) → Type 0
Careful call = (s : Server) → IsOrderly (roll s) → Reaches (roll s) (roll (call s).1)

continue-Careful :
    (s : Server) (r : Outcome (Unit {0}) × Server) (k : Reader Server (Unit {0}))
    → IsOrderly (roll s)
    → Reaches (roll s) (roll r.1)
    → Careful k
    → Reaches (roll s) (roll (continue r (λ _. k)).1)
unfolding Careful
continue-Careful s (ok _, s') k o h g =
    Reaches-trans (roll s) (roll s') (roll (k s').1) h
      (g s' (Reaches-IsOrderly (roll s) (roll s') o h))
continue-Careful s (fail, s') k o h g = h
continue-Careful s (undefined, s') k o h g = h
continue-Careful s (exited, s') k o h g = h
continue-Careful s (stuck, s') k o h g = h

seq-Careful : (m k : Reader Server (Unit {0})) → Careful m → Careful k → Careful (m >> k)
unfolding Careful
seq-Careful m k h g s o = continue-Careful s (m s) k o (h s o) g

end_tick-Move :
    (now : ℕ) (all : List Core) (c : ClientHandle) → Move all (core c) (core (end_tick now c).1)
end_tick-Move now all c = elim (end_tick-core now c) [
  | inl e ↦ subst (λ k. Move all (core c) k) (sym e) (rests (core c))
  | inr (let_in, e) ↦ subst (λ k. Move all (core c) k) (sym e) (begins (core c) let_in)
]

erase_client-Removed :
    (id : ℕ) (cs : List ClientHandle) (c : ClientHandle)
    → find_client id cs ≡ some c
    → Removed (cores cs) (cores (erase_client id cs))
unfolding erase_client find_client
erase_client-Removed id [] c found = cc
erase_client-Removed id (c' ∷ cs) c found = elim (find_client-cases id c' cs c found) [
  | inl (e, same) ↦ rw e (this _ _)
  | inr (e, rest) ↦ rw e (later _ _ _ (erase_client-Removed id cs c rest))
]

queue_cases : (us : List User) → (us ≡ []) ⊎ ((v : User) × (vs : List User) × (us ≡ v ∷ vs))
queue_cases [] = inl refl
queue_cases (v ∷ vs) = inr (v, vs, refl)

module _ (fresh : ℕ → List ℕ) where
  -- Bytes that have arrived.
  data_received-Reaches :
      (now id : ℕ) (bytes : AString) (s : Server)
      → IsOrderly (roll s)
      → Reaches (roll s) (roll (data_received fresh now id bytes s).1)
  unfolding data_received packet_error packet_buffer_full aside
  data_received-Reaches now id bytes s o = elim (Option-cases (find_client id s.clients)) [
    | inl e ↦ rw (e, data_received) stays
    | inr (c, e) ↦
        rw (e, data_received)
          (keep_received-Reaches s id
            (add_received_data fresh (λ type. aside (handle_packet now id type))
              (λ type. on_client id packet_error) (on_client id packet_buffer_full) bytes
              (c.protocol.received_data, s))
            (add_received_data-keeps fresh (λ type. aside (handle_packet now id type))
              (λ type. on_client id packet_error) (λ w. Reaches (roll s) (roll w))
              (λ type bb b w h.
                Reaches-trans (roll s) (roll w) _ h (
                  handle_packet-Reaches now id type bb w (Reaches-IsOrderly (roll s) (roll w) o h)))
              (λ type w h.
                Reaches-trans (roll s) (roll w) _ h
                  (on_client-Refines id packet_error (send_disconnect-Same _) w))
              (on_client id packet_buffer_full) bytes c.protocol.received_data s stays
              (on_client-Refines id packet_buffer_full (send_disconnect-Same _) s)))
  ]

  unless_empty :
      (b : Bool) (now id : ℕ) (bytes : AString)
      → Careful (if b then modify (λ s. s) else data_received fresh now id bytes)
  unfolding Careful
  unless_empty true now id bytes s o = stays
  unless_empty false now id bytes s o = data_received-Reaches now id bytes s o

  process_incoming-Careful : (now : ℕ) (c : ClientHandle) → Careful (process_incoming fresh now c)
  unfolding process_incoming Careful
  process_incoming-Careful now c s o =
      continue-Careful s _ _ o
        (on_client-Refines c.unique_id (modify (λ c'. record c' { incoming_data = [] }))
          (λ c'. refl) s)
        (unless_empty (is_nil c.incoming_data) now c.unique_id c.incoming_data)

  server_tick-Careful : (now : ℕ) (c : ClientHandle) → Careful (server_tick fresh now c)
  unfolding server_tick Careful
  server_tick-Careful now c s o =
      continue-Careful s _ _ o (process_incoming-Careful now c s o)
        (λ s' o'. on_client-always c.unique_id (end_tick now) (end_tick-Move now) s')

  tick_one-Careful : (now id : ℕ) → Careful (tick_one fresh now id)
  unfolding tick_one Careful
  tick_one-Careful now id s o = elim (Option-cases (find_client id s.clients)) [
    | inl e ↦ rw (e, tick_one) stays
    | inr (c, e) ↦ elim (Bool-cases (rank c.state == 5)) [
      | inl gone ↦
          rw (e, gone, tick_one) (loses (roll s) _ stays (erase_client-Removed id s.clients c e))
      | inr there ↦ rw (e, there, tick_one) (server_tick-Careful now c s o)
    ]
  ]

  tick_loop-Careful : (now : ℕ) (ids : List ℕ) → Careful (tick_loop fresh now ids)
  unfolding tick_loop Careful
  tick_loop-Careful now [] s o = stays
  tick_loop-Careful now (id ∷ ids) s o =
      continue-Careful s _ _ o (tick_one-Careful now id s o) (tick_loop-Careful now ids)

module _ (md5 : AString → AString) where
  answer_user-Refines : (now : ℕ) (u : User) → Refines (answer_user md5 now u)
  unfolding answer_user
  answer_user-Refines now u s = elim (Bool-cases (auth_from_db_poll md5 u)) [
    | inl e ↦ rw e (authenticate_user-Refines now u.client_id u.username s)
    | inr e ↦ rw e (kick_user-Refines u.client_id (pos 0) s)
  ]

  execute_round-Refines : (now : ℕ) → Refines (execute_round md5 now)
  unfolding execute_round
  execute_round-Refines now s = elim (queue_cases s.queue) [
    | inl e ↦ rw (e, execute_round) stays
    | inr (u, us, e) ↦ rw (e, execute_round) (answer_user-Refines now u (record s { queue = us }))
  ]

received-Same : (bytes : AString) → Same (modify (on_received_data bytes))
unfolding on_received_data
received-Same bytes c = refl

module _ (fresh : ℕ → List ℕ) (md5 : AString → AString) where
  step-Careful : (e : ℕ × Event) → Careful (step fresh md5 e)
  unfolding step tick_clients Careful
  step-Careful (now, accepts ip) s o = on_connection_accepted-Reaches fresh now ip s
  step-Careful (now, receives id bytes) s o =
      on_client-Refines id (modify (on_received_data bytes)) (received-Same bytes) s
  step-Careful (now, ticks) s o = tick_loop-Careful fresh now (map (λ c. c.unique_id) s.clients) s o
  step-Careful (now, authenticates) s o = execute_round-Refines md5 now s
  step-Careful (now, closes id) s o = destroy-Refines id s

  -- Whatever reaches an orderly server, in any order and wherever it is cut short, moves its sessions
  -- by steps of the relation: a status request in the protocol's state 1, a login in 2, a free name
  -- and then the working protocol for a client that is authenticating, the start of an authenticated
  -- client, a destruction, a newcomer with the next number, which is below 2^31, and a client that is taken out.
  pub run-Reaches :
      (es : List (ℕ × Event)) (s : Server)
      → IsOrderly (roll s)
      → Reaches (roll s) (roll (run fresh md5 es s).1)
  unfolding run Careful
  run-Reaches [] s o = stays
  run-Reaches (e ∷ es) s o = continue-Careful s _ _ o (step-Careful e s o) (run-Reaches es)

  -- After every sequence of connections, received bytes, ticks, rounds of the authenticator and closed
  -- links, from a server that has just started, and wherever the sequence is cut short: each client's
  -- state and its protocol's agree (connected with 1 or 2, authenticating with 2, authenticated and
  -- working with 3, destroyed with 1 to 3, and none is destroying or ignores its packets), no two
  -- clients share a name but the empty one, and the clients' numbers rise in the list and none is
  -- above the count of clients, which is below 2^31.
  pub run-IsOrderly : (es : List (ℕ × Event)) → IsOrderly (roll (run fresh md5 es start).1)
  run-IsOrderly es =
      let o : IsOrderly (roll start) = record {
        sound = tt;
        named_apart = tt;
        rising = tt;
        counted = omega arith;
      } in
      Reaches-IsOrderly (roll start) _ o (run-Reaches es start o)
