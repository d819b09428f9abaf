-- ===== src/Server/Events.antt =====
-- What reaches the server: connections, bytes, ticks, the authenticator's thread and closed links
-- (Src/Server/Server.cpp, Src/Server/ClientHandle.cpp and Src/Server/Protocol/Authenticator.cpp). Each is
-- one step, as if it held the server's lock throughout.
use p2pchat.Prelude.{ℕ, ◌==◌, Bool, none, some, List, [], ◌∷◌, map, is_nil, if◌then◌else◌, pos}
use p2pchat.Outcome.{Outcome, ok, Reader, ◌>>◌, modify}
use p2pchat.IniFile.{AString, str_eq, tolower}
use p2pchat.ByteBuffer.{ByteBuffer}
use p2pchat.Framing.{aside, add_received_data}
use p2pchat.Session.{rank, ClientHandle}
use p2pchat.Session.Sending.{packet_buffer_full, packet_error, on_received_data, end_tick}
use p2pchat.Server.{
  User, Server, find_client, on_client, kick_user, authenticate_user, destroy,
  on_connection_accepted,
}
use p2pchat.Server.Handlers.{handle_packet}

-- `m_ReceivedData` of a client.
abbrev pub set_received_data : ByteBuffer → ClientHandle → ClientHandle
set_received_data b c = record c { protocol = record c.protocol { received_data = b } }

-- The buffer goes back into the client.
abbrev pub keep_received :
    ℕ → Outcome (Unit {0}) × (ByteBuffer × Server) → Outcome (Unit {0}) × Server
keep_received id (r, (b, s)) = (r, (on_client id (modify (set_received_data b)) s).1)

-- `m_Clients.erase`.
unfoldable pub erase_client : ℕ → List ClientHandle → List ClientHandle
erase_client id [] = []
erase_client id (c ∷ cs) =
    let rest = erase_client id cs in if c.unique_id == id then cs else c ∷ rest

-- `fresh n` is the memory that `new char[n]` gives.
module _ (fresh : ℕ → List ℕ) where
  -- `DataReceived` of a client at a time.
  unfoldable pub data_received : ℕ → ℕ → AString → Reader Server (Unit {0})
  data_received now id bytes s = elim (find_client id s.clients) [
    | none ↦ (ok tt, s)
    | some c ↦ keep_received id (
        add_received_data fresh (λ type. aside (handle_packet now id type))
          (λ type. on_client id packet_error) (on_client id packet_buffer_full) bytes
          (c.protocol.received_data, s))
  ]

  -- The swapped-out `m_IncomingData` of `ServerTick`.
  unfoldable pub process_incoming : ℕ → ClientHandle → Reader Server (Unit {0})
  process_incoming now c =
      on_client c.unique_id (modify (λ c'. record c' { incoming_data = [] }))
      >> (if is_nil c.incoming_data
          then modify (λ s. s)
          else data_received now c.unique_id c.incoming_data)

  unfoldable pub server_tick : ℕ → ClientHandle → Reader Server (Unit {0})
  server_tick now c = process_incoming now c >> on_client c.unique_id (end_tick now)

  unfoldable pub tick_one : ℕ → ℕ → Reader Server (Unit {0})
  tick_one now id s = elim (find_client id s.clients) [
    | none ↦ (ok tt, s)
    | some c ↦
        let erased : Outcome (Unit {0}) × Server =
          (ok tt, record s { clients = erase_client id s.clients }) in
        let ticked = server_tick now c s in if rank c.state == 5 then erased else ticked
  ]

  -- The loop of `TickClients`, over the numbers of the clients: a tick neither adds nor removes one.
  unfoldable pub tick_loop : ℕ → List ℕ → Reader Server (Unit {0})
  tick_loop now [] = modify (λ s. s)
  tick_loop now (id ∷ ids) = tick_one now id >> tick_loop now ids

  unfoldable pub tick_clients : ℕ → Reader Server (Unit {0})
  tick_clients now s = tick_loop now (map (λ c. c.unique_id) s.clients) s

-- `md5` is `MD5::toString` of a text.
module _ (md5 : AString → AString) where
  -- `AuthFromDBPoll`.
  unfoldable pub auth_from_db_poll : User → Bool
  auth_from_db_poll u = str_eq (map tolower (md5 u.username)) u.password

  -- The rest of a round of `cAuthenticator::Execute`, for the user that was taken out. `false` is the code
  -- 0, an account that does not match.
  unfoldable pub answer_user : ℕ → User → Reader Server (Unit {0})
  answer_user now u =
      if auth_from_db_poll u
      then authenticate_user now u.client_id u.username
      else kick_user u.client_id (pos 0)

  -- A round; with an empty queue the thread waits.
  unfoldable pub execute_round : ℕ → Reader Server (Unit {0})
  execute_round now s = elim s.queue [
    | [] ↦ (ok tt, s)
    | u ∷ us ↦ answer_user now u (record s { queue = us })
  ]

pub data Event : Type 0 where
  accepts : AString → Event
  receives : ℕ → AString → Event
  ticks : Event
  authenticates : Event
  closes : ℕ → Event

module _ (fresh : ℕ → List ℕ) (md5 : AString → AString) where
  -- An event at a time.
  unfoldable pub step : ℕ × Event → Reader Server (Unit {0})
  step (now, accepts ip) = on_connection_accepted fresh now ip
  step (now, receives id bytes) = on_client id (modify (on_received_data bytes))
  step (now, ticks) = tick_clients fresh now
  step (now, authenticates) = execute_round md5 now
  step (now, closes id) = destroy id

  unfoldable pub run : List (ℕ × Event) → Reader Server (Unit {0})
  run [] = modify (λ s. s)
  run (e ∷ es) = step e >> run es

-- A server that has just started.
abbrev pub start : Server
start = record { clients = []; client_count = 0; queue = [] }
