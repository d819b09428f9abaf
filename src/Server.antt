-- ===== src/Server.antt =====
-- The list of clients of the server, and what is done to one of them or to many
-- (Src/Server/Server.cpp and Src/Server/ClientHandle.cpp). A client is named by its `m_UniqueID`, which
-- stands for the pointer to it.
pub mod Handlers
pub mod Events
pub mod Clients
pub mod Delivery
pub mod Sessions
pub mod Served
pub mod Forward
pub mod Stream
mod Tests
use p2pchat.Prelude.{
  ℕ, zero, suc, ◌+◌, ◌^◌, ltb, ◌==◌, ◌||◌, leb, Bool, true, false, not, Option, none, some, List,
  [], ◌∷◌, ◌++◌, if◌then◌else◌, ℤ,
}
use p2pchat.Outcome.{Outcome, ok, fail, undefined, exited, stuck, Reader, ◌>>◌, modify, resume}
use p2pchat.IniFile.{AString, str_eq}
use p2pchat.Session.{
  State, authenticating, authenticated, destroyed, rank, ClientHandle, new_client,
}
use p2pchat.Session.Sending.{
  send_user_info, forward_media, forward_media_msg, kick, send_login_success, already_login,
}

-- `cUser` of the authenticator's queue (Src/Server/Protocol/Authenticator.h).
pub record User : Type 0 where
  pub client_id : ℕ
  pub username : AString
  pub password : AString

-- `m_Clients`, `s_ClientCount`, and `m_Queue` of the authenticator.
pub record Server : Type 0 where
  pub clients : List ClientHandle
  pub client_count : ℕ
  pub queue : List User

unfoldable pub find_client : ℕ → List ClientHandle → Option ClientHandle
find_client id [] = none
find_client id (c ∷ cs) = let rest = find_client id cs in if c.unique_id == id then some c else rest

abbrev pub and_rest :
    Outcome (Unit {0}) × ClientHandle → List ClientHandle → Outcome (Unit {0}) × List ClientHandle
and_rest (r, c) cs = (r, c ∷ cs)

abbrev pub behind :
    ClientHandle → Outcome (Unit {0}) × List ClientHandle → Outcome (Unit {0}) × List ClientHandle
behind c (r, cs) = (r, c ∷ cs)

-- A call on the first client with the number, as the loops with a `return` make it.
unfoldable pub first_with :
    ℕ → Reader ClientHandle (Unit {0}) → Reader (List ClientHandle) (Unit {0})
first_with id call [] = (ok tt, [])
first_with id call (c ∷ cs) =
    let rest = behind c (first_with id call cs) in
    if c.unique_id == id then and_rest (call c) cs else rest

-- A call on every client with the number.
unfoldable pub each_with :
    ℕ → Reader ClientHandle (Unit {0}) → Reader (List ClientHandle) (Unit {0})
each_with id call [] = (ok tt, [])
each_with id call (c ∷ cs) =
    let rest = each_with id call cs in
    let hit = resume (call c) (λ c'. behind c' rest) (λ c'. c' ∷ cs) in
    if c.unique_id == id then hit else behind c rest

-- A change of the list of clients.
abbrev pub on_clients : Reader (List ClientHandle) (Unit {0}) → Reader Server (Unit {0})
on_clients call s = let (r, cs) = call s.clients in (r, record s { clients = cs })

abbrev pub on_client : ℕ → Reader ClientHandle (Unit {0}) → Reader Server (Unit {0})
on_client id call = on_clients (first_with id call)

unfoldable pub is_player_in_queue : AString → List ClientHandle → Bool
is_player_in_queue name [] = false
is_player_in_queue name (c ∷ cs) = str_eq c.username name || is_player_in_queue name cs

-- `cServer::ForwardMedia` and `cServer::ForwardMediaMsg`.
unfoldable pub server_forward_media : ℕ → ℕ → ℕ → Reader Server (Unit {0})
server_forward_media to_id from_id type = on_client to_id (forward_media from_id type)

unfoldable pub server_forward_media_msg : ℕ → ℕ → AString → Reader Server (Unit {0})
server_forward_media_msg to_id from_id msg = on_client to_id (forward_media_msg from_id msg)

unfoldable pub kick_user : ℕ → ℤ → Reader Server (Unit {0})
kick_user id reason = on_clients (each_with id (kick reason))

-- `IsLoggedIn`.
unfoldable pub is_logged_in : ClientHandle → Bool
is_logged_in c = leb (rank authenticating) (rank c.state)

-- The client that the broadcast is about, and the rest of the list.
abbrev pub Spread : Type 0
Spread = ClientHandle × List ClientHandle

abbrev pub spread_on : ClientHandle → Outcome (Unit {0}) × Spread → Outcome (Unit {0}) × Spread
spread_on c (r, (who, cs)) = (r, (who, c ∷ cs))

-- Behind the packet to another client: that client's packet to `who`, and the rest of the loop.
unfoldable pub answer_back :
    ClientHandle
    → ClientHandle
    → List ClientHandle
    → (ClientHandle → Outcome (Unit {0}) × Spread)
    → Outcome (Unit {0}) × Spread
answer_back who c cs next =
    let told =
      resume (send_user_info c who) (λ who'. spread_on c (next who')) (λ who'. (who', c ∷ cs)) in
    if is_logged_in who then told else spread_on c (next who)

-- The loop of `cServer::BroadcastUserInfo`; `who` itself is passed over in the list.
unfoldable pub broadcast_loop : ClientHandle → List ClientHandle → Outcome (Unit {0}) × Spread
broadcast_loop who [] = (ok tt, (who, []))
broadcast_loop who (c ∷ cs) =
    let skip = spread_on c (broadcast_loop who cs) in
    let told =
      resume (send_user_info who c) (λ c'. answer_back who c' cs (λ who'. broadcast_loop who' cs))
        (λ c'. (who, c' ∷ cs)) in
    if not (c.unique_id == who.unique_id) then told else skip

-- The client goes back to its place.
abbrev pub put_back : Outcome (Unit {0}) × Spread → Outcome (Unit {0}) × List ClientHandle
put_back (r, (who, cs)) = (r, (first_with who.unique_id (modify (λ c. who)) cs).1)

unfoldable pub broadcast_user_info : ℕ → Reader Server (Unit {0})
broadcast_user_info id s = elim (find_client id s.clients) [
  | none ↦ (ok tt, s)
  | some who ↦ on_clients (λ cs. put_back (broadcast_loop who cs)) s
]

-- `cClientHandle::Authenticate` of a client that waits for it, at a time.
unfoldable pub let_in : ℕ → ℕ → AString → Reader Server (Unit {0})
let_in now id name =
    on_client id (
      modify (λ c. record c { username = name })
      >> send_login_success
      >> modify (λ c. record c { state = authenticated }))
    >> broadcast_user_info id
    >> on_client id (modify (λ c. record c { ping_start_time = now + 3000 }))

unfoldable pub authenticate_client : ℕ → ClientHandle → AString → Reader Server (Unit {0})
authenticate_client now c name s =
    let refused = on_client c.unique_id (kick already_login) s in
    let entered = let_in now c.unique_id name s in
    if not (rank c.state == rank authenticating)
    then (ok tt, s)
    else if is_player_in_queue name s.clients
    then refused
    else entered

-- `cServer::AuthenticateUser`.
unfoldable pub authenticate_user : ℕ → ℕ → AString → Reader Server (Unit {0})
authenticate_user now id name s = elim (find_client id s.clients) [
  | none ↦ (ok tt, s)
  | some c ↦ authenticate_client now c name s
]

-- `cClientHandle::Destroy`, of a client that is not destroyed yet.
unfoldable pub destroy_now : ℕ → Reader Server (Unit {0})
destroy_now id =
    on_client id (modify (λ c. record c { state = destroyed })) >> broadcast_user_info id

unfoldable pub destroy : ℕ → Reader Server (Unit {0})
destroy id s = elim (find_client id s.clients) [
  | none ↦ (ok tt, s)
  | some c ↦
      (on_client id (modify (λ c. record c { has_link = false }))
          >> (if leb 4 (rank c.state) then modify (λ s'. s') else destroy_now id))
        s
]

-- `OnConnectionAccepted` at a time. The count is an `int`, and C++ leaves its overflow undefined.
unfoldable pub on_connection_accepted : (ℕ → List ℕ) → ℕ → AString → Reader Server (Unit {0})
on_connection_accepted fresh now ip s =
    let id = suc s.client_count in
    if ltb id (2 ^ 31)
    then (
      ok tt,
      record s { clients = s.clients ++ new_client fresh now ip id ∷ []; client_count = id },
    )
    else (undefined, s)
