-- ===== src/Server/Sessions/Refines.antt =====
-- Every call of the server moves the sessions as the step relation says (Src/Server/Server.cpp,
-- Src/Server/ClientHandle.cpp, Src/Server/Protocol/cProtocol_impl.cpp).
use p2pchat.Prelude.{
  ℕ, suc, ◌≡◌, refl, sym, ◌∙◌, ap, subst, Bool, true, false, ◌==◌, some, inl, inr, ◌⊎◌, ◌||◌, ◌+◌,
  List, [], ◌∷◌, ◌++◌, ℤ, Bool-cases, Option-cases, if◌then◌else◌, leb, ltb, ltb→lt, ◌^◌,
}
use p2pchat.Outcome.{Outcome, ok, fail, undefined, exited, stuck, Reader, ◌>>◌, continue, modify}
use p2pchat.IniFile.{AString, str_eq}
use p2pchat.IniFile.Assoc.{str_eq_refl}
use p2pchat.Session.{
  ClientHandle, destroyed, authenticating, rank, authenticated, new_client, new_protocol, packet,
}
use p2pchat.Session.Cores.{Core, core, Same, packet-Same, send_disconnect-Same, rank-authenticating}
use p2pchat.Session.Sending.{kick, already_login, send_login_success, set_protocol_state}
use p2pchat.Server.{
  Server, find_client, first_with, each_with, on_client, kick_user, is_player_in_queue,
  broadcast_user_info, let_in, authenticate_client, authenticate_user, destroy_now, destroy,
  on_connection_accepted,
}
use p2pchat.Server.Sessions.{
  roll, IsFree, Move, is_named, is_let_in, is_destroyed, Reaches, stays, moves, joins,
  Reaches-trans,
}
use p2pchat.Server.Clients.{
  cores, first_with-Same, each_with-Same, first_with-none, first_with-Change, broadcast-same,
  found-unique_id,
}

abbrev pub Refines : Reader Server (Unit {0}) → Type 0
Refines call = (s : Server) → Reaches (roll s) (roll (call s).1)

pub same-Reaches :
    (s : Server) (cs : List ClientHandle)
    → cores cs ≡ cores s.clients
    → Reaches (roll s) (record { count = s.client_count; cores = cores cs })
same-Reaches s cs e =
    subst (λ ks. Reaches (roll s) (record { count = s.client_count; cores = ks })) (sym e) stays

pub continue-Refines :
    (s : Server) (r : Outcome (Unit {0}) × Server) (k : Reader Server (Unit {0}))
    → Reaches (roll s) (roll r.1)
    → Refines k
    → Reaches (roll s) (roll (continue r (λ _. k)).1)
continue-Refines s (ok _, s') k h g = Reaches-trans (roll s) (roll s') (roll (k s').1) h (g s')
continue-Refines s (fail, s') k h g = h
continue-Refines s (undefined, s') k h g = h
continue-Refines s (exited, s') k h g = h
continue-Refines s (stuck, s') k h g = h

pub seq-Refines : (m k : Reader Server (Unit {0})) → Refines m → Refines k → Refines (m >> k)
seq-Refines m k h g s = continue-Refines s (m s) k (h s) g

pub on_client-Refines :
    (id : ℕ) (call : Reader ClientHandle (Unit {0})) → Same call → Refines (on_client id call)
on_client-Refines id call same s =
    same-Reaches s (first_with id call s.clients).1 (first_with-Same id call s.clients same)

-- A call that moves the client that it finds.
pub on_client-moves :
    (id : ℕ) (call : Reader ClientHandle (Unit {0})) (s : Server) (c : ClientHandle)
    → find_client id s.clients ≡ some c
    → Move (cores s.clients) (core c) (core (call c).1)
    → Reaches (roll s) (roll (on_client id call s).1)
on_client-moves id call s c found m =
    moves (roll s) (cores (first_with id call s.clients).1) stays
      (first_with-Change (cores s.clients) id call s.clients c found m)

pub kick_user-Refines : (id : ℕ) (reason : ℤ) → Refines (kick_user id reason)
unfolding kick_user kick
kick_user-Refines id reason s =
    same-Reaches s (each_with id (kick reason) s.clients).1
      (each_with-Same id (kick reason) s.clients (send_disconnect-Same reason))

broadcast_user_info-Refines : (id : ℕ) → Refines (broadcast_user_info id)
unfolding broadcast_user_info
broadcast_user_info-Refines id s = elim (Option-cases (find_client id s.clients)) [
  | inl e ↦ rw (e, broadcast_user_info) stays
  | inr (who, e) ↦
      rw (e, broadcast_user_info) (same-Reaches s _ (broadcast-same id s.clients who e))
]

-- Every client that may be found is moved.
pub on_client-always :
    (id : ℕ) (call : Reader ClientHandle (Unit {0}))
    → ((all : List Core) (c : ClientHandle) → Move all (core c) (core (call c).1))
    → Refines (on_client id call)
on_client-always id call always s = elim (Option-cases (find_client id s.clients)) [
  | inl e ↦
      same-Reaches s (first_with id call s.clients).1
        (ap cores (first_with-none id call s.clients e))
  | inr (c, e) ↦ on_client-moves id call s c e (always (cores s.clients) c)
]

destroy_now-Refines : (id : ℕ) → Refines (destroy_now id)
unfolding destroy_now
destroy_now-Refines id =
    seq-Refines (on_client id (modify (λ c. record c { state = destroyed })))
      (broadcast_user_info id)
      (on_client-always id (modify (λ c. record c { state = destroyed }))
        (λ all c. is_destroyed (core c)))
      (broadcast_user_info-Refines id)

unless_destroyed : (b : Bool) (id : ℕ) → Refines (if b then modify (λ s'. s') else destroy_now id)
unless_destroyed true id s = stays
unless_destroyed false id s = destroy_now-Refines id s

pub destroy-Refines : (id : ℕ) → Refines (destroy id)
unfolding destroy
destroy-Refines id s = elim (Option-cases (find_client id s.clients)) [
  | inl e ↦ rw (e, destroy) stays
  | inr (c, e) ↦
      rw (e, destroy)
        (seq-Refines (on_client id (modify (λ c'. record c' { has_link = false })))
          (if leb 4 (rank c.state) then modify (λ s'. s') else destroy_now id)
          (on_client-Refines id (modify (λ c'. record c' { has_link = false })) (λ c'. refl))
          (unless_destroyed (leb 4 (rank c.state)) id) s)
]

map-append : (cs ds : List ClientHandle) → cores (cs ++ ds) ≡ cores cs ++ cores ds
map-append [] ds = refl
map-append (c ∷ cs) ds = ap (λ ks. core c ∷ ks) (map-append cs ds)

pub on_connection_accepted-Reaches :
    (fresh : ℕ → List ℕ) (now : ℕ) (ip : AString) (s : Server)
    → Reaches (roll s) (roll (on_connection_accepted fresh now ip s).1)
unfolding on_connection_accepted new_client new_protocol
on_connection_accepted-Reaches fresh now ip s =
    elim (Bool-cases (ltb (suc s.client_count) (2 ^ 31))) [
      | inl e ↦
          rw (e, map-append s.clients (new_client fresh now ip (suc s.client_count) ∷ []))
            (joins (roll s) stays (ltb→lt _ _ e))
      | inr e ↦ rw e stays
    ]

true≢false : true ≡ false → ⊥
true≢false e = cc

-- A name that is not in the queue is free.
in_queue-IsFree :
    (name : AString) (cs : List ClientHandle)
    → is_player_in_queue name cs ≡ false
    → IsFree name (cores cs)
unfolding is_player_in_queue
in_queue-IsFree name [] e = tt
in_queue-IsFree name (c ∷ cs) e = elim (Bool-cases (str_eq c.username name)) [
  | inl hit ↦ absurd (true≢false (subst (λ b. (b || is_player_in_queue name cs) ≡ false) hit e))
  | inr miss ↦ (
    λ eq. true≢false (sym (subst (λ u. str_eq u name ≡ true) (sym eq) (str_eq_refl name)) ∙ miss),
    in_queue-IsFree name cs (subst (λ b. (b || is_player_in_queue name cs) ≡ false) miss e),
  )
]

abbrev let_in_of : Core → Core
let_in_of k = record k { state = authenticated; protocol_state = 3 }

let_in_core :
    (r : Outcome (Unit {0}) × ClientHandle)
    → (core
          (continue
            (continue r (λ _. modify (set_protocol_state 3)))
            (λ _. modify (λ c. record c { state = authenticated }))).1
        ≡ core r.1)
      ⊎ (core
            (continue
              (continue r (λ _. modify (set_protocol_state 3)))
              (λ _. modify (λ c. record c { state = authenticated }))).1
          ≡ let_in_of (core r.1))
let_in_core (ok _, c) = inr refl
let_in_core (fail, c) = inl refl
let_in_core (undefined, c) = inl refl
let_in_core (exited, c) = inl refl
let_in_core (stuck, c) = inl refl

let_in-Reaches :
    (now id : ℕ) (name : AString) (s : Server) (c : ClientHandle)
    → find_client id s.clients ≡ some c
    → c.state ≡ authenticating
    → IsFree name (cores s.clients)
    → Reaches (roll s) (roll (let_in now id name s).1)
unfolding let_in send_login_success
let_in-Reaches now id name s c found waits free =
    let named : ClientHandle = record c { username = name } in
    let call : Reader ClientHandle (Unit {0}) =
      modify (λ c. record c { username = name })
      >> send_login_success
      >> modify (λ c. record c { state = authenticated }) in
    let same = packet-Same 0x01 [] named in
    let move : Move (cores s.clients) (core c) (core (call c).1) =
      elim (let_in_core (packet 0x01 [] named)) [
        | inl e ↦
            subst (λ k. Move (cores s.clients) (core c) k) (sym (e ∙ same))
              (is_named (core c) name waits free)
        | inr e ↦
            subst (λ k. Move (cores s.clients) (core c) k) (sym (e ∙ ap let_in_of same))
              (is_let_in (core c) name waits free)
      ] in
    continue-Refines s _ (on_client id (modify (λ c. record c { ping_start_time = now + 3000 })))
      (continue-Refines s _ (broadcast_user_info id) (on_client-moves id call s c found move)
        (broadcast_user_info-Refines id))
      (on_client-Refines id (modify (λ c. record c { ping_start_time = now + 3000 })) (λ c. refl))

authenticate_client-Reaches :
    (now : ℕ) (c : ClientHandle) (name : AString) (s : Server)
    → find_client c.unique_id s.clients ≡ some c
    → Reaches (roll s) (roll (authenticate_client now c name s).1)
unfolding authenticate_client kick
authenticate_client-Reaches now c name s found =
    elim (Bool-cases (rank c.state == rank authenticating)) [
      | inl e ↦ elim (Bool-cases (is_player_in_queue name s.clients)) [
        | inl taken ↦
            rw (e, taken)
              (on_client-Refines c.unique_id (kick already_login)
                (send_disconnect-Same already_login) s)
        | inr free ↦
            rw (e, free)
              (let_in-Reaches now c.unique_id name s c found (rank-authenticating c.state e)
                (in_queue-IsFree name s.clients free))
      ]
      | inr e ↦ rw e stays
    ]

pub authenticate_user-Refines :
    (now id : ℕ) (name : AString) → Refines (authenticate_user now id name)
unfolding authenticate_user
authenticate_user-Refines now id name s = elim (Option-cases (find_client id s.clients)) [
  | inl e ↦ rw (e, authenticate_user) stays
  | inr (c, e) ↦
      rw (e, authenticate_user)
        (authenticate_client-Reaches now c name s (
          subst (λ n. find_client n s.clients ≡ some c) (sym (found-unique_id id s.clients c e)) e))
]
