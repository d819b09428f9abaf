-- ===== src/Server/Served/Rounds.antt =====
-- The rounds of the authenticator (Src/Server/Protocol/Authenticator.cpp), and the authentication that
-- they end in (Src/Server/ClientHandle.cpp).
use p2pchat.Prelude.{
  ℕ, ◌+◌, ◌≤◌, ◌≡◌, refl, sym, ap, subst, ◌==◌, none, Bool-cases, Option-cases, inl, inr, List, [],
  ◌∷◌, length, length-append, replicate, arith, All, pos,
}
use p2pchat.Outcome.{Outcome, ok, fail, undefined, exited, stuck, Reader, ◌>>◌, continue, modify}
use p2pchat.IniFile.{AString}
use p2pchat.Session.{ClientHandle, rank, authenticating, authenticated, packet}
use p2pchat.Session.Packets.{IsReady, payload, packet-Delivered}
use p2pchat.ByteBuffer.VarInt.Groups.{groups, groups_shape}
use p2pchat.Session.Sent.{Delivered-Sent, IsFit, Sent-IsFit}
use p2pchat.Session.Disconnect.{continue-modify}
use p2pchat.Session.Sending.{
  kick, send_disconnect, send_login_success, set_protocol_state, already_login,
}
use p2pchat.Server.{
  User, Server, find_client, is_player_in_queue, broadcast_user_info, let_in, authenticate_client,
  authenticate_user,
}
use p2pchat.Server.Delivery.Broadcast.{broadcast_user_info_lem}
use p2pchat.Server.Delivery.{Told, none_left, passed, sent, put, found-All}
use p2pchat.Server.Events.{authenticates, answer_user, auth_from_db_poll, execute_round, step, run}
use p2pchat.Server.Served.{
  Suits, AreFit, Serves, continue-Serves, on_client-Serves, send_disconnect-Suits, kick_user-Serves,
}

broadcast_nobody :
    (id : ℕ) (s : Server) → find_client id s.clients ≡ none → broadcast_user_info id s ≡ (ok tt, s)
unfolding broadcast_user_info
broadcast_nobody id s e = rw (e, broadcast_user_info) refl

success_fits : length (payload 0x01 []) ≤ 65536
success_fits = omega (arith, length-append (groups 4 0x01) [], groups_shape 4 0x01 (omega arith))

put-All :
    (id : ℕ) (c : ClientHandle) (cs : List ClientHandle)
    → IsFit c
    → All IsFit cs
    → All IsFit (put id c cs)
put-All id c [] h fits = tt
put-All id c (c' ∷ cs) h (h', hs) = elim (Bool-cases (c'.unique_id == id)) [
  | inl e ↦ rw e (h, hs)
  | inr e ↦ rw e (h', put-All id c cs h hs)
]

Told-All :
    (id : ℕ) (bytes : List ℕ) (cs cs' : List ClientHandle)
    → Told id bytes cs cs'
    → All IsFit cs
    → All IsFit cs'
Told-All id bytes _ _ none_left h = tt
Told-All id bytes _ _ (passed c cs cs' e t) (h, hs) = (h, Told-All id bytes cs cs' t hs)
Told-All id bytes _ _ (sent c c' cs cs' ne s t) (h, hs) =
    (Sent-IsFit bytes c c' s h, Told-All id bytes cs cs' t hs)

broadcast-Serves : (id : ℕ) (s : Server) → AreFit s → Serves s (broadcast_user_info id s)
broadcast-Serves id s fit = elim (Option-cases (find_client id s.clients)) [
  | inl e ↦ rw (broadcast_nobody id s e) (record { answer = refl; fit = fit; queue = refl })
  | inr (who, e) ↦
      let b = broadcast_user_info_lem id s who e fit.clients in
      let fits =
        put-All id b.who' b.others
          (Sent-IsFit _ who b.who' b.answered (found-All IsFit id s.clients who fit.clients e))
          (Told-All _ _ s.clients b.others b.told fit.clients) in
      rw b.result
        (record { answer = refl; fit = record { clients = fits; queue = fit.queue }; queue = refl })
]

settled-Suits : (now : ℕ) → Suits (modify (λ c. record c { ping_start_time = now + 3000 }))
settled-Suits now c fit = (
  refl,
  record {
    ready = record { out = fit.ready.out; len = fit.ready.len };
    named = fit.named;
    numbered = fit.numbered;
  },
)

-- The client is let in under a name.
let_in-Suits :
    (name : AString)
    → length name ≤ 65000
    → Suits (
        modify (λ c. record c { username = name })
        >> send_login_success
        >> modify (λ c. record c { state = authenticated }))
unfolding send_login_success
let_in-Suits name short c fit =
    let named : ClientHandle = record c { username = name } in
    let ready : IsReady named = record { out = fit.ready.out; len = fit.ready.len } in
    let (answer, s) =
      Delivered-Sent named _ (packet 0x01 [] named)
        (packet-Delivered named 0x01 [] ready (omega arith) tt success_fits) in
    let welcomed : ClientHandle = (packet 0x01 [] named).1 in
    let fit' : IsFit welcomed =
      Sent-IsFit _ named welcomed s
        (record { ready = ready; named = short; numbered = fit.numbered }) in
    let let_in : ClientHandle = record (set_protocol_state 3 welcomed) { state = authenticated } in
    let done : (r : Outcome (Unit {0}) × ClientHandle) × (r ≡ (ok tt, let_in)) = (
      _,
      ap (λ r. continue r (λ _. modify (λ c. record c { state = authenticated })))
          (continue-modify (packet 0x01 [] named) (set_protocol_state 3) answer),
    ) in
    let fit'' : IsFit let_in = record {
      ready = record { out = fit'.ready.out; len = fit'.ready.len };
      named = fit'.named;
      numbered = fit'.numbered;
    } in
    (ap (λ r. r.0) done.1, subst (λ r. IsFit r.1) (sym done.1) fit'')

let_in-Serves :
    (now id : ℕ) (name : AString) (s : Server)
    → length name ≤ 65000
    → AreFit s
    → Serves s (let_in now id name s)
unfolding let_in
let_in-Serves now id name s short fit =
    continue-Serves s _ _
      (continue-Serves s _ _ (on_client-Serves id _ s (let_in-Suits name short) fit)
        (λ s' fit'. broadcast-Serves id s' fit'))
      (λ s' fit'.
        on_client-Serves id (modify (λ c. record c { ping_start_time = now + 3000 })) s'
          (settled-Suits now) fit')

authenticate_client-Serves :
    (now : ℕ) (c : ClientHandle) (name : AString) (s : Server)
    → length name ≤ 65000
    → AreFit s
    → Serves s (authenticate_client now c name s)
unfolding authenticate_client kick
authenticate_client-Serves now c name s short fit =
    elim (Bool-cases (rank c.state == rank authenticating)) [
      | inl e ↦ elim (Bool-cases (is_player_in_queue name s.clients)) [
        | inl taken ↦
            rw (e, taken)
              (on_client-Serves c.unique_id (send_disconnect already_login) s
                (send_disconnect-Suits already_login (ground arith)) fit)
        | inr free ↦ rw (e, free) (let_in-Serves now c.unique_id name s short fit)
      ]
      | inr e ↦ rw e (record { answer = refl; fit = fit; queue = refl })
    ]

authenticate_user-Serves :
    (now id : ℕ) (name : AString) (s : Server)
    → length name ≤ 65000
    → AreFit s
    → Serves s (authenticate_user now id name s)
unfolding authenticate_user
authenticate_user-Serves now id name s short fit = elim (Option-cases (find_client id s.clients)) [
  | inl e ↦ rw (e, authenticate_user) (record { answer = refl; fit = fit; queue = refl })
  | inr (c, e) ↦ rw (e, authenticate_user) (authenticate_client-Serves now c name s short fit)
]

module _ (md5 : AString → AString) where
  answer_user-Serves :
      (now : ℕ) (u : User) (s : Server)
      → length u.username ≤ 65000
      → AreFit s
      → Serves s (answer_user md5 now u s)
  unfolding answer_user
  answer_user-Serves now u s short fit = elim (Bool-cases (auth_from_db_poll md5 u)) [
    | inl e ↦ rw e (authenticate_user-Serves now u.client_id u.username s short fit)
    | inr e ↦ rw e (kick_user-Serves u.client_id (pos 0) s (ground arith) fit)
  ]

  execute_round-first :
      (now : ℕ) (u : User) (us : List User) (s : Server)
      → s.queue ≡ u ∷ us
      → execute_round md5 now s ≡ answer_user md5 now u (record s { queue = us })
  unfolding execute_round
  execute_round-first now u us s e = rw (e, execute_round) refl

continue-ok :
    (r : Outcome (Unit {0}) × Server) (k : Reader Server (Unit {0}))
    → r.0 ≡ ok tt
    → continue r (λ _. k) ≡ k r.1
continue-ok (ok _, s) k e = refl
continue-ok (fail, s) k e = cc
continue-ok (undefined, s) k e = cc
continue-ok (exited, s) k e = cc
continue-ok (stuck, s) k e = cc

module _ (fresh : ℕ → List ℕ) (md5 : AString → AString) where
  -- Where every packet can be sent to every client (its buffers for packets are empty, its name has up
  -- to 65,000 bytes and its number fits 32 bits) and the names that wait have up to 65,000 bytes, as
  -- many rounds of the authenticator as users wait succeed, and the queue is empty.
  pub rounds-Drained :
      (us : List User) (now : ℕ) (s : Server)
      → AreFit s
      → s.queue ≡ us
      → ((run fresh md5 (replicate (length us) (now, authenticates)) s).0 ≡ ok tt)
        × ((run fresh md5 (replicate (length us) (now, authenticates)) s).1.queue ≡ [])
  unfolding run step execute_round
  rounds-Drained [] now s fit e = (refl, e)
  rounds-Drained (u ∷ us) now s fit e =
      let names : All (λ u'. length u'.username ≤ 65000) (u ∷ us) =
        subst (λ q. All (λ u'. length u'.username ≤ 65000) q) e fit.queue in
      let s' : Server = record s { queue = us } in
      let t =
        answer_user-Serves md5 now u s' names.0
          (record { clients = fit.clients; queue = names.1 }) in
      rw
        (
          execute_round-first md5 now u us s e,
          continue-ok (answer_user md5 now u s')
              (run fresh md5 (replicate (length us) (now, authenticates))) t.answer,
        )
        (rounds-Drained us now (answer_user md5 now u s').1 t.fit t.queue)
