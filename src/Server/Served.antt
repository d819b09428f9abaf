-- ===== src/Server/Served.antt =====
-- Calls that succeed on clients to which every packet can be sent, and leave them so
-- (Src/Server/ClientHandle.cpp, Src/Server/Server.cpp).
pub mod Rounds
use p2pchat.Prelude.{
  ℕ, ◌+◌, ◌≤◌, ◌≡◌, refl, sym, ◌∙◌, ap, subst, ◌==◌, none, Bool-cases, Option-cases, inl, inr, List,
  [], ◌∷◌, length, length-append, replicate, arith, All, ℤ, InBits, pos,
}
use p2pchat.Outcome.{Outcome, ok, fail, undefined, exited, stuck, Reader, ◌>>◌, continue, modify}
use p2pchat.IniFile.{AString}
use p2pchat.Session.{ClientHandle, rank, authenticating, authenticated, packet}
use p2pchat.Session.Packets.{IsReady, payload, packet-Delivered}
use p2pchat.ByteBuffer.VarInt.Groups.{groups, groups_shape}
use p2pchat.Session.Sent.{Delivered-Sent, IsFit, Sent-IsFit}
use p2pchat.Session.Disconnect.{send_disconnect_lem, continue-modify}
use p2pchat.Session.Sending.{
  kick, send_disconnect, send_login_success, set_protocol_state, already_login,
}
use p2pchat.Server.{
  User, Server, find_client, first_with, each_with, on_client, behind, kick_user,
  is_player_in_queue, broadcast_user_info, let_in, authenticate_client, authenticate_user,
}
use p2pchat.Server.Delivery.Broadcast.{broadcast_user_info_lem}
use p2pchat.Server.Delivery.{Told, none_left, passed, sent, put, found-All, resume-ok}
use p2pchat.Server.Events.{authenticates, answer_user, auth_from_db_poll, execute_round, step, run}

-- A call that succeeds on such a client, and leaves it such a one.
abbrev pub Suits : Reader ClientHandle (Unit {0}) → Type 0
Suits call = (c : ClientHandle) → IsFit c → ((call c).0 ≡ ok tt) × IsFit (call c).1

first_with-Suits :
    (id : ℕ) (call : Reader ClientHandle (Unit {0})) (cs : List ClientHandle)
    → Suits call
    → All IsFit cs
    → ((first_with id call cs).0 ≡ ok tt) × All IsFit (first_with id call cs).1
unfolding first_with
first_with-Suits id call [] suits fits = (refl, tt)
first_with-Suits id call (c ∷ cs) suits (h, hs) = elim (Bool-cases (c.unique_id == id)) [
  | inl e ↦ rw e (let (answer, fit) = suits c h in (answer, (fit, hs)))
  | inr e ↦ rw e (let (answer, rest) = first_with-Suits id call cs suits hs in (answer, (h, rest)))
]

each_with-Suits :
    (id : ℕ) (call : Reader ClientHandle (Unit {0})) (cs : List ClientHandle)
    → Suits call
    → All IsFit cs
    → ((each_with id call cs).0 ≡ ok tt) × All IsFit (each_with id call cs).1
unfolding each_with
each_with-Suits id call [] suits fits = (refl, tt)
each_with-Suits id call (c ∷ cs) suits (h, hs) =
    let (answer, rest) = each_with-Suits id call cs suits hs in
    elim (Bool-cases (c.unique_id == id)) [
      | inl e ↦
          let (here, fit) = suits c h in
          rw (e, resume-ok (call c) (λ c'. behind c' (each_with id call cs)) (λ c'. c' ∷ cs) here)
            (answer, (fit, rest))
      | inr e ↦ rw e (answer, (h, rest))
    ]

-- The clients, and the names that wait.
pub record AreFit (s : Server) : Type 0 where
  pub clients : All IsFit s.clients
  pub queue : All (λ u. length u.username ≤ 65000) s.queue

-- A call that succeeds on such a server, leaves it such a one, and the queue alone.
pub record Serves (s : Server) (r : Outcome (Unit {0}) × Server) : Type 0 where
  pub answer : r.0 ≡ ok tt
  pub fit : AreFit r.1
  pub queue : r.1.queue ≡ s.queue

pub continue-Serves :
    (s : Server) (r : Outcome (Unit {0}) × Server) (k : Reader Server (Unit {0}))
    → Serves s r
    → ((s' : Server) → AreFit s' → Serves s' (k s'))
    → Serves s (continue r (λ _. k))
continue-Serves s (ok _, s') k h g =
    let t = g s' h.fit in record { answer = t.answer; fit = t.fit; queue = t.queue ∙ h.queue }
continue-Serves s (fail, s') k h g = let e = h.answer in cc
continue-Serves s (undefined, s') k h g = let e = h.answer in cc
continue-Serves s (exited, s') k h g = let e = h.answer in cc
continue-Serves s (stuck, s') k h g = let e = h.answer in cc

pub on_client-Serves :
    (id : ℕ) (call : Reader ClientHandle (Unit {0})) (s : Server)
    → Suits call
    → AreFit s
    → Serves s (on_client id call s)
on_client-Serves id call s suits fit =
    let (answer, fits) = first_with-Suits id call s.clients suits fit.clients in
    record { answer = answer; fit = record { clients = fits; queue = fit.queue }; queue = refl }

pub send_disconnect-Suits : (reason : ℤ) → InBits 32 reason → Suits (send_disconnect reason)
send_disconnect-Suits reason h c fit =
    let d = send_disconnect_lem reason c fit.ready h in
    let told = Sent-IsFit _ c d.told d.goodbye_sent fit in
    (
      ap (λ r. r.0) d.result,
      subst (λ r. IsFit r.1) (sym d.result)
          (record {
            ready = record { out = told.ready.out; len = told.ready.len };
            named = told.named;
            numbered = told.numbered;
          }),
    )

pub kick_user-Serves :
    (id : ℕ) (reason : ℤ) (s : Server)
    → InBits 32 reason
    → AreFit s
    → Serves s (kick_user id reason s)
unfolding kick_user kick
kick_user-Serves id reason s h fit =
    let (answer, fits) =
      each_with-Suits id (send_disconnect reason) s.clients (send_disconnect-Suits reason h)
        fit.clients in
    record { answer = answer; fit = record { clients = fits; queue = fit.queue }; queue = refl }
