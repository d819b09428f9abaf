-- ===== src/Server/Delivery.antt =====
-- Which bytes are queued for which client of the list (Src/Server/Server.cpp).
pub mod Broadcast
use p2pchat.Prelude.{
  ℕ, ◌≡◌, ◌≢◌, refl, ◌∙◌, ap, subst, Bool, true, false, ◌==◌, some, Bool-cases, inl, inr, List, [],
  ◌∷◌, ◌++◌, arith, All, if◌then◌else◌, leb,
}
use p2pchat.Outcome.{Outcome, ok, fail, undefined, exited, stuck, Reader, resume, modify}
use p2pchat.Session.{ClientHandle, rank}
use p2pchat.Session.Packets.{IsReady}
use p2pchat.Session.Sent.{
  Sent, Sent-trans, Sent-nil, Sent-core, IsFit, Sent-IsFit, info, send_user_info-Sent,
}
use p2pchat.Session.Cores.{Core, core}
use p2pchat.Session.Sending.{send_user_info}
use p2pchat.Server.{
  Server, find_client, first_with, Spread, spread_on, answer_back, broadcast_loop, is_logged_in,
  broadcast_user_info,
}
use p2pchat.Server.Clients.{find_client-cases, found-unique_id}

pub found-All :
    (P : ClientHandle → Type 0) (id : ℕ) (cs : List ClientHandle) (c : ClientHandle)
    → All P cs
    → find_client id cs ≡ some c
    → P c
unfolding find_client
found-All P id [] c h found = cc
found-All P id (c' ∷ cs) c (h, hs) found = elim (find_client-cases id c' cs c found) [
  | inl (e, same) ↦ subst P same h
  | inr (e, rest) ↦ found-All P id cs c hs rest
]

-- The first client with a number is replaced.
abbrev pub put : ℕ → ClientHandle → List ClientHandle → List ClientHandle
put id c' [] = []
put id c' (c ∷ cs) = if c.unique_id == id then c' ∷ cs else c ∷ put id c' cs

pub first_with-put :
    (id : ℕ) (call : Reader ClientHandle (Unit {0})) (cs : List ClientHandle) (c : ClientHandle)
    → find_client id cs ≡ some c
    → first_with id call cs ≡ ((call c).0, put id (call c).1 cs)
unfolding first_with find_client
first_with-put id call [] c found = cc
first_with-put id call (c' ∷ cs) c found = elim (find_client-cases id c' cs c found) [
  | inl (e, same) ↦ rw e (ap (λ x. ((call x).0, (call x).1 ∷ cs)) same)
  | inr (e, rest) ↦ rw e (ap (λ x. (x.0, c' ∷ x.1)) (first_with-put id call cs c rest))
]

-- The other clients, in the order of the list, as one is told of them.
abbrev pub infos : ℕ → List ClientHandle → List ℕ
infos id [] = []
infos id (c ∷ cs) = if c.unique_id == id then infos id cs else info (core c) ++ infos id cs

-- Every client but the one with the number has been sent the bytes.
pub data Told (id : ℕ) (bytes : List ℕ) : List ClientHandle → List ClientHandle → Type 0 where
  none_left : Told id bytes [] []
  passed :
      (c : ClientHandle) (cs cs' : List ClientHandle)
      → c.unique_id ≡ id
      → Told id bytes cs cs'
      → Told id bytes (c ∷ cs) (c ∷ cs')
  sent :
      (c c' : ClientHandle) (cs cs' : List ClientHandle)
      → c.unique_id ≢ id
      → Sent bytes c c'
      → Told id bytes cs cs'
      → Told id bytes (c ∷ cs) (c' ∷ cs')

pub resume-ok {ℓ κ} :
    {A : Type ℓ} {B : Type κ} (r : Outcome (Unit {0}) × A) (next : A → Outcome (Unit {0}) × B)
    (stop : A → B)
    → r.0 ≡ ok tt
    → resume r next stop ≡ next r.1
resume-ok (ok _, a) next stop e = refl
resume-ok (fail, a) next stop e = cc
resume-ok (undefined, a) next stop e = cc
resume-ok (exited, a) next stop e = cc
resume-ok (stuck, a) next stop e = cc
