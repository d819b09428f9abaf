-- ===== src/Server/Delivery/Broadcast.antt =====
-- `BroadcastUserInfo` of Src/Server/Server.cpp.
use p2pchat.Prelude.{
  ℕ, ◌≡◌, ◌≢◌, refl, ◌∙◌, ap, subst, Bool, true, false, ◌==◌, some, Bool-cases, inl, inr, List, [],
  ◌∷◌, arith, All, if◌then◌else◌, leb,
}
use p2pchat.Outcome.{Outcome, ok, modify}
use p2pchat.Session.{ClientHandle, rank}
use p2pchat.Session.Packets.{IsReady}
use p2pchat.Session.Sent.{
  Sent, Sent-trans, Sent-nil, Sent-core, IsFit, Sent-IsFit, info, send_user_info-Sent,
}
use p2pchat.Session.Cores.{Core, core}
use p2pchat.Session.Sending.{send_user_info}
use p2pchat.Server.{
  Server, find_client, first_with, Spread, spread_on, answer_back, broadcast_loop, is_logged_in,
  broadcast_user_info,
}
use p2pchat.Server.Clients.{found-unique_id}
use p2pchat.Server.Delivery.{found-All, put, infos, Told, none_left, passed, sent, resume-ok}

-- What a broadcast of a session leaves of its client and of the others.
pub record Spreads (k : Core) (who : ClientHandle) (cs : List ClientHandle)
    (r : Outcome (Unit {0}) × Spread) : Type 0 where
  pub who' : ClientHandle
  pub others : List ClientHandle
  pub result : r ≡ (ok tt, (who', others))
  pub told : Told k.unique_id (info k) cs others
  pub answered : Sent (if leb 1 (rank k.state) then infos k.unique_id cs else []) who who'

eq→≡ : (a b : ℕ) → (a == b) ≡ true → a ≡ b
eq→≡ a b e = ground arith

eq→≢ : (a b : ℕ) → (a == b) ≡ false → a ≢ b
eq→≢ a b e = ground arith

nil-Sent : (b : Bool) (who : ClientHandle) → IsReady who → Sent (if b then [] else []) who who
nil-Sent true who ready = Sent-nil who ready
nil-Sent false who ready = Sent-nil who ready

-- A client that is passed over.
skip-Spreads :
    (k : Core) (who c : ClientHandle) (cs : List ClientHandle) (r : Outcome (Unit {0}) × Spread)
    → (c.unique_id == k.unique_id) ≡ true
    → Spreads k who cs r
    → Spreads k who (c ∷ cs) (spread_on c r)
skip-Spreads k who c cs r e rest = record {
  who' = rest.who';
  others = c ∷ rest.others;
  result = ap (spread_on c) rest.result;
  told = passed c cs rest.others (eq→≡ c.unique_id k.unique_id e) rest.told;
  answered = rw e rest.answered;
}

-- A client that is told, and answers if `who` has logged in.
told-Spreads :
    (k : Core) (who c c' : ClientHandle) (cs : List ClientHandle)
    → core who ≡ k
    → (c.unique_id == k.unique_id) ≡ false
    → IsFit who
    → IsFit c
    → Sent (info k) c c'
    → ((w : ClientHandle) → core w ≡ k → IsFit w → Spreads k w cs (broadcast_loop w cs))
    → Spreads k who (c ∷ cs) (answer_back who c' cs (λ w. broadcast_loop w cs))
unfolding answer_back is_logged_in
told-Spreads k who c c' cs same apart fit fit' s next = elim (Bool-cases (leb 1 (rank k.state))) [
  | inl e ↦
      let here : leb 1 (rank who.state) ≡ true = ap (λ x. leb 1 (rank x.state)) same ∙ e in
      let (answer, back) = send_user_info-Sent c' who (Sent-IsFit _ c c' s fit') fit.ready in
      let who'' : ClientHandle = (send_user_info c' who).1 in
      let rest = next who'' (Sent-core _ who who'' back ∙ same) (Sent-IsFit _ who who'' back fit) in
      record {
        who' = rest.who';
        others = c' ∷ rest.others;
        result =
            rw here (resume-ok (send_user_info c' who) _ _ answer ∙ ap (spread_on c') rest.result);
        told = sent c c' cs rest.others (eq→≢ c.unique_id k.unique_id apart) s rest.told;
        answered =
            rw (e, apart)
              (Sent-trans (info (core c)) (infos k.unique_id cs) who who'' rest.who'
                (subst (λ x. Sent (info x) who who'') (Sent-core _ c c' s) back)
                (subst (λ b. Sent (if b then infos k.unique_id cs else []) who'' rest.who') e
                  rest.answered));
      }
  | inr e ↦
      let here : leb 1 (rank who.state) ≡ false = ap (λ x. leb 1 (rank x.state)) same ∙ e in
      let rest = next who same fit in
      record {
        who' = rest.who';
        others = c' ∷ rest.others;
        result = rw here (ap (spread_on c') rest.result);
        told = sent c c' cs rest.others (eq→≢ c.unique_id k.unique_id apart) s rest.told;
        answered = rw e (
            subst (λ b. Sent (if b then infos k.unique_id cs else []) who rest.who') e
              rest.answered);
      }
]

broadcast_loop-Spreads :
    (k : Core) (who : ClientHandle) (cs : List ClientHandle)
    → core who ≡ k
    → IsFit who
    → All IsFit cs
    → Spreads k who cs (broadcast_loop who cs)
unfolding broadcast_loop
broadcast_loop-Spreads k who [] same fit fits = record {
  who' = who;
  others = [];
  result = refl;
  told = none_left;
  answered = nil-Sent (leb 1 (rank k.state)) who fit.ready;
}
broadcast_loop-Spreads k who (c ∷ cs) same fit (h, hs) =
    elim (Bool-cases (c.unique_id == k.unique_id)) [
      | inl e ↦
          let here : (c.unique_id == who.unique_id) ≡ true =
            ap (λ x. c.unique_id == x.unique_id) same ∙ e in
          rw here (
            skip-Spreads k who c cs (broadcast_loop who cs) e
              (broadcast_loop-Spreads k who cs same fit hs))
      | inr e ↦
          let here : (c.unique_id == who.unique_id) ≡ false =
            ap (λ x. c.unique_id == x.unique_id) same ∙ e in
          let (answer, s) = send_user_info-Sent who c fit h.ready in
          rw
            (
              here,
              resume-ok (send_user_info who c)
                  (λ c'. answer_back who c' cs (λ w. broadcast_loop w cs)) (λ c'. (who, c' ∷ cs))
                  answer,
            )
            (told-Spreads k who c (send_user_info who c).1 cs same e fit h
              (subst (λ x. Sent (info x) c (send_user_info who c).1) same s)
              (λ w same' fit'. broadcast_loop-Spreads k w cs same' fit' hs))
    ]

first_with-put_back :
    (id : ℕ) (who : ClientHandle) (cs : List ClientHandle)
    → (first_with id (modify (λ _. who)) cs).1 ≡ put id who cs
unfolding first_with
first_with-put_back id who [] = refl
first_with-put_back id who (c ∷ cs) = elim (Bool-cases (c.unique_id == id)) [
  | inl e ↦ rw e refl
  | inr e ↦ rw e (ap (λ cs'. c ∷ cs') (first_with-put_back id who cs))
]

-- What `BroadcastUserInfo` leaves of the server.
pub record Broadcast (id : ℕ) (who : ClientHandle) (s : Server) (r : Outcome (Unit {0}) × Server)
    : Type 0 where
  pub who' : ClientHandle
  pub others : List ClientHandle
  pub told : Told id (info (core who)) s.clients others
  pub answered : Sent (if leb 1 (rank who.state) then infos id s.clients else []) who who'
  pub result : r ≡ (ok tt, record s { clients = put id who' others })

-- Where every packet can be sent to every client, a broadcast of the client that is found succeeds:
-- for every client with another number the client's number, name and state are queued, as one packet;
-- for the client itself, when it is authenticating or further, the same of every other one, in the order
-- of the list; for a client that has been sent its disconnect, nothing is queued; and nothing else
-- changes but the memory of the buffers for packets.
pub broadcast_user_info_lem :
    (id : ℕ) (s : Server) (who : ClientHandle)
    → find_client id s.clients ≡ some who
    → All IsFit s.clients
    → Broadcast id who s (broadcast_user_info id s)
unfolding broadcast_user_info
broadcast_user_info_lem id s who found fits =
    let spread =
      broadcast_loop-Spreads (core who) who s.clients refl
        (found-All IsFit id s.clients who fits found) fits in
    let number : who.unique_id ≡ id = found-unique_id id s.clients who found in
    let number' : spread.who'.unique_id ≡ id =
      ap (λ k. k.unique_id) (Sent-core _ who spread.who' spread.answered) ∙ number in
    record {
      who' = spread.who';
      others = spread.others;
      told = subst (λ n. Told n (info (core who)) s.clients spread.others) number spread.told;
      answered =
          subst
            (λ n. Sent (if leb 1 (rank who.state) then infos n s.clients else []) who spread.who')
            number spread.answered;
      result =
          rw (found, broadcast_user_info, spread.result)
            (ap (λ cs. (ok tt, record s { clients = cs }))
              (first_with-put_back spread.who'.unique_id spread.who' spread.others
                ∙ ap (λ n. put n spread.who' spread.others) number'));
    }
