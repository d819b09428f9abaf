-- ===== src/Server/Clients.antt =====
-- The clients' sessions behind a call on one client or on many, as the loops of Src/Server/Server.cpp
-- make it.
use p2pchat.Prelude.{
  ℕ, ◌≡◌, refl, sym, ◌∙◌, ap, ap₂, subst, true, false, not, ◌==◌, none, some, inl, inr, ◌⊎◌, List,
  [], ◌∷◌, map, arith, Bool-cases, if◌then◌else◌,
}
use p2pchat.Outcome.{Outcome, ok, fail, undefined, exited, stuck, Reader, resume, modify}
use p2pchat.Session.{ClientHandle}
use p2pchat.Session.Cores.{Core, core, Same, packet-Same}
use p2pchat.Session.Sending.{send_user_info}
use p2pchat.Server.{
  find_client, first_with, each_with, Spread, answer_back, broadcast_loop, put_back, is_logged_in,
}
use p2pchat.Server.Sessions.{Move, Change, here, there}

abbrev pub cores : List ClientHandle → List Core
cores cs = map core cs

pub resume-keeps {ℓ κ} :
    {A : Type ℓ} {B : Type κ} (P : B → Type 0) (r : Outcome (Unit {0}) × A)
    (next : A → Outcome (Unit {0}) × B) (stop : A → B)
    → P (next r.1).1
    → P (stop r.1)
    → P (resume r next stop).1
resume-keeps P (ok _, a) next stop h g = h
resume-keeps P (fail, a) next stop h g = g
resume-keeps P (undefined, a) next stop h g = g
resume-keeps P (exited, a) next stop h g = g
resume-keeps P (stuck, a) next stop h g = g

-- A call that leaves the session alone.
pub first_with-Same :
    (id : ℕ) (call : Reader ClientHandle (Unit {0})) (cs : List ClientHandle)
    → Same call
    → cores (first_with id call cs).1 ≡ cores cs
unfolding first_with
first_with-Same id call [] same = refl
first_with-Same id call (c ∷ cs) same = elim (Bool-cases (c.unique_id == id)) [
  | inl e ↦ rw e (ap (λ k. k ∷ cores cs) (same c))
  | inr e ↦ rw e (ap (λ ks. core c ∷ ks) (first_with-Same id call cs same))
]

pub each_with-Same :
    (id : ℕ) (call : Reader ClientHandle (Unit {0})) (cs : List ClientHandle)
    → Same call
    → cores (each_with id call cs).1 ≡ cores cs
unfolding each_with
each_with-Same id call [] same = refl
each_with-Same id call (c ∷ cs) same =
    let rest = each_with-Same id call cs same in
    elim (Bool-cases (c.unique_id == id)) [
      | inl e ↦ rw e (
          resume-keeps (λ cs'. cores cs' ≡ cores (c ∷ cs)) (call c) _ _
            (ap₂ (λ k ks. k ∷ ks) (same c) rest) (ap (λ k. k ∷ cores cs) (same c)))
      | inr e ↦ rw e (ap (λ ks. core c ∷ ks) rest)
    ]

-- The client that is found is the first one, or it is found behind it.
pub find_client-cases :
    (id : ℕ) (c' : ClientHandle) (cs : List ClientHandle) (c : ClientHandle)
    → find_client id (c' ∷ cs) ≡ some c
    → (((c'.unique_id == id) ≡ true) × (c' ≡ c))
      ⊎ (((c'.unique_id == id) ≡ false) × (find_client id cs ≡ some c))
unfolding find_client
find_client-cases id c' cs c found = elim (Bool-cases (c'.unique_id == id)) [
  | inl e ↦
      let hit : some c' ≡ some c =
        subst (λ b. (if b then some c' else find_client id cs) ≡ some c) e found in
      inl (e, cc)
  | inr e ↦ inr (e, subst (λ b. (if b then some c' else find_client id cs) ≡ some c) e found)
]

find_client-nil : (id : ℕ) (c : ClientHandle) → find_client id [] ≡ some c → ⊥
unfolding find_client
find_client-nil id c found = cc

-- A client that is found has the number.
pub found-unique_id :
    (id : ℕ) (cs : List ClientHandle) (c : ClientHandle)
    → find_client id cs ≡ some c
    → c.unique_id ≡ id
found-unique_id id [] c found = absurd (find_client-nil id c found)
found-unique_id id (c' ∷ cs) c found = elim (find_client-cases id c' cs c found) [
  | inl (e, same) ↦ subst (λ x. x.unique_id ≡ id) same (ground arith)
  | inr (e, rest) ↦ found-unique_id id cs c rest
]

-- A call that moves the session of the client that it finds.
pub first_with-Change :
    (all : List Core) (id : ℕ) (call : Reader ClientHandle (Unit {0})) (cs : List ClientHandle)
    (c : ClientHandle)
    → find_client id cs ≡ some c
    → Move all (core c) (core (call c).1)
    → Change all (cores cs) (cores (first_with id call cs).1)
unfolding first_with
first_with-Change all id call [] c found m = absurd (find_client-nil id c found)
first_with-Change all id call (c' ∷ cs) c found m = elim (find_client-cases id c' cs c found) [
  | inl (e, same) ↦
      rw e (here _ _ _ (subst (λ x. Move all (core x) (core (call x).1)) (sym same) m))
  | inr (e, rest) ↦ rw e (there _ _ _ (first_with-Change all id call cs c rest m))
]

-- The client that is found is put back with the session that it had.
first_with-replace :
    (id : ℕ) (cs cs' : List ClientHandle) (c who : ClientHandle)
    → find_client id cs ≡ some c
    → cores cs' ≡ cores cs
    → core who ≡ core c
    → cores (first_with id (modify (λ _. who)) cs').1 ≡ cores cs
unfolding first_with
first_with-replace id cs [] c who found e same = e
first_with-replace id [] (c'' ∷ cs') c who found e same = absurd (find_client-nil id c found)
first_with-replace id (c' ∷ cs) (c'' ∷ cs') c who found e same =
    let head : core c'' ≡ core c' = cc in
    let tail : cores cs' ≡ cores cs = cc in
    let number : c''.unique_id ≡ c'.unique_id = ap (λ k. k.unique_id) head in
    elim (find_client-cases id c' cs c found) [
      | inl (e', same') ↦
          rw (ap (λ n. n == id) number ∙ e')
            (ap₂ (λ k ks. k ∷ ks) (same ∙ ap core (sym same')) tail)
      | inr (e', rest) ↦
          rw (ap (λ n. n == id) number ∙ e')
            (ap₂ (λ k ks. k ∷ ks) head (first_with-replace id cs cs' c who rest tail same))
    ]

send_user_info-Same : (who : ClientHandle) → Same (send_user_info who)
unfolding send_user_info
send_user_info-Same who c = packet-Same _ _ c

-- A broadcast.
abbrev SpreadSame : ClientHandle → List ClientHandle → Spread → Type 0
SpreadSame who cs (who', cs') = (core who' ≡ core who) × (cores cs' ≡ cores cs)

answer_back-same :
    (who c c' : ClientHandle) (cs : List ClientHandle)
    (next : ClientHandle → Outcome (Unit {0}) × Spread)
    → core c' ≡ core c
    → ((who' : ClientHandle) → core who' ≡ core who → SpreadSame who cs (next who').1)
    → SpreadSame who (c ∷ cs) (answer_back who c' cs next).1
unfolding answer_back
answer_back-same who c c' cs next same h = elim (Bool-cases (is_logged_in who)) [
  | inl e ↦ rw e (
      resume-keeps (SpreadSame who (c ∷ cs)) (send_user_info c' who) _ _
        (let (w, rest) = h _ (send_user_info-Same c' who) in (w, ap₂ (λ k ks. k ∷ ks) same rest))
        (send_user_info-Same c' who, ap (λ k. k ∷ cores cs) same))
  | inr e ↦ rw e (let (w, rest) = h who refl in (w, ap₂ (λ k ks. k ∷ ks) same rest))
]

broadcast_loop-same :
    (who : ClientHandle) (cs : List ClientHandle) → SpreadSame who cs (broadcast_loop who cs).1
unfolding broadcast_loop
broadcast_loop-same who [] = (refl, refl)
broadcast_loop-same who (c ∷ cs) = elim (Bool-cases (not (c.unique_id == who.unique_id))) [
  | inl e ↦ rw e (
      resume-keeps (SpreadSame who (c ∷ cs)) (send_user_info who c) _ _
        (answer_back-same who c _ cs (λ who'. broadcast_loop who' cs) (send_user_info-Same who c)
          (λ who' e'. let (w, rest) = broadcast_loop-same who' cs in (w ∙ e', rest)))
        (refl, ap (λ k. k ∷ cores cs) (send_user_info-Same who c)))
  | inr e ↦ rw e (let (w, rest) = broadcast_loop-same who cs in (w, ap (λ ks. core c ∷ ks) rest))
]

pub broadcast-same :
    (id : ℕ) (cs : List ClientHandle) (who : ClientHandle)
    → find_client id cs ≡ some who
    → cores (put_back (broadcast_loop who cs)).1 ≡ cores cs
broadcast-same id cs who found =
    let (same, rest) = broadcast_loop-same who cs in
    let (r, (who', cs')) = broadcast_loop who cs in
    subst (λ n. cores (first_with n (modify (λ _. who')) cs').1 ≡ cores cs)
      (sym (ap (λ k. k.unique_id) same ∙ found-unique_id id cs who found))
      (first_with-replace id cs cs' who who' found rest same)

-- A call on a client that is not there.
pub first_with-none :
    (id : ℕ) (call : Reader ClientHandle (Unit {0})) (cs : List ClientHandle)
    → find_client id cs ≡ none
    → (first_with id call cs).1 ≡ cs
unfolding first_with find_client
first_with-none id call [] missing = refl
first_with-none id call (c ∷ cs) missing = elim (Bool-cases (c.unique_id == id)) [
  | inl e ↦
      let hit : some c ≡ none =
        subst (λ b. (if b then some c else find_client id cs) ≡ none) e missing in
      cc
  | inr e ↦ rw e (
      ap (λ cs'. c ∷ cs')
        (first_with-none id call cs
          (subst (λ b. (if b then some c else find_client id cs) ≡ none) e missing)))
]

-- Where the sessions are the same, the client is found with the same session.
pub found-same :
    (id : ℕ) (cs cs' : List ClientHandle) (c : ClientHandle)
    → find_client id cs ≡ some c
    → cores cs' ≡ cores cs
    → (c' : ClientHandle) × (find_client id cs' ≡ some c') × (core c' ≡ core c)
unfolding find_client
found-same id [] cs' c found e = absurd (find_client-nil id c found)
found-same id (c' ∷ cs) [] c found e = cc
found-same id (c' ∷ cs) (c'' ∷ cs') c found e =
    let head : core c'' ≡ core c' = cc in
    let tail : cores cs' ≡ cores cs = cc in
    let number : c''.unique_id ≡ c'.unique_id = ap (λ k. k.unique_id) head in
    elim (find_client-cases id c' cs c found) [
      | inl (e', same) ↦ (c'', rw (ap (λ n. n == id) number ∙ e') refl, head ∙ ap core same)
      | inr (e', rest) ↦
          let (d, found', same) = found-same id cs cs' c rest tail in
          (d, rw (ap (λ n. n == id) number ∙ e') found', same)
    ]
