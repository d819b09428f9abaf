-- ===== src/Server/Sessions.antt =====
-- How the sessions of the clients go on, without the bytes: the states of all clients as a step
-- relation (Src/Server/ClientHandle.cpp, Src/Server/Server.cpp and
-- Src/Server/Protocol/cProtocol_impl.cpp).
pub mod Orderly
pub mod Refines
pub mod Turns
pub mod Runs
use p2pchat.Prelude.{
  ℕ, suc, ◌≡◌, refl, sym, ◌∙◌, ap, subst, ◌≢◌, ◌⊎◌, inl, inr, List, [], ◌∷◌, ◌++◌, map, All, arith,
  ◌≤◌, ◌<◌, ◌^◌,
}
use p2pchat.IniFile.{AString}
use p2pchat.Session.{
  State, connected, authenticating, authenticated, working, destroying, destroyed, ClientHandle,
}
use p2pchat.Session.Cores.{Core, core}
use p2pchat.Server.{Server}

-- The clients' sessions, and how many clients there have been.
pub record Roll : Type 0 where
  pub count : ℕ
  pub cores : List Core

abbrev pub roll : Server → Roll
roll s = record { count = s.client_count; cores = map core s.clients }

-- No client has the name.
abbrev pub IsFree : AString → List Core → Type 0
IsFree name ks = All (λ k. k.username ≢ name) ks

-- What may happen to a client, among all clients.
pub data Move (all : List Core) : Core → Core → Type 0 where
  rests : (k : Core) → Move all k k
  -- A status request names the next state of the protocol.
  asks :
      (k : Core) (n : ℕ)
      → k.protocol_state ≡ 1
      → (n ≡ 1) ⊎ (n ≡ 2)
      → Move all k (record k { protocol_state = n })
  logs_in : (k : Core) → k.protocol_state ≡ 2 → Move all k (record k { state = authenticating })
  -- With a name that no client has; the client may be left with the name alone.
  is_named :
      (k : Core) (name : AString)
      → k.state ≡ authenticating
      → IsFree name all
      → Move all k (record k { username = name })
  is_let_in :
      (k : Core) (name : AString)
      → k.state ≡ authenticating
      → IsFree name all
      → Move all k (record k { state = authenticated; protocol_state = 3; username = name })
  begins : (k : Core) → k.state ≡ authenticated → Move all k (record k { state = working })
  is_destroyed : (k : Core) → Move all k (record k { state = destroyed })

-- One client moves.
pub data Change (all : List Core) : List Core → List Core → Type 0 where
  here : (k k' : Core) (ks : List Core) → Move all k k' → Change all (k ∷ ks) (k' ∷ ks)
  there : (k : Core) (ks ks' : List Core) → Change all ks ks' → Change all (k ∷ ks) (k ∷ ks')

-- One client is taken out.
pub data Removed : List Core → List Core → Type 0 where
  this : (k : Core) (ks : List Core) → Removed (k ∷ ks) ks
  later : (k : Core) (ks ks' : List Core) → Removed ks ks' → Removed (k ∷ ks) (k ∷ ks')

-- A client that has just connected.
abbrev pub newcomer : ℕ → Core
newcomer id = record { state = connected; protocol_state = 1; username = []; unique_id = id }

-- The rolls that the server can come to from one.
pub data Reaches (from : Roll) : Roll → Type 0 where
  stays : Reaches from from
  moves :
      (r : Roll) (ks : List Core)
      → Reaches from r
      → Change r.cores r.cores ks
      → Reaches from (record r { cores = ks })
  -- The numbers are of type `int`.
  joins :
      (r : Roll)
      → Reaches from r
      → suc r.count < 2 ^ 31
      → Reaches from
          (record { count = suc r.count; cores = r.cores ++ newcomer (suc r.count) ∷ [] })
  loses :
      (r : Roll) (ks : List Core)
      → Reaches from r
      → Removed r.cores ks
      → Reaches from (record r { cores = ks })

pub Reaches-trans : (a b c : Roll) → Reaches a b → Reaches b c → Reaches a c
Reaches-trans a b _ h stays = h
Reaches-trans a b _ h (moves r ks g e) = moves r ks (Reaches-trans a b r h g) e
Reaches-trans a b _ h (joins r g few) = joins r (Reaches-trans a b r h g) few
Reaches-trans a b _ h (loses r ks g e) = loses r ks (Reaches-trans a b r h g) e

-- The states that belong together.
abbrev pub Agree : State → ℕ → Type 0
Agree connected n = (n ≡ 1) ⊎ (n ≡ 2)
Agree authenticating n = n ≡ 2
Agree authenticated n = n ≡ 3
Agree working n = n ≡ 3
Agree destroying n = ⊥
Agree destroyed n = (1 ≤ n) × (n ≤ 3)

abbrev pub IsSound : Core → Type 0
IsSound k = Agree k.state k.protocol_state

-- No two clients have a name in common, but for the empty one of those that have not logged in.
abbrev pub Apart : Core → Core → Type 0
Apart k k' = (k.username ≡ []) ⊎ (k'.username ≢ k.username)

abbrev pub AreNamedApart : List Core → Type 0
AreNamedApart [] = Unit {0}
AreNamedApart (k ∷ ks) = All (Apart k) ks × AreNamedApart ks

-- The numbers rise, and none is above the count.
abbrev pub AreRising : ℕ → List Core → Type 0
AreRising n [] = Unit {0}
AreRising n (k ∷ ks) =
    (k.unique_id ≤ n) × All (λ k'. k.unique_id < k'.unique_id) ks × AreRising n ks

pub record IsOrderly (r : Roll) : Type 0 where
  pub sound : All IsSound r.cores
  pub named_apart : AreNamedApart r.cores
  pub rising : AreRising r.count r.cores
  pub counted : r.count < 2 ^ 31
