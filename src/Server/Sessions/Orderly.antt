-- ===== src/Server/Sessions/Orderly.antt =====
-- What stays true of the clients however the sessions go on.
use p2pchat.Prelude.{
  ℕ, suc, ◌≡◌, refl, sym, subst, ◌≢◌, ◌⊎◌, inl, inr, List, [], ◌∷◌, ◌++◌, All, All-map, All-append,
  arith, ◌≤◌, ◌<◌,
}
use p2pchat.IniFile.{AString}
use p2pchat.Session.{
  State, connected, authenticating, authenticated, working, destroying, destroyed,
}
use p2pchat.Session.Cores.{Core}
use p2pchat.Server.Sessions.{
  Roll, IsFree, Move, rests, asks, logs_in, is_named, is_let_in, begins, is_destroyed, Change, here,
  there, Removed, this, later, newcomer, Reaches, stays, moves, joins, loses, Agree, IsSound, Apart,
  AreNamedApart, AreRising, IsOrderly,
}

asks-Agree : (state : State) (n m : ℕ) → n ≡ 1 → (m ≡ 1) ⊎ (m ≡ 2) → Agree state n → Agree state m
asks-Agree connected n m e h a = h
asks-Agree authenticating n m e h a = absurd (omega (arith, e, a))
asks-Agree authenticated n m e h a = absurd (omega (arith, e, a))
asks-Agree working n m e h a = absurd (omega (arith, e, a))
asks-Agree destroying n m e h a = absurd a
asks-Agree destroyed n m e (inl h) a = (omega arith, omega arith)
asks-Agree destroyed n m e (inr h) a = (omega arith, omega arith)

destroyed-Agree : (state : State) (n : ℕ) → Agree state n → Agree destroyed n
destroyed-Agree connected n (inl e) = (omega arith, omega arith)
destroyed-Agree connected n (inr e) = (omega arith, omega arith)
destroyed-Agree authenticating n a = (omega (arith, a), omega (arith, a))
destroyed-Agree authenticated n a = (omega (arith, a), omega (arith, a))
destroyed-Agree working n a = (omega (arith, a), omega (arith, a))
destroyed-Agree destroying n a = absurd a
destroyed-Agree destroyed n a = a

Move-IsSound : (all : List Core) (k k' : Core) → Move all k k' → IsSound k → IsSound k'
Move-IsSound all _ _ (rests k) a = a
Move-IsSound all _ _ (asks k n e h) a = asks-Agree k.state k.protocol_state n e h a
Move-IsSound all _ _ (logs_in k e) a = e
Move-IsSound all _ _ (is_named k name e f) a = a
Move-IsSound all _ _ (is_let_in k name e f) a = refl
Move-IsSound all _ _ (begins k e) a = subst (λ st. Agree st k.protocol_state) e a
Move-IsSound all _ _ (is_destroyed k) a = destroyed-Agree k.state k.protocol_state a

Change-IsSound : (all ks ks' : List Core) → Change all ks ks' → All IsSound ks → All IsSound ks'
Change-IsSound all _ _ (here k k' ks m) (h, hs) = (Move-IsSound all k k' m h, hs)
Change-IsSound all _ _ (there k ks ks' m) (h, hs) = (h, Change-IsSound all ks ks' m hs)

-- A client moves, and stays apart from another one.
Move-Apart :
    (all : List Core) (other k k' : Core)
    → Move all k k'
    → ((name : AString) → IsFree name all → other.username ≢ name)
    → Apart other k
    → Apart other k'
Move-Apart all other _ _ (rests k) free a = a
Move-Apart all other _ _ (asks k n e h) free a = a
Move-Apart all other _ _ (logs_in k e) free a = a
Move-Apart all other _ _ (is_named k name e f) free a = inr λ eq. free name f (sym eq)
Move-Apart all other _ _ (is_let_in k name e f) free a = inr λ eq. free name f (sym eq)
Move-Apart all other _ _ (begins k e) free a = a
Move-Apart all other _ _ (is_destroyed k) free a = a

Move-ApartAll :
    (all : List Core) (k k' : Core) (ks : List Core)
    → Move all k k'
    → ((name : AString) → IsFree name all → IsFree name ks)
    → All (Apart k) ks
    → All (Apart k') ks
Move-ApartAll all _ _ ks (rests k) free a = a
Move-ApartAll all _ _ ks (asks k n e h) free a = a
Move-ApartAll all _ _ ks (logs_in k e) free a = a
Move-ApartAll all _ _ ks (is_named k name e f) free a = All-map ks (λ k' h. inr h) (free name f)
Move-ApartAll all _ _ ks (is_let_in k name e f) free a = All-map ks (λ k' h. inr h) (free name f)
Move-ApartAll all _ _ ks (begins k e) free a = a
Move-ApartAll all _ _ ks (is_destroyed k) free a = a

Change-ApartAll :
    (all ks ks' : List Core) (other : Core)
    → Change all ks ks'
    → ((name : AString) → IsFree name all → other.username ≢ name)
    → All (Apart other) ks
    → All (Apart other) ks'
Change-ApartAll all _ _ other (here k k' ks m) free (h, hs) =
    (Move-Apart all other k k' m free h, hs)
Change-ApartAll all _ _ other (there k ks ks' m) free (h, hs) =
    (h, Change-ApartAll all ks ks' other m free hs)

Change-AreNamedApart :
    (all ks ks' : List Core)
    → Change all ks ks'
    → ((name : AString) → IsFree name all → IsFree name ks)
    → AreNamedApart ks
    → AreNamedApart ks'
Change-AreNamedApart all _ _ (here k k' ks m) free (h, hs) =
    (Move-ApartAll all k k' ks m (λ name f. (free name f).1) h, hs)
Change-AreNamedApart all _ _ (there k ks ks' m) free (h, hs) = (
  Change-ApartAll all ks ks' k m (λ name f. (free name f).0) h,
  Change-AreNamedApart all ks ks' m (λ name f. (free name f).1) hs,
)

Move-unique_id : (all : List Core) (k k' : Core) → Move all k k' → k'.unique_id ≡ k.unique_id
Move-unique_id all _ _ (rests k) = refl
Move-unique_id all _ _ (asks k n e h) = refl
Move-unique_id all _ _ (logs_in k e) = refl
Move-unique_id all _ _ (is_named k name e f) = refl
Move-unique_id all _ _ (is_let_in k name e f) = refl
Move-unique_id all _ _ (begins k e) = refl
Move-unique_id all _ _ (is_destroyed k) = refl

Change-Above :
    (all ks ks' : List Core) (n : ℕ)
    → Change all ks ks'
    → All (λ k'. n < k'.unique_id) ks
    → All (λ k'. n < k'.unique_id) ks'
Change-Above all _ _ n (here k k' ks m) (h, hs) =
    (subst (λ i. n < i) (sym (Move-unique_id all k k' m)) h, hs)
Change-Above all _ _ n (there k ks ks' m) (h, hs) = (h, Change-Above all ks ks' n m hs)

Change-AreRising :
    (all ks ks' : List Core) (n : ℕ) → Change all ks ks' → AreRising n ks → AreRising n ks'
Change-AreRising all _ _ n (here k k' ks m) h =
    subst (λ i. (i ≤ n) × All (λ k''. i < k''.unique_id) ks × AreRising n ks)
      (sym (Move-unique_id all k k' m)) h
Change-AreRising all _ _ n (there k ks ks' m) (h, g, hs) =
    (h, Change-Above all ks ks' k.unique_id m g, Change-AreRising all ks ks' n m hs)

name_cases : (name : AString) → (name ≡ []) ⊎ (name ≢ [])
name_cases [] = inl refl
name_cases (c ∷ name) = inr λ e. cc

-- A client joins.
newcomer-AreNamedApart :
    (n : ℕ) (ks : List Core) → AreNamedApart ks → AreNamedApart (ks ++ newcomer n ∷ [])
newcomer-AreNamedApart n [] h = (tt, tt)
newcomer-AreNamedApart n (k ∷ ks) (h, hs) = (
  All-append _ ks (newcomer n ∷ []) h
      (elim (name_cases k.username) [ inl e ↦ (inl e, tt) | inr ne ↦ (inr λ e. ne (sym e), tt) ]),
  newcomer-AreNamedApart n ks hs,
)

newcomer-AreRising :
    (n : ℕ) (ks : List Core) → AreRising n ks → AreRising (suc n) (ks ++ newcomer (suc n) ∷ [])
newcomer-AreRising n [] h = (omega arith, tt, tt)
newcomer-AreRising n (k ∷ ks) (h, g, hs) = (
  omega arith,
  All-append _ ks (newcomer (suc n) ∷ []) g (omega arith, tt),
  newcomer-AreRising n ks hs,
)

-- A client is taken out.
Removed-All : (P : Core → Type 0) (ks ks' : List Core) → Removed ks ks' → All P ks → All P ks'
Removed-All P _ _ (this k ks) (h, hs) = hs
Removed-All P _ _ (later k ks ks' r) (h, hs) = (h, Removed-All P ks ks' r hs)

Removed-AreNamedApart : (ks ks' : List Core) → Removed ks ks' → AreNamedApart ks → AreNamedApart ks'
Removed-AreNamedApart _ _ (this k ks) (h, hs) = hs
Removed-AreNamedApart _ _ (later k ks ks' r) (h, hs) =
    (Removed-All _ ks ks' r h, Removed-AreNamedApart ks ks' r hs)

Removed-AreRising : (n : ℕ) (ks ks' : List Core) → Removed ks ks' → AreRising n ks → AreRising n ks'
Removed-AreRising n _ _ (this k ks) (h, g, hs) = hs
Removed-AreRising n _ _ (later k ks ks' r) (h, g, hs) =
    (h, Removed-All _ ks ks' r g, Removed-AreRising n ks ks' r hs)

-- From an orderly roll only orderly ones are reached.
pub Reaches-IsOrderly : (from r : Roll) → IsOrderly from → Reaches from r → IsOrderly r
Reaches-IsOrderly from _ h stays = h
Reaches-IsOrderly from _ h (moves r ks g e) =
    let o = Reaches-IsOrderly from r h g in
    record {
      sound = Change-IsSound r.cores r.cores ks e o.sound;
      named_apart = Change-AreNamedApart r.cores r.cores ks e (λ name f. f) o.named_apart;
      rising = Change-AreRising r.cores r.cores ks r.count e o.rising;
      counted = o.counted;
    }
Reaches-IsOrderly from _ h (joins r g few) =
    let o = Reaches-IsOrderly from r h g in
    record {
      sound = All-append _ r.cores (newcomer (suc r.count) ∷ []) o.sound (inl refl, tt);
      named_apart = newcomer-AreNamedApart (suc r.count) r.cores o.named_apart;
      rising = newcomer-AreRising r.count r.cores o.rising;
      counted = few;
    }
Reaches-IsOrderly from _ h (loses r ks g e) =
    let o = Reaches-IsOrderly from r h g in
    record {
      sound = Removed-All IsSound r.cores ks e o.sound;
      named_apart = Removed-AreNamedApart r.cores ks e o.named_apart;
      rising = Removed-AreRising r.count r.cores ks e o.rising;
      counted = o.counted;
    }
