-- ===== src/Client/Peers.antt =====
-- The map of the peers (`Peers` of Src/Client/peer_connection_client.h), a list in the order of its keys.
use p2pchat.Prelude.{
  ◌≡◌, refl, ap, true, false, Bool-cases, inl, inr, none, some, List, [], ◌∷◌, All, arith, ℤ, pos,
  negsuc, subst, sym,
}
use p2pchat.IniFile.{AString}
use p2pchat.Client.Handlers.{int_ltb, int_eq, set_peer, erase_peer, find_peer}

abbrev pub IsBelow : ℤ → ℤ × AString → Type 0
IsBelow k p = int_ltb k p.0 ≡ true

-- The keys increase.
abbrev pub IsOrdered : List (ℤ × AString) → Type 0
IsOrdered [] = Unit {0}
IsOrdered (p ∷ ps) = All (IsBelow p.0) ps × IsOrdered ps

int_ltb_trans : (a b c : ℤ) → int_ltb a b ≡ true → int_ltb b c ≡ true → int_ltb a c ≡ true
int_ltb_trans (pos a) (pos b) (pos c) h g = ground arith
int_ltb_trans (pos a) (pos b) (negsuc c) h g = cc
int_ltb_trans (pos a) (negsuc b) c h g = cc
int_ltb_trans (negsuc a) (pos b) (pos c) h g = refl
int_ltb_trans (negsuc a) (pos b) (negsuc c) h g = cc
int_ltb_trans (negsuc a) (negsuc b) (pos c) h g = refl
int_ltb_trans (negsuc a) (negsuc b) (negsuc c) h g = ground arith

int_eq→≡ : (a b : ℤ) → int_eq a b ≡ true → a ≡ b
int_eq→≡ (pos a) (pos b) h = let e : a ≡ b = ground arith in ap pos e
int_eq→≡ (pos a) (negsuc b) h = cc
int_eq→≡ (negsuc a) (pos b) h = cc
int_eq→≡ (negsuc a) (negsuc b) h = let e : a ≡ b = ground arith in ap negsuc e

int_eq_refl : (a : ℤ) → int_eq a a ≡ true
int_eq_refl (pos a) = ground arith
int_eq_refl (negsuc a) = ground arith

-- Neither below nor equal is above.
int_ltb_total : (a b : ℤ) → int_ltb a b ≡ false → int_eq a b ≡ false → int_ltb b a ≡ true
int_ltb_total (pos a) (pos b) h g = ground arith
int_ltb_total (pos a) (negsuc b) h g = refl
int_ltb_total (negsuc a) (pos b) h g = cc
int_ltb_total (negsuc a) (negsuc b) h g = ground arith

int_eq-below : (a b : ℤ) → int_ltb a b ≡ true → int_eq a b ≡ false
int_eq-below (pos a) (pos b) h = ground arith
int_eq-below (pos a) (negsuc b) h = refl
int_eq-below (negsuc a) (pos b) h = refl
int_eq-below (negsuc a) (negsuc b) h = ground arith

AllBelow-trans :
    (a b : ℤ) (ps : List (ℤ × AString))
    → int_ltb a b ≡ true
    → All (IsBelow b) ps
    → All (IsBelow a) ps
AllBelow-trans a b [] h g = tt
AllBelow-trans a b (p ∷ ps) h (g, gs) = (int_ltb_trans a b p.0 h g, AllBelow-trans a b ps h gs)

AllBelow-set_peer :
    (k id : ℤ) (name : AString) (ps : List (ℤ × AString))
    → int_ltb k id ≡ true
    → All (IsBelow k) ps
    → All (IsBelow k) (set_peer id name ps)
unfolding set_peer
AllBelow-set_peer k id name [] h g = (h, tt)
AllBelow-set_peer k id name ((j, v) ∷ ps) h (g, gs) = elim (Bool-cases (int_ltb id j)) [
  | inl e ↦ rw e (h, (g, gs))
  | inr e ↦ elim (Bool-cases (int_eq id j)) [
    | inl e' ↦ rw (e, e') (g, gs)
    | inr e' ↦ rw (e, e') (g, AllBelow-set_peer k id name ps h gs)
  ]
]

pub IsOrdered-set_peer :
    (id : ℤ) (name : AString) (ps : List (ℤ × AString))
    → IsOrdered ps
    → IsOrdered (set_peer id name ps)
unfolding set_peer
IsOrdered-set_peer id name [] o = (tt, tt)
IsOrdered-set_peer id name ((k, v) ∷ ps) (b, o) = elim (Bool-cases (int_ltb id k)) [
  | inl e ↦ rw e ((e, AllBelow-trans id k ps e b), (b, o))
  | inr e ↦ elim (Bool-cases (int_eq id k)) [
    | inl e' ↦ rw (e, e') (b, o)
    | inr e' ↦
        rw (e, e')
          (
            AllBelow-set_peer k id name ps (int_ltb_total id k e e') b,
            IsOrdered-set_peer id name ps o,
          )
  ]
]

AllBelow-erase_peer :
    (k id : ℤ) (ps : List (ℤ × AString)) → All (IsBelow k) ps → All (IsBelow k) (erase_peer id ps)
unfolding erase_peer
AllBelow-erase_peer k id [] g = tt
AllBelow-erase_peer k id ((j, v) ∷ ps) (g, gs) = elim (Bool-cases (int_eq id j)) [
  | inl e ↦ rw e gs
  | inr e ↦ rw e (g, AllBelow-erase_peer k id ps gs)
]

pub IsOrdered-erase_peer :
    (id : ℤ) (ps : List (ℤ × AString)) → IsOrdered ps → IsOrdered (erase_peer id ps)
unfolding erase_peer
IsOrdered-erase_peer id [] o = tt
IsOrdered-erase_peer id ((k, v) ∷ ps) (b, o) = elim (Bool-cases (int_eq id k)) [
  | inl e ↦ rw e o
  | inr e ↦ rw e (AllBelow-erase_peer k id ps b, IsOrdered-erase_peer id ps o)
]

find_above : (id : ℤ) (ps : List (ℤ × AString)) → All (IsBelow id) ps → find_peer id ps ≡ none
unfolding find_peer
find_above id [] g = refl
find_above id ((k, v) ∷ ps) (g, gs) = rw (int_eq-below id k g) (find_above id ps gs)

-- Of a peer that was told, the map has the name; of one that is gone, it has none, since no key stands
-- twice.
pub find_peer-set_peer :
    (id : ℤ) (name : AString) (ps : List (ℤ × AString))
    → find_peer id (set_peer id name ps) ≡ some name
unfolding set_peer find_peer
find_peer-set_peer id name [] = rw (int_eq_refl id) refl
find_peer-set_peer id name ((k, v) ∷ ps) = elim (Bool-cases (int_ltb id k)) [
  | inl e ↦ rw (e, int_eq_refl id) refl
  | inr e ↦ elim (Bool-cases (int_eq id k)) [
    | inl e' ↦ rw (e, e', e') refl
    | inr e' ↦ rw (e, e', e') (find_peer-set_peer id name ps)
  ]
]

pub find_peer-erase_peer :
    (id : ℤ) (ps : List (ℤ × AString)) → IsOrdered ps → find_peer id (erase_peer id ps) ≡ none
unfolding erase_peer find_peer
find_peer-erase_peer id [] o = refl
find_peer-erase_peer id ((k, v) ∷ ps) (b, o) = elim (Bool-cases (int_eq id k)) [
  | inl e ↦ rw e (find_above id ps (subst (λ j. All (IsBelow j) ps) (sym (int_eq→≡ id k e)) b))
  | inr e ↦ rw (e, e) (find_peer-erase_peer id ps o)
]
