-- ===== src/IniFile/Assoc.antt =====
-- Names and what stands beside them, as `FindKey` and `FindValue` of Src/Server/IniFile.cpp search
-- them: the first name that is the same up to case counts.
use p2pchat.Prelude.{
  ℕ, zero, suc, ◌<◌, ◌≡◌, refl, sym, ap, ap₂, subst, ◌∙◌, Bool, true, false, ◌&&◌, ◌==◌,
  if◌then◌else◌, Option, none, some, List, [], ◌∷◌, ◌++◌, length, get_or, set, All, arith,
  Bool-cases, inl, inr,
}
use mathlib.Core.Option
use p2pchat.IniFile.{AString, check_case, str_eq, find_name, erase}

-- Two names that the file does not tell apart.
abbrev pub same : Bool → AString → AString → Bool
same ci s t = str_eq (check_case ci s) (check_case ci t)

-- What stands beside the first such name.
abbrev pub first {ℓ} : {A : Type ℓ} → Bool → AString → List AString → List A → Option A
first ci n (m ∷ ns) (x ∷ xs) = if same ci m n then some x else first ci n ns xs
first ci n [] xs = none
first ci n (m ∷ ns) [] = none

pub str_eq_refl : (s : AString) → str_eq s s ≡ true
unfolding str_eq
str_eq_refl [] = refl
str_eq_refl (c ∷ s) = rw (str_eq_refl s) (ground arith)

pub str_eq-≡ : (s t : AString) → str_eq s t ≡ true → s ≡ t
unfolding str_eq
str_eq-≡ [] [] h = refl
str_eq-≡ [] (d ∷ t) h = cc
str_eq-≡ (c ∷ s) [] h = cc
str_eq-≡ (c ∷ s) (d ∷ t) h = elim (Bool-cases (c == d)) [
  | inl e ↦
      let both : c ≡ d = ground arith in
      let tails : str_eq s t ≡ true = subst (λ b. b && str_eq s t ≡ true) e h in
      ap₂ ◌∷◌ both (str_eq-≡ s t tails)
  | inr e ↦ let clash : false ≡ true = subst (λ b. b && str_eq s t ≡ true) e h in cc
]

pub same_refl : (ci : Bool) (s : AString) → same ci s s ≡ true
same_refl ci s = str_eq_refl (check_case ci s)

-- What is the same as a name can stand for it.
pub same-same : (ci : Bool) (s t u : AString) → same ci s t ≡ true → same ci s u ≡ same ci t u
same-same ci s t u h = ap (λ r. str_eq r (check_case ci u)) (str_eq-≡ _ _ h)

pub str_eq_comm : (s t : AString) → str_eq s t ≡ str_eq t s
unfolding str_eq
str_eq_comm [] [] = refl
str_eq_comm [] (d ∷ t) = refl
str_eq_comm (c ∷ s) [] = refl
str_eq_comm (c ∷ s) (d ∷ t) = rw (str_eq_comm s t) (ground arith)

pub same_comm : (ci : Bool) (s t : AString) → same ci s t ≡ same ci t s
same_comm ci s t = str_eq_comm (check_case ci s) (check_case ci t)

pub same_apart :
    (ci : Bool) (m n u : AString) → same ci m u ≡ true → same ci m n ≡ false → same ci n u ≡ false
same_apart ci m n u e h = same_comm ci n u ∙ sym (same-same ci m u n e) ∙ h

-- The place of the first name that is the same as `n`.
pub data FoundAt (ci : Bool) (n : AString) : List AString → ℕ → Type 0 where
  here : (m : AString) (ns : List AString) → same ci m n ≡ true → FoundAt ci n (m ∷ ns) 0
  there :
      (m : AString) (ns : List AString) (i : ℕ)
      → same ci m n ≡ false
      → FoundAt ci n ns i
      → FoundAt ci n (m ∷ ns) (suc i)

-- What the search answers.
abbrev pub Answer : Bool → AString → List AString → Option ℕ → Type 0
Answer ci n ns none = All (λ m. same ci m n ≡ false) ns
Answer ci n ns (some i) = FoundAt ci n ns i

Answer-later :
    (ci : Bool) (n m : AString) (ns : List AString) (o : Option ℕ)
    → same ci m n ≡ false
    → Answer ci n ns o
    → Answer ci n (m ∷ ns) (Option.map suc o)
Answer-later ci n m ns none h a = (h, a)
Answer-later ci n m ns (some i) h a = there m ns i h a

pub find_name_lem :
    (ci : Bool) (n : AString) (ns : List AString) → Answer ci n ns (find_name ci n ns)
unfolding find_name
find_name_lem ci n [] = tt
find_name_lem ci n (m ∷ ns) = elim (Bool-cases (same ci m n)) [
  | inl e ↦ rw e (here m ns e)
  | inr e ↦ rw e (Answer-later ci n m ns (find_name ci n ns) e (find_name_lem ci n ns))
]

module _ {ℓ} {A : Type ℓ} (ci : Bool) where
  pub first_absent :
      (n : AString) (ns : List AString) (xs : List A)
      → All (λ m. same ci m n ≡ false) ns
      → first ci n ns xs ≡ none
  first_absent n [] xs h = refl
  first_absent n (m ∷ ns) [] h = refl
  first_absent n (m ∷ ns) (x ∷ xs) (e, h) = rw e (first_absent n ns xs h)

  -- The same name finds the same.
  pub first-same :
      (n u : AString) (ns : List AString) (xs : List A)
      → same ci n u ≡ true
      → first ci u ns xs ≡ first ci n ns xs
  first-same n u [] xs h = refl
  first-same n u (m ∷ ns) [] h = refl
  first-same n u (m ∷ ns) (x ∷ xs) h =
      rw (same_comm ci m u, sym (same-same ci n u m h), same_comm ci n m, first-same n u ns xs h)

  pub first_found :
      (n : AString) (ns : List AString) (xs : List A) (i : ℕ) (d : A)
      → length ns ≡ length xs
      → FoundAt ci n ns i
      → first ci n ns xs ≡ some (get_or xs i d)
  first_found n [] xs i d l f = elim f [ ]
  first_found n (m ∷ ns) [] i d l f = absurd (omega arith)
  first_found n (m ∷ ns) (x ∷ xs) _ d l (here _ _ e) = rw e
  first_found n (m ∷ ns) (x ∷ xs) _ d l (there _ _ i e f) =
      rw e (first_found n ns xs i d (omega arith) f)

  pub first-set :
      (n u : AString) (ns : List AString) (xs : List A) (i : ℕ) (y : A)
      → length ns ≡ length xs
      → FoundAt ci n ns i
      → first ci u ns (set xs i y) ≡ (if same ci n u then some y else first ci u ns xs)
  first-set n u [] xs i y l f = elim f [ ]
  first-set n u (m ∷ ns) [] i y l f = absurd (omega arith)
  first-set n u (m ∷ ns) (x ∷ xs) _ y l (here _ _ e) =
      rw (same-same ci m n u e) (elim (Bool-cases (same ci n u)) [ inl h ↦ rw h | inr h ↦ rw h ])
  first-set n u (m ∷ ns) (x ∷ xs) _ y l (there _ _ i e f) = elim (Bool-cases (same ci m u)) [
    | inl h ↦ rw (h, same_apart ci m n u h e)
    | inr h ↦ rw h (first-set n u ns xs i y (omega arith) f)
  ]

  pub first-append :
      (n u : AString) (ns : List AString) (xs : List A) (y : A)
      → length ns ≡ length xs
      → All (λ m. same ci m n ≡ false) ns
      → first ci u (ns ++ n ∷ []) (xs ++ y ∷ [])
        ≡ (if same ci n u then some y else first ci u ns xs)
  first-append n u [] [] y l a = refl
  first-append n u [] (x ∷ xs) y l a = absurd (omega arith)
  first-append n u (m ∷ ns) [] y l a = absurd (omega arith)
  first-append n u (m ∷ ns) (x ∷ xs) y l (e, a) = elim (Bool-cases (same ci m u)) [
    | inl h ↦ rw (h, same_apart ci m n u h e)
    | inr h ↦ rw h (first-append n u ns xs y (omega arith) a)
  ]

  pub first-erase :
      (n u : AString) (ns : List AString) (xs : List A) (i : ℕ)
      → length ns ≡ length xs
      → FoundAt ci n ns i
      → same ci n u ≡ false
      → first ci u (erase ns i) (erase xs i) ≡ first ci u ns xs
  unfolding erase
  first-erase n u [] xs i l f d = elim f [ ]
  first-erase n u (m ∷ ns) [] i l f d = absurd (omega arith)
  first-erase n u (m ∷ ns) (x ∷ xs) _ l (here _ _ e) d = rw (same-same ci m n u e, d)
  first-erase n u (m ∷ ns) (x ∷ xs) _ l (there _ _ i e f) d =
      rw (first-erase n u ns xs i (omega arith) f d)

  pub length-erase : (xs : List A) (i : ℕ) → i < length xs → suc (length (erase xs i)) ≡ length xs
  unfolding erase
  length-erase (x ∷ xs) zero h = refl
  length-erase (x ∷ xs) (suc i) h = ap suc (length-erase xs i (omega arith))
  length-erase [] i h = absurd (omega arith)

pub FoundAt-lt :
    (ci : Bool) (n : AString) (ns : List AString) (i : ℕ) → FoundAt ci n ns i → i < length ns
FoundAt-lt ci n _ _ (here m ns e) = omega arith
FoundAt-lt ci n _ _ (there m ns i e f) = omega (arith, FoundAt-lt ci n ns i f)

pub FoundAt-end :
    (ci : Bool) (n : AString) (ns : List AString)
    → All (λ m. same ci m n ≡ false) ns
    → FoundAt ci n (ns ++ n ∷ []) (length ns)
FoundAt-end ci n [] a = here n [] (same_refl ci n)
FoundAt-end ci n (m ∷ ns) (e, a) = there m (ns ++ n ∷ []) (length ns) e (FoundAt-end ci n ns a)
