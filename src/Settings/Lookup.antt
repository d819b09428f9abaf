-- ===== src/Settings/Lookup.antt =====
-- What is found by a name behind each change of a map from names
-- (Src/Server/MemorySettingsRepository.cpp).
use p2pchat.Prelude.{
  ◌≡◌, refl, sym, ap, ◌∙◌, subst, true, false, none, some, [], ◌∷◌, ◌++◌, if◌then◌else◌, Bool-cases,
  Option-cases, inl, inr,
}
use p2pchat.IniFile.{AString, str_eq}
use p2pchat.IniFile.Assoc.{str_eq_refl, str_eq-≡}
use p2pchat.Settings.{Named, Bucket, find, replace, with_bucket, or_empty_bucket}

-- Two names that are one find the same.
same_name : (m n k : AString) → str_eq m n ≡ true → str_eq m k ≡ str_eq n k
same_name m n k e = ap (λ x. str_eq x k) (str_eq-≡ m n e)

-- Two names that are not one do not find the same.
other_name : (m n k : AString) → str_eq m n ≡ false → str_eq m k ≡ true → str_eq n k ≡ false
other_name m n k e h = elim (Bool-cases (str_eq n k)) [
  | inl e' ↦
      let one : m ≡ n = str_eq-≡ m k h ∙ sym (str_eq-≡ n k e') in
      let clash : true ≡ false = sym (str_eq_refl n) ∙ ap (λ x. str_eq x n) (sym one) ∙ e in cc
  | inr e' ↦ e'
]

module _ {ℓ} {A : Type ℓ} where
  pub find-append :
      (name other : AString) (a : A) (xs : Named A)
      → find name xs ≡ none
      → find other (xs ++ (name, a) ∷ []) ≡ (if str_eq name other then some a else find other xs)
  unfolding find
  find-append name other a [] missing = refl
  find-append name other a ((m, x) ∷ xs) missing = elim (Bool-cases (str_eq m name)) [
    | inl e ↦
        let hit : some x ≡ none =
          subst (λ b. (if b then some x else find name xs) ≡ none) e missing in
        cc
    | inr e ↦
        let later =
          find-append name other a xs
            (subst (λ b. (if b then some x else find name xs) ≡ none) e missing) in
        elim (Bool-cases (str_eq m other)) [
          | inl e' ↦ rw (e', other_name m name other e e') refl
          | inr e' ↦ rw e' later
        ]
  ]

  pub find-replace :
      (name other : AString) (a y : A) (xs : Named A)
      → find name xs ≡ some y
      → find other (replace name a xs) ≡ (if str_eq name other then some a else find other xs)
  unfolding find replace
  find-replace name other a y [] found = cc
  find-replace name other a y ((m, x) ∷ xs) found = elim (Bool-cases (str_eq m name)) [
    | inl e ↦
        let same = same_name m name other e in
        elim (Bool-cases (str_eq name other)) [
          | inl e' ↦ rw (e, same, e') refl
          | inr e' ↦ rw (e, same, e') refl
        ]
    | inr e ↦
        let later =
          find-replace name other a y xs
            (subst (λ b. (if b then some x else find name xs) ≡ some y) e found) in
        elim (Bool-cases (str_eq m other)) [
          | inl e' ↦ rw (e, e', other_name m name other e e') refl
          | inr e' ↦ rw (e, e') later
        ]
  ]

-- The map of a key behind a change of it.
pub find-with_bucket :
    (key other : AString) (f : Bucket → Bucket) (keys : Named Bucket)
    → find other (with_bucket key f keys)
      ≡ (if str_eq key other then some (f (or_empty_bucket (find key keys))) else find other keys)
unfolding with_bucket
find-with_bucket key other f keys = elim (Option-cases (find key keys)) [
  | inl e ↦ rw (e, with_bucket) (find-append key other (f []) keys e)
  | inr (b, e) ↦ rw (e, with_bucket) (find-replace key other (f b) b keys e)
]
