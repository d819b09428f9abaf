-- ===== src/Settings/Laws/Overrides.antt =====
-- cOverridesSettingsRepository (Src/Server/OverridesSettingsRepository.cpp) over any two repositories.
use p2pchat.Prelude.{
  ◌≡◌, refl, sym, ap, subst, ◌∙◌, Bool, true, false, ◌||◌, if◌then◌else◌, Bool-cases, inl, inr,
}
use p2pchat.IniFile.{AString}
use p2pchat.Settings.Laws.{Repository, same_value, IsRepository}

-- The state is that of `m_Main` and that of `m_Overrides`.
module _ {S T : Type 0} (main : Repository S) (overrides : Repository T) where
  unfoldable pub overrides_has_value : AString → AString → S × T → Bool
  overrides_has_value key name (s, t) = overrides.has_value key name t || main.has_value key name s

  unfoldable pub overrides_get_value : AString → AString → AString → S × T → AString
  overrides_get_value key name default_value (s, t) =
      if overrides.has_value key name t
      then overrides.get_value key name default_value t
      else main.get_value key name default_value s

  abbrev pub in_main {ℓ} : {A : Type ℓ} → T → A × S → A × (S × T)
  in_main t (a, s) = (a, (s, t))

  abbrev pub in_overrides {ℓ} : {A : Type ℓ} → S → A × T → A × (S × T)
  in_overrides s (a, t) = (a, (s, t))

  unfoldable pub overrides_get_value_set : AString → AString → AString → S × T → AString × (S × T)
  overrides_get_value_set key name default_value (s, t) =
      if overrides.has_value key name t
      then in_overrides s (overrides.get_value_set key name default_value t)
      else in_main t (main.get_value_set key name default_value s)

  unfoldable pub overrides_set_value : AString → AString → AString → Bool → S × T → Bool × (S × T)
  overrides_set_value key name value create (s, t) =
      if overrides.has_value key name t
      then in_overrides s (overrides.set_value key name value create t)
      else in_main t (main.set_value key name value create s)

  unfoldable pub overrides_delete_value : AString → AString → S × T → Bool × (S × T)
  overrides_delete_value key name (s, t) =
      if overrides.has_value key name t
      then in_overrides s (overrides.delete_value key name t)
      else in_main t (main.delete_value key name s)

  abbrev pub overriding : Repository (S × T)
  overriding = record {
    has_value = overrides_has_value;
    get_value = overrides_get_value;
    get_value_set = overrides_get_value_set;
    set_value = overrides_set_value;
    delete_value = overrides_delete_value;
  }

  -- The two ways of a write and of a read.
  set_in_overrides :
      (key name value : AString) (create : Bool) (s : S) (t : T)
      → overrides.has_value key name t ≡ true
      → overrides_set_value key name value create (s, t)
        ≡ in_overrides s (overrides.set_value key name value create t)
  unfolding overrides_set_value
  set_in_overrides key name value create s t h = rw h refl

  set_in_main :
      (key name value : AString) (create : Bool) (s : S) (t : T)
      → overrides.has_value key name t ≡ false
      → overrides_set_value key name value create (s, t)
        ≡ in_main t (main.set_value key name value create s)
  unfolding overrides_set_value
  set_in_main key name value create s t h = rw h refl

  get_in_overrides :
      (key name default_value : AString) (s : S) (t : T)
      → overrides.has_value key name t ≡ true
      → overrides_get_value key name default_value (s, t)
        ≡ overrides.get_value key name default_value t
  unfolding overrides_get_value
  get_in_overrides key name d s t h = rw h refl

  get_in_main :
      (key name default_value : AString) (s : S) (t : T)
      → overrides.has_value key name t ≡ false
      → overrides_get_value key name default_value (s, t) ≡ main.get_value key name default_value s
  unfolding overrides_get_value
  get_in_main key name d s t h = rw h refl

  module _ (m : IsRepository main) (o : IsRepository overrides) where
    overrides_got :
        (key name value d : AString) (create : Bool) (s : S) (t : T)
        → (overrides_set_value key name value create (s, t)).0 ≡ true
        → overrides_get_value key name d (overrides_set_value key name value create (s, t)).1
          ≡ value
    overrides_got key name value d create s t e =
        elim (Bool-cases (overrides.has_value key name t)) [
          | inl h ↦
              let way = set_in_overrides key name value create s t h in
              let e' = sym (ap (λ r. r.0) way) ∙ e in
              rw way (
                get_in_overrides key name d s _ (o.kept_there key name value create t e')
                ∙ o.got key name value d create t e')
          | inr h ↦
              let way = set_in_main key name value create s t h in
              let e' = sym (ap (λ r. r.0) way) ∙ e in
              rw way (get_in_main key name d _ t h ∙ m.got key name value d create s e')
        ]

    overrides_kept_there :
        (key name value : AString) (create : Bool) (s : S) (t : T)
        → (overrides_set_value key name value create (s, t)).0 ≡ true
        → overrides_has_value key name (overrides_set_value key name value create (s, t)).1 ≡ true
    unfolding overrides_has_value
    overrides_kept_there key name value create s t e =
        elim (Bool-cases (overrides.has_value key name t)) [
          | inl h ↦
              let way = set_in_overrides key name value create s t h in
              rw way (rw (o.kept_there key name value create t (sym (ap (λ r. r.0) way) ∙ e)) refl)
          | inr h ↦
              let way = set_in_main key name value create s t h in
              rw way
                (rw (h, m.kept_there key name value create s (sym (ap (λ r. r.0) way) ∙ e)) refl)
        ]

    overrides_others_there :
        (key name value key' name' : AString) (create : Bool) (s : S) (t : T)
        → same_value key name key' name' ≡ false
        → overrides_has_value key' name' (overrides_set_value key name value create (s, t)).1
          ≡ overrides_has_value key' name' (s, t)
    unfolding overrides_has_value
    overrides_others_there key name value key' name' create s t apart =
        elim (Bool-cases (overrides.has_value key name t)) [
          | inl h ↦ rw (set_in_overrides key name value create s t h) (
              ap (λ b. b || main.has_value key' name' s)
                (o.others_there key name value key' name' create t apart))
          | inr h ↦ rw (set_in_main key name value create s t h) (
              ap (λ b. overrides.has_value key' name' t || b)
                (m.others_there key name value key' name' create s apart))
        ]

    overrides_others_got :
        (key name value d key' name' : AString) (create : Bool) (s : S) (t : T)
        → same_value key name key' name' ≡ false
        → overrides_get_value key' name' d (overrides_set_value key name value create (s, t)).1
          ≡ overrides_get_value key' name' d (s, t)
    unfolding overrides_get_value
    overrides_others_got key name value d key' name' create s t apart =
        elim (Bool-cases (overrides.has_value key name t)) [
          | inl h ↦
              rw
                (
                  set_in_overrides key name value create s t h,
                  o.others_there key name value key' name' create t apart,
                  o.others_got key name value d key' name' create t apart,
                )
                refl
          | inr h ↦
              rw
                (
                  set_in_main key name value create s t h,
                  m.others_got key name value d key' name' create s apart,
                )
                refl
        ]

    overrides_refused :
        (key name value : AString) (create : Bool) (s : S) (t : T)
        → (overrides_set_value key name value create (s, t)).0 ≡ false
        → (overrides_set_value key name value create (s, t)).1 ≡ (s, t)
    overrides_refused key name value create s t e =
        elim (Bool-cases (overrides.has_value key name t)) [
          | inl h ↦
              let way = set_in_overrides key name value create s t h in
              rw way
                (ap (λ x. (s, x)) (o.refused key name value create t (sym (ap (λ r. r.0) way) ∙ e)))
          | inr h ↦
              let way = set_in_main key name value create s t h in
              rw way
                (ap (λ x. (x, t)) (m.refused key name value create s (sym (ap (λ r. r.0) way) ∙ e)))
        ]

    overrides_missing :
        (key name d : AString) (s : S) (t : T)
        → overrides_has_value key name (s, t) ≡ false
        → overrides_get_value key name d (s, t) ≡ d
    unfolding overrides_has_value
    overrides_missing key name d s t e = elim (Bool-cases (overrides.has_value key name t)) [
      | inl h ↦
          let clash : true ≡ false = subst (λ b. (b || main.has_value key name s) ≡ false) h e in cc
      | inr h ↦
          get_in_main key name d s t h
          ∙ m.missing key name d s (subst (λ b. (b || main.has_value key name s) ≡ false) h e)
    ]

  -- Over two repositories that keep the promise, the overriding one keeps it: a value that was set is got
  -- back and is there, every other value stays as it was, a refusal changes nothing, and a value that is
  -- not there has the default.
  pub overriding-IsRepository : IsRepository main → IsRepository overrides → IsRepository overriding
  overriding-IsRepository m o = record {
    got = λ key name value d create w e. overrides_got m o key name value d create w.0 w.1 e;
    kept_there =
        λ key name value create w e. overrides_kept_there m o key name value create w.0 w.1 e;
    others_got = λ key name value d key' name' create w e.
        overrides_others_got m o key name value d key' name' create w.0 w.1 e;
    others_there = λ key name value key' name' create w e.
        overrides_others_there m o key name value key' name' create w.0 w.1 e;
    refused = λ key name value create w e. overrides_refused m o key name value create w.0 w.1 e;
    missing = λ key name d w e. overrides_missing m o key name d w.0 w.1 e;
  }
