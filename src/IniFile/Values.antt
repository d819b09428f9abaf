-- ===== src/IniFile/Values.antt =====
-- The values of a settings file (Src/Server/IniFile.cpp): what is set is what is read, for the name
-- that was set and for no other.
use p2pchat.Prelude.{
  ℕ, ◌≡◌, refl, sym, ap, subst, ◌∙◌, Bool, true, false, ◌&&◌, if◌then◌else◌, Option, none, some, [],
  ◌∷◌, get_or, set, length-set, length-append, arith, Bool-cases, Option-cases, inl, inr,
}
use p2pchat.IniFile.{
  AString, Key, IniFile, key_at, find_key, find_value, update_key, add_key_name, push_value,
  set_in_key, set_value, get_value, get_value_set, has_value,
}
use p2pchat.IniFile.Assoc.{
  same, FoundAt, Answer, first_absent, first_found, first-set, first-append,
}
use p2pchat.IniFile.Lookup.{IsPaired, IsAligned, value_in, lookup, find_key_lem, find_value_lem}
use p2pchat.IniFile.Update.{
  in_range, key_at-IsPaired, first-key_at, update_key-IsAligned, lookup-update_key, lookup_here,
  add_key_name-IsAligned, add_key_name-FoundAt, lookup-add_key_name,
}

abbrev pub or_default : AString → Option AString → AString
or_default d none = d
or_default d (some x) = x

abbrev pub is_some : Option AString → Bool
is_some none = false
is_some (some x) = true

-- The setting is found by `find_value` in the key that was found.
module _ (f : IniFile) (al : IsAligned f) (key name : AString) where
  pub lookup_absent : find_key f key ≡ none → lookup f key name ≡ none
  lookup_absent e = ap (value_in f.is_case_insensitive name) (
      first_absent f.is_case_insensitive key f.names f.keys
        (subst (Answer f.is_case_insensitive key f.names) e (find_key_lem f key)))

  pub at_key : (i : ℕ) → find_key f key ≡ some i → FoundAt f.is_case_insensitive key f.names i
  at_key i e = subst (Answer f.is_case_insensitive key f.names) e (find_key_lem f key)

  module _ (i : ℕ) (e : find_key f key ≡ some i) where
    pub value-Answer : Answer f.is_case_insensitive name (key_at f i).names (find_value f i name)
    value-Answer = find_value_lem f i name (in_range f al key i (at_key i e))

    pub lookup_no_value : find_value f i name ≡ none → lookup f key name ≡ none
    lookup_no_value g =
        ap (value_in f.is_case_insensitive name) (first-key_at f al key i (at_key i e))
        ∙ first_absent f.is_case_insensitive name (key_at f i).names (key_at f i).values
            (subst (Answer f.is_case_insensitive name (key_at f i).names) g value-Answer)

    pub lookup_value :
        (j : ℕ)
        → find_value f i name ≡ some j
        → lookup f key name ≡ some (get_or (key_at f i).values j [])
    lookup_value j g =
        ap (value_in f.is_case_insensitive name) (first-key_at f al key i (at_key i e))
        ∙ first_found f.is_case_insensitive name (key_at f i).names (key_at f i).values j []
            (key_at-IsPaired f al key i (at_key i e))
            (subst (Answer f.is_case_insensitive name (key_at f i).names) g value-Answer)

-- In an aligned file `get_value` returns the setting of the first key with that name and the first
-- value with that name in it, names being compared up to case as the file wants, or else the default.
pub get_value_lem :
    (f : IniFile) (key name d : AString)
    → IsAligned f
    → get_value f key name d ≡ or_default d (lookup f key name)
unfolding get_value
get_value_lem f key name d al = elim (Option-cases (find_key f key)) [
  | inl e ↦ rw (get_value, e, lookup_absent f al key name e)
  | inr (i, e) ↦ elim (Option-cases (find_value f i name)) [
    | inl g ↦ rw (get_value, e, g, lookup_no_value f al key name i e g)
    | inr (j, g) ↦ rw (get_value, e, g, lookup_value f al key name i e j g)
  ]
]

-- In an aligned file `has_value` holds exactly for the names that have a setting.
pub has_value_lem :
    (f : IniFile) (key name : AString)
    → IsAligned f
    → has_value f key name ≡ is_some (lookup f key name)
unfolding has_value
has_value_lem f key name al = elim (Option-cases (find_key f key)) [
  | inl e ↦ rw (has_value, e, lookup_absent f al key name e)
  | inr (i, e) ↦ elim (Option-cases (find_value f i name)) [
    | inl g ↦ rw (has_value, e, g, lookup_no_value f al key name i e g)
    | inr (j, g) ↦ rw (has_value, e, g, lookup_value f al key name i e j g)
  ]
]

-- A file in which one setting has been stored: whoever asks for it under any spelling that counts as
-- the same gets the new value, and whoever asks for another gets what was there.
pub record Stored (f : IniFile) (key name x : AString) (f' : IniFile) : Type 0 where
  pub aligned : IsAligned f'
  pub seen :
      (k n : AString)
      → lookup f' k n ≡ (
          if same f.is_case_insensitive key k && same f.is_case_insensitive name n
          then some x
          else lookup f k n)

push_value-IsPaired : (name x : AString) (k : Key) → IsPaired k → IsPaired (push_value name x k)
unfolding push_value
push_value-IsPaired name x k p =
    omega (arith, p, length-append k.names (name ∷ []), length-append k.values (x ∷ []))

first-push_value :
    (ci : Bool) (name x : AString) (k : Key)
    → IsPaired k
    → Answer ci name k.names none
    → (n : AString)
    → value_in ci n (some (push_value name x k))
      ≡ (if same ci name n then some x else value_in ci n (some k))
unfolding push_value
first-push_value ci name x k p absent n = first-append ci name n k.names k.values x p absent

module _ (f : IniFile) (al : IsAligned f) (key name x : AString) (i : ℕ)
    (at : FoundAt f.is_case_insensitive key f.names i) where
  update_key-Stored :
      (change : Key → Key)
      → IsPaired (change (key_at f i))
      → ((n : AString)
          → value_in f.is_case_insensitive n (some (change (key_at f i))) ≡ (
              if same f.is_case_insensitive name n
              then some x
              else value_in f.is_case_insensitive n (some (key_at f i))))
      → Stored f key name x (update_key i change f)
  update_key-Stored change p h = record {
    aligned = update_key-IsAligned f al key i at change p;
    seen = λ k n.
        lookup-update_key f al key i at change k n
        ∙ elim (Bool-cases (same f.is_case_insensitive key k)) [
          | inl e ↦ rw (e, h n, lookup_here f al key i at k n e)
          | inr e ↦ rw e
        ];
  }

  set_in_key-Stored :
      let (r, f') = set_in_key i name x true f in (r ≡ true) × Stored f key name x f'
  unfolding set_in_key
  set_in_key-Stored =
      let answer = find_value_lem f i name (in_range f al key i at) in
      let pair = key_at-IsPaired f al key i at in
      elim (Option-cases (find_value f i name)) [
        | inl g ↦
            rw (set_in_key, g)
              (
                refl,
                update_key-Stored (push_value name x) (push_value-IsPaired name x (key_at f i) pair)
                    (λ n.
                      first-push_value f.is_case_insensitive name x (key_at f i) pair
                        (subst (Answer f.is_case_insensitive name (key_at f i).names) g answer) n),
              )
        | inr (j, g) ↦
            rw (set_in_key, g)
              (
                refl,
                update_key-Stored (λ k. record k { values = set k.values j x })
                    (pair ∙ sym (length-set (key_at f i).values j x))
                    (λ n.
                      first-set f.is_case_insensitive name n (key_at f i).names (key_at f i).values
                        j x pair
                        (subst (Answer f.is_case_insensitive name (key_at f i).names) g answer)),
              )
      ]

module _ (f : IniFile) (al : IsAligned f) (key name x : AString)
    (absent : Answer f.is_case_insensitive key f.names none) where
  set_in_added :
      let (i, g) = add_key_name f key in
      let (r, f') = set_in_key i name x true g in (r ≡ true) × Stored f key name x f'
  unfolding add_key_name
  set_in_added =
      let (i, g) = add_key_name f key in
      let s =
        set_in_key-Stored g (add_key_name-IsAligned f al key absent) key name x i
          (add_key_name-FoundAt f al key absent) in
      (
        s.0,
        record {
          aligned = s.1.aligned;
          seen = λ k n.
              s.1.seen k n
              ∙ ap
                  (λ o.
                    if same f.is_case_insensitive key k && same f.is_case_insensitive name n
                    then some x
                    else o)
                  (lookup-add_key_name f al key absent k n);
        },
      )

-- On an aligned file a `set_value` that may create succeeds, keeps the vectors aligned, and stores
-- that setting alone: it is found under every spelling of its names, and all others are as before.
pub set_value_lem :
    (f : IniFile) (key name x : AString)
    → IsAligned f
    → let (r, f') = set_value key name x true f in (r ≡ true) × Stored f key name x f'
unfolding set_value
set_value_lem f key name x al = elim (Option-cases (find_key f key)) [
  | inr (i, e) ↦ rw (set_value, e) (set_in_key-Stored f al key name x i (at_key f al key name i e))
  | inl e ↦
      let absent = subst (Answer f.is_case_insensitive key f.names) e (find_key_lem f key) in
      rw (set_value, e) (set_in_added f al key name x absent)
]

-- A `set_value` that may not create does what one that may does where `has_value` holds, and elsewhere
-- it fails and changes nothing.
pub set_value_existing :
    (f : IniFile) (key name x : AString)
    → set_value key name x false f
      ≡ (if has_value f key name then set_value key name x true f else (false, f))
unfolding set_value set_in_key has_value
set_value_existing f key name x = elim (Option-cases (find_key f key)) [
  | inl e ↦ rw (set_value, has_value, e)
  | inr (i, e) ↦ elim (Option-cases (find_value f i name)) [
    | inl g ↦ rw (set_value, has_value, set_in_key, e, g)
    | inr (j, g) ↦ rw (set_value, has_value, set_in_key, e, g)
  ]
]

-- `get_value_set` returns what `get_value` does, and where `has_value` does not hold it leaves the
-- file as a `set_value` of the default does.
pub get_value_set_lem :
    (f : IniFile) (key name d : AString)
    → get_value_set key name d f ≡ (
      get_value f key name d,
      if has_value f key name then f else (set_value key name d true f).1,
    )
unfolding get_value_set get_value has_value
get_value_set_lem f key name d = elim (Option-cases (find_key f key)) [
  | inl e ↦ rw (get_value_set, get_value, has_value, e)
  | inr (i, e) ↦ elim (Option-cases (find_value f i name)) [
    | inl g ↦ rw (get_value_set, get_value, has_value, e, g)
    | inr (j, g) ↦ rw (get_value_set, get_value, has_value, e, g)
  ]
]
