-- ===== src/Settings/Laws/Memory.antt =====
-- The settings in memory keep the promise of a repository (Src/Server/MemorySettingsRepository.cpp).
use p2pchat.Prelude.{
  ◌≡◌, refl, sym, ap, ◌∙◌, subst, Bool, true, false, ◌⊎◌, Option, none, some, [], ◌∷◌, ◌++◌,
  if◌then◌else◌, Bool-cases, Option-cases, inl, inr,
}
use p2pchat.IniFile.{AString, str_eq}
use p2pchat.IniFile.Assoc.{str_eq-≡, str_eq_refl}
use p2pchat.Settings.{
  Value, text, Bucket, Memory, find, replace, with_bucket, or_empty_bucket, is_found, look_up,
  memory_has_value, memory_get_value, memory_get_value_set, memory_add_value, memory_set,
  memory_set_value, memory_delete_value, get_string_value,
}
use p2pchat.Settings.Lookup.{find-append, find-replace, find-with_bucket}
use p2pchat.Settings.Laws.{Repository, same_value, IsRepository}

abbrev pub memory : Repository Memory
memory = record {
  has_value = memory_has_value;
  get_value = memory_get_value;
  get_value_set = memory_get_value_set;
  set_value = memory_set_value;
  delete_value = memory_delete_value;
}

-- What is found behind a write of one value.
abbrev Stores : AString → AString → Value → Memory → Memory → Type 0
Stores key name v m m' =
    (key' name' : AString)
    → look_up key' name' m'
      ≡ (if same_value key name key' name' then some v else look_up key' name' m)

with_bucket-Stores :
    (key name : AString) (v : Value) (f : Bucket → Bucket) (m : Memory)
    → ((other : AString)
        → find other (f (or_empty_bucket (find key m.keys)))
          ≡ (if str_eq name other then some v else find other (or_empty_bucket (find key m.keys))))
    → Stores key name v m (record m { keys = with_bucket key f m.keys })
unfolding look_up
with_bucket-Stores key name v f m h key' name' = elim (Bool-cases (str_eq key key')) [
  | inl e ↦
      rw (find-with_bucket key key' f m.keys, e)
        (h name'
          ∙ ap
              (λ k.
                if str_eq name name' then some v else find name' (or_empty_bucket (find k m.keys)))
              (str_eq-≡ key key' e))
  | inr e ↦ rw (find-with_bucket key key' f m.keys, e) refl
]

memory_add_value_lem :
    (key name : AString) (v : Value) (m : Memory)
    → m.writable ≡ true
    → memory_add_value key name v m
      ≡ record m { keys = with_bucket key (λ b. b ++ (name, v) ∷ []) m.keys }
unfolding memory_add_value
memory_add_value_lem key name v m w =
    ap (λ b. if b then record m { keys = with_bucket key (λ b. b ++ (name, v) ∷ []) m.keys } else m)
      w

abbrev SetEnds : AString → AString → Value → Memory → Bool × Memory → Type 0
SetEnds key name v m (r, m') = ((r ≡ true) × Stores key name v m m') ⊎ ((r ≡ false) × (m' ≡ m))

memory_set-added :
    (key name : AString) (v : Value) (create : Bool) (m : Memory)
    → m.writable ≡ true
    → look_up key name m ≡ none
    → SetEnds key name v m (create, if create then memory_add_value key name v m else m)
unfolding look_up
memory_set-added key name v true m w e = inl (
  refl,
  subst (Stores key name v m) (sym (memory_add_value_lem key name v m w)) (
      with_bucket-Stores key name v (λ b. b ++ (name, v) ∷ []) m
        (λ other. find-append name other v _ e)),
)
memory_set-added key name v false m w e = inr (refl, refl)

memory_set_cases :
    (key name : AString) (v : Value) (create : Bool) (m : Memory)
    → m.writable ≡ true
    → SetEnds key name v m (memory_set key name v create m)
unfolding memory_set look_up
memory_set_cases key name v create m w = elim (Option-cases (look_up key name m)) [
  | inl e ↦ rw (e, memory_set) (memory_set-added key name v create m w e)
  | inr (old, e) ↦
      rw (e, memory_set)
        (inl (
          refl,
          with_bucket-Stores key name v (replace name v) m
              (λ other. find-replace name other v old _ e),
        ))
]

memory_set_value_cases :
    (key name value : AString) (create : Bool) (m : Memory)
    → SetEnds key name (text value) m (memory_set_value key name value create m)
unfolding memory_set_value
memory_set_value_cases key name value create m = elim (Bool-cases m.writable) [
  | inl w ↦
      subst (SetEnds key name (text value) m)
        (ap (λ b. if b then memory_set key name (text value) create m else (false, m)) (sym w))
        (memory_set_cases key name (text value) create m w)
  | inr w ↦
      subst (SetEnds key name (text value) m)
        (ap (λ b. if b then memory_set key name (text value) create m else (false, m)) (sym w))
        (inr (refl, refl))
]

same_value_refl : (key name : AString) → same_value key name key name ≡ true
same_value_refl key name = rw (str_eq_refl key, str_eq_refl name) refl

-- A successful write, by what is found behind it.
stored :
    (key name value : AString) (create : Bool) (m : Memory)
    → (memory_set_value key name value create m).0 ≡ true
    → look_up key name (memory_set_value key name value create m).1 ≡ some (text value)
stored key name value create m e = elim (memory_set_value_cases key name value create m) [
  | inl (r, stores) ↦
      stores key name
      ∙ ap (λ b. if b then some (text value) else look_up key name m) (same_value_refl key name)
  | inr (r, same) ↦ let clash : true ≡ false = sym e ∙ r in cc
]

others :
    (key name value key' name' : AString) (create : Bool) (m : Memory)
    → same_value key name key' name' ≡ false
    → look_up key' name' (memory_set_value key name value create m).1 ≡ look_up key' name' m
others key name value key' name' create m apart =
    elim (memory_set_value_cases key name value create m) [
      | inl (r, stores) ↦
          stores key' name' ∙ ap (λ b. if b then some (text value) else look_up key' name' m) apart
      | inr (r, same) ↦ ap (look_up key' name') same
    ]

abbrev got_by : Option Value → AString → AString
got_by none d = d
got_by (some v) d = get_string_value v

memory_get_value_lem :
    (key name d : AString) (m : Memory)
    → memory_get_value key name d m ≡ got_by (look_up key name m) d
unfolding memory_get_value
memory_get_value_lem key name d m = elim (Option-cases (look_up key name m)) [
  | inl e ↦ rw (e, memory_get_value) refl
  | inr (v, e) ↦ rw (e, memory_get_value) refl
]

not_found : (o : Option Value) (d : AString) → is_found o ≡ false → got_by o d ≡ d
not_found none d e = refl
not_found (some v) d e = cc

-- The settings in memory keep the promise of a repository, also where they are read-only, when every
-- write is refused: a value that was set is got back and is there, every other value stays as it was, a
-- refusal changes nothing, and a value that is not there has the default.
pub memory-IsRepository : IsRepository memory
unfolding memory_has_value get_string_value
memory-IsRepository = record {
  got = λ key name value d create m e.
      memory_get_value_lem key name d _ ∙ ap (λ o. got_by o d) (stored key name value create m e);
  kept_there = λ key name value create m e. ap is_found (stored key name value create m e);
  others_got = λ key name value d key' name' create m apart.
      memory_get_value_lem key' name' d _
      ∙ ap (λ o. got_by o d) (others key name value key' name' create m apart)
      ∙ sym (memory_get_value_lem key' name' d m);
  others_there = λ key name value key' name' create m apart.
      ap is_found (others key name value key' name' create m apart);
  refused = λ key name value create m e. elim (memory_set_value_cases key name value create m) [
    | inl (r, stores) ↦ let clash : true ≡ false = sym r ∙ e in cc
    | inr (r, same) ↦ same
  ];
  missing =
      λ key name d m e. memory_get_value_lem key name d m ∙ not_found (look_up key name m) d e;
}
