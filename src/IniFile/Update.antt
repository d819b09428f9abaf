-- ===== src/IniFile/Update.antt =====
-- A change of one key of a settings file (Src/Server/IniFile.cpp), and what is found afterwards.
use p2pchat.Prelude.{
  ℕ, ◌<◌, ◌≡◌, refl, sym, ap, ◌∙◌, true, if◌then◌else◌, none, some, [], ◌∷◌, length, length-set,
  length-append, arith, Bool-cases, inl, inr,
}
use p2pchat.IniFile.{AString, Key, IniFile, no_key, key_at, update_key, add_key_name}
use p2pchat.IniFile.Assoc.{
  first, same, FoundAt, Answer, first_absent, first_found, first-same, first-set, first-append,
  FoundAt-lt, FoundAt-end,
}
use p2pchat.IniFile.Lookup.{IsPaired, IsAligned, value_in, lookup, All-get_or, All-set, All-append}

module _ (f : IniFile) (al : IsAligned f) (key : AString) (i : ℕ)
    (at : FoundAt f.is_case_insensitive key f.names i) where
  pub in_range : i < length f.keys
  in_range = omega (arith, FoundAt-lt f.is_case_insensitive key f.names i at, al.named)

  pub key_at-IsPaired : IsPaired (key_at f i)
  unfolding key_at
  key_at-IsPaired = All-get_or IsPaired f.keys i no_key al.paired in_range

  pub first-key_at : first f.is_case_insensitive key f.names f.keys ≡ some (key_at f i)
  unfolding key_at
  first-key_at = first_found f.is_case_insensitive key f.names f.keys i no_key al.named at

  -- The settings under another spelling of the key.
  pub lookup_here :
      (k n : AString)
      → same f.is_case_insensitive key k ≡ true
      → lookup f k n ≡ first f.is_case_insensitive n (key_at f i).names (key_at f i).values
  lookup_here k n h =
      ap (value_in f.is_case_insensitive n)
        (first-same f.is_case_insensitive key k f.names f.keys h ∙ first-key_at)

  pub update_key-IsAligned :
      (change : Key → Key) → IsPaired (change (key_at f i)) → IsAligned (update_key i change f)
  unfolding update_key
  update_key-IsAligned change p = record {
    named = al.named ∙ sym (length-set f.keys i (change (key_at f i)));
    paired = All-set IsPaired f.keys i (change (key_at f i)) al.paired p;
  }

  pub lookup-update_key :
      (change : Key → Key) (k n : AString)
      → lookup (update_key i change f) k n ≡ (
          if same f.is_case_insensitive key k
          then value_in f.is_case_insensitive n (some (change (key_at f i)))
          else lookup f k n)
  unfolding update_key
  lookup-update_key change k n =
      ap (value_in f.is_case_insensitive n)
        (first-set f.is_case_insensitive key k f.names f.keys i (change (key_at f i)) al.named at)
      ∙ elim (Bool-cases (same f.is_case_insensitive key k)) [ inl h ↦ rw h | inr h ↦ rw h ]

-- A key that was missing is added, with nothing in it.
module _ (f : IniFile) (al : IsAligned f) (key : AString)
    (absent : Answer f.is_case_insensitive key f.names none) where
  pub add_key_name-IsAligned : IsAligned (add_key_name f key).1
  unfolding add_key_name
  add_key_name-IsAligned = record {
    named =
        omega
          (arith, length-append f.names (key ∷ []), length-append f.keys (no_key ∷ []), al.named);
    paired = All-append IsPaired f.keys (no_key ∷ []) al.paired (refl, tt);
  }

  pub add_key_name-FoundAt :
      FoundAt f.is_case_insensitive key (add_key_name f key).1.names (add_key_name f key).0
  unfolding add_key_name
  add_key_name-FoundAt = FoundAt-end f.is_case_insensitive key f.names absent

  pub lookup-add_key_name : (k n : AString) → lookup (add_key_name f key).1 k n ≡ lookup f k n
  unfolding add_key_name
  lookup-add_key_name k n =
      ap (value_in f.is_case_insensitive n)
        (first-append f.is_case_insensitive key k f.names f.keys no_key al.named absent)
      ∙ elim (Bool-cases (same f.is_case_insensitive key k)) [
        | inr h ↦ rw h
        | inl h ↦ rw (
          h,
          first-same f.is_case_insensitive key k f.names f.keys h,
          first_absent f.is_case_insensitive key f.names f.keys absent,
        )
      ]
