-- ===== src/IniFile/Delete.antt =====
-- What is left when a value or a key of a settings file is deleted (Src/Server/IniFile.cpp).
use p2pchat.Prelude.{
  ℕ, ◌≡◌, refl, ap, subst, ◌∙◌, Bool, true, false, ◌&&◌, if◌then◌else◌, some, arith, Bool-cases,
  Option-cases, inl, inr, lt→ltb,
}
use p2pchat.IniFile.{
  AString, Key, IniFile, key_at, find_key, find_value, erase, delete_value_by_id, delete_value,
  delete_key, has_value, key_exists,
}
use p2pchat.IniFile.Assoc.{same, FoundAt, Answer, first-erase, length-erase, FoundAt-lt}
use p2pchat.IniFile.Lookup.{IsPaired, IsAligned, value_in, lookup, All-erase}
use p2pchat.IniFile.Update.{
  in_range, key_at-IsPaired, update_key-IsAligned, lookup-update_key, lookup_here,
}
use p2pchat.IniFile.Values.{at_key, value-Answer}

-- One setting at most differs from what it was.
record Kept (f : IniFile) (key name : AString) (f' : IniFile) : Type 0 where
  aligned : IsAligned f'
  seen :
      (k n : AString)
      → (if same f.is_case_insensitive key k && same f.is_case_insensitive name n
          then lookup f k n
          else lookup f' k n)
        ≡ lookup f k n

-- The vectors of a key stay equally long, and the names other than the one erased keep their values.
module _ (ci : Bool) (name : AString) (k : Key) (j : ℕ) (p : IsPaired k)
    (at : FoundAt ci name k.names j) where
  abbrev erased : Key
  erased = record k { names = erase k.names j; values = erase k.values j }

  erased-IsPaired : IsPaired erased
  erased-IsPaired =
      let h = FoundAt-lt ci name k.names j at in
      omega
        (arith, p, length-erase ci k.names j h, length-erase ci k.values j (omega (arith, p, h)))

  erased-first :
      (n : AString) → same ci name n ≡ false → value_in ci n (some erased) ≡ value_in ci n (some k)
  erased-first n d = first-erase ci name n k.names k.values j p at d

module _ (f : IniFile) (al : IsAligned f) (key name : AString) (i j : ℕ)
    (at : FoundAt f.is_case_insensitive key f.names i)
    (there : FoundAt f.is_case_insensitive name (key_at f i).names j) where
  delete_found : let (r, f') = delete_value_by_id f i j in (r ≡ true) × Kept f key name f'
  unfolding delete_value_by_id
  delete_found =
      let p = key_at-IsPaired f al key i at in
      let ci = f.is_case_insensitive in
      let erase_it : Key → Key =
        λ k. record k { names = erase k.names j; values = erase k.values j } in
      rw
        (
          lt→ltb _ _ (in_range f al key i at),
          lt→ltb _ _ (FoundAt-lt ci name (key_at f i).names j there),
        )
        (
          refl,
          record {
            aligned =
                update_key-IsAligned f al key i at erase_it
                  (erased-IsPaired ci name (key_at f i) j p there);
            seen = λ k n.
                ap (λ o. if same ci key k && same ci name n then lookup f k n else o)
                  (lookup-update_key f al key i at erase_it k n)
                ∙ elim (Bool-cases (same ci key k)) [
                  | inr e ↦ rw e
                  | inl e ↦ elim (Bool-cases (same ci name n)) [
                    | inl h ↦ rw (e, h)
                    | inr h ↦ rw (
                      e,
                      h,
                      erased-first ci name (key_at f i) j p there n h,
                      lookup_here f al key i at k n e,
                    )
                  ]
                ];
          },
        )

delete_cases :
    (f : IniFile) (key name : AString)
    → IsAligned f
    → let (r, f') = delete_value key name f in (r ≡ has_value f key name) × Kept f key name f'
unfolding delete_value has_value
delete_cases f key name al =
    let same_file : Kept f key name f = record { aligned = al; seen = λ k n. ground arith } in
    elim (Option-cases (find_key f key)) [
      | inl e ↦ rw (delete_value, has_value, e) (refl, same_file)
      | inr (i, e) ↦ elim (Option-cases (find_value f i name)) [
        | inl g ↦ rw (delete_value, has_value, e, g) (refl, same_file)
        | inr (j, g) ↦
            rw (delete_value, has_value, e, g)
              (delete_found f al key name i j (at_key f al key name i e) (
                subst (Answer f.is_case_insensitive name (key_at f i).names) g
                  (value-Answer f al key name i e)))
      ]
    ]

-- On an aligned file `delete_value` succeeds where `has_value` holds and nowhere else, keeps the
-- vectors aligned, and leaves the setting of any key and value of which one has another name.
pub delete_value_lem :
    (f : IniFile) (key name k n : AString)
    → IsAligned f
    → same f.is_case_insensitive key k && same f.is_case_insensitive name n ≡ false
    → let (r, f') = delete_value key name f in
      (r ≡ has_value f key name) × IsAligned f' × (lookup f' k n ≡ lookup f k n)
delete_value_lem f key name k n al d =
    let (answer, kept) = delete_cases f key name al in
    (
      answer,
      kept.aligned,
      subst
          (λ b. (if b then lookup f k n else lookup (delete_value key name f).1 k n) ≡ lookup f k n)
          d (kept.seen k n),
    )

-- On an aligned file `delete_key` succeeds where `key_exists` holds and nowhere else, keeps the
-- vectors aligned, and leaves the settings of a key with another name.
pub delete_key_lem :
    (f : IniFile) (key k n : AString)
    → IsAligned f
    → same f.is_case_insensitive key k ≡ false
    → let (r, f') = delete_key key f in
      (r ≡ key_exists f key) × IsAligned f' × (lookup f' k n ≡ lookup f k n)
unfolding delete_key key_exists
delete_key_lem f key k n al d = elim (Option-cases (find_key f key)) [
  | inl e ↦ rw (delete_key, key_exists, e) (refl, al, refl)
  | inr (i, e) ↦
      let at = at_key f al key n i e in
      let h = FoundAt-lt f.is_case_insensitive key f.names i at in
      rw (delete_key, key_exists, e)
        (
          refl,
          record {
            named = omega (
              arith,
              al.named,
              length-erase f.is_case_insensitive f.names i h,
              length-erase f.is_case_insensitive f.keys i (omega (arith, al.named, h)),
            );
            paired = All-erase IsPaired f.keys i al.paired;
          },
          ap (value_in f.is_case_insensitive n)
              (first-erase f.is_case_insensitive key k f.names f.keys i al.named at d),
        )
]
