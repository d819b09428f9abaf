-- ===== src/IniFile/Lookup.antt =====
-- The settings of a file (Src/Server/IniFile.cpp) as a partial map from a key's and a value's name to
-- a value, and the vectors that stand side by side in it.
use p2pchat.Prelude.{
  ℕ, zero, suc, ◌<◌, ◌≡◌, Bool, Option, none, some, List, [], ◌∷◌, ◌++◌, length, get_or, set, All,
  arith, lt→leb,
}
use p2pchat.IniFile.{AString, Key, IniFile, find_key, find_value, key_at, erase}
use p2pchat.IniFile.Assoc.{first, Answer, find_name_lem}

-- `names` and `keys`, and in a key `names` and `values`, are equally long.
abbrev pub IsPaired : Key → Type 0
IsPaired k = length k.names ≡ length k.values

pub record IsAligned (f : IniFile) : Type 0 where
  pub named : length f.names ≡ length f.keys
  pub paired : All IsPaired f.keys

abbrev pub value_in : Bool → AString → Option Key → Option AString
value_in ci name none = none
value_in ci name (some k) = first ci name k.names k.values

abbrev pub lookup : IniFile → AString → AString → Option AString
lookup f key name =
    value_in f.is_case_insensitive name (first f.is_case_insensitive key f.names f.keys)

module _ {ℓ κ} {A : Type ℓ} (P : A → Type κ) where
  pub All-get_or : (xs : List A) (i : ℕ) (d : A) → All P xs → i < length xs → P (get_or xs i d)
  All-get_or [] i d a h = absurd (omega arith)
  All-get_or (x ∷ xs) zero d (p, a) h = p
  All-get_or (x ∷ xs) (suc i) d (p, a) h = All-get_or xs i d a (omega arith)

  pub All-set : (xs : List A) (i : ℕ) (y : A) → All P xs → P y → All P (set xs i y)
  All-set [] i y a q = tt
  All-set (x ∷ xs) zero y (p, a) q = (q, a)
  All-set (x ∷ xs) (suc i) y (p, a) q = (p, All-set xs i y a q)

  pub All-append : (xs ys : List A) → All P xs → All P ys → All P (xs ++ ys)
  All-append [] ys a b = b
  All-append (x ∷ xs) ys (p, a) b = (p, All-append xs ys a b)

  pub All-erase : (xs : List A) (i : ℕ) → All P xs → All P (erase xs i)
  unfolding erase
  All-erase [] zero a = tt
  All-erase [] (suc i) a = tt
  All-erase (x ∷ xs) zero (p, a) = a
  All-erase (x ∷ xs) (suc i) (p, a) = (p, All-erase xs i a)

pub find_key_lem :
    (f : IniFile) (key : AString) → Answer f.is_case_insensitive key f.names (find_key f key)
unfolding find_key
find_key_lem f key = find_name_lem f.is_case_insensitive key f.names

pub find_value_lem :
    (f : IniFile) (i : ℕ) (name : AString)
    → i < length f.keys
    → Answer f.is_case_insensitive name (key_at f i).names (find_value f i name)
unfolding find_value
find_value_lem f i name h =
    rw (lt→leb _ _ h) (find_name_lem f.is_case_insensitive name (key_at f i).names)
