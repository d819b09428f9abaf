-- ===== src/IniFile.antt =====
-- Src/Server/IniFile.cpp: the keys, values and comments of a settings file. A string is the list of
-- its bytes. `none` is `noID`, and an ID is a number: a negative one other than `noID` would index
-- before the start of a vector.
pub mod Assoc
pub mod Lookup
pub mod Update
pub mod Values
pub mod Delete
pub mod Comments
pub mod Format
mod Tests
use p2pchat.Prelude.{
  ℕ, zero, suc, ◌+◌, ◌-◌, Bool, true, false, not, ◌&&◌, ◌||◌, Option, none, some, List, [], ◌∷◌,
  ◌++◌, map, length, get_or, set, take, drop, ltb, leb, ◌==◌, if◌then◌else◌,
}
use mathlib.Core.Option

abbrev pub AString : Type 0
AString = List ℕ

-- The struct `key`.
pub record Key : Type 0 where
  pub names : List AString
  pub values : List AString
  pub comments : List AString

-- `m_IsCaseInsensitive`, `keys`, `names` and `comments`.
pub record IniFile : Type 0 where
  pub is_case_insensitive : Bool
  pub keys : List Key
  pub names : List AString
  pub comments : List AString

-- An element that `resize` makes.
abbrev pub no_key : Key
no_key = record { names = []; values = []; comments = [] }

-- The constructor.
unfoldable pub init : IniFile
init = record { is_case_insensitive = true; keys = []; names = []; comments = [] }

unfoldable pub case_sensitive : IniFile → IniFile
case_sensitive f = record f { is_case_insensitive = false }

unfoldable pub case_insensitive : IniFile → IniFile
case_insensitive f = record f { is_case_insensitive = true }

-- `tolower` in the "C" locale.
unfoldable pub tolower : ℕ → ℕ
tolower c = if leb 65 c && leb c 90 then c + 32 else c

-- `CheckCase`, of a file that has the flag.
unfoldable pub check_case : Bool → AString → AString
check_case ci s = if not ci then s else map tolower s

-- `operator ==` of strings.
unfoldable pub str_eq : AString → AString → Bool
str_eq [] [] = true
str_eq [] (d ∷ t) = false
str_eq (c ∷ s) [] = false
str_eq (c ∷ s) (d ∷ t) = (c == d) && str_eq s t

-- The loop of `FindKey` and of `FindValue`: the first name that is `name` up to case.
unfoldable pub find_name : Bool → AString → List AString → Option ℕ
find_name ci name [] = none
find_name ci name (x ∷ xs) =
    let rest = find_name ci name xs in
    if str_eq (check_case ci x) (check_case ci name) then some 0 else Option.map suc rest

unfoldable pub find_key : IniFile → AString → Option ℕ
find_key f name = find_name f.is_case_insensitive name f.names

-- `keys[keyID]`; where the index is out of range, C++ leaves it undefined.
unfoldable pub key_at : IniFile → ℕ → Key
key_at f i = get_or f.keys i no_key

unfoldable pub find_value : IniFile → ℕ → AString → Option ℕ
find_value f i name =
    if leb (length f.keys) i then none else find_name f.is_case_insensitive name (key_at f i).names

unfoldable pub add_key_name : IniFile → AString → ℕ × IniFile
add_key_name f name =
    (length f.names, record f { names = f.names ++ name ∷ []; keys = f.keys ++ no_key ∷ [] })

unfoldable pub get_key_name : IniFile → ℕ → AString
get_key_name f i = if ltb i (length f.names) then get_or f.names i [] else []

unfoldable pub get_num_values : IniFile → ℕ → ℕ
get_num_values f i = if ltb i (length f.keys) then length (key_at f i).names else 0

unfoldable pub get_num_values_of : IniFile → AString → ℕ
get_num_values_of f name = elim (find_key f name) [ none ↦ 0 | some i ↦ length (key_at f i).names ]

unfoldable pub get_value_name : IniFile → ℕ → ℕ → AString
get_value_name f i j =
    if ltb i (length f.keys) && ltb j (length (key_at f i).names)
    then get_or (key_at f i).names j []
    else []

unfoldable pub get_value_name_of : IniFile → AString → ℕ → AString
get_value_name_of f name j = elim (find_key f name) [ none ↦ [] | some i ↦ get_value_name f i j ]

-- `push_back` of a name and its value.
unfoldable pub push_value : AString → AString → Key → Key
push_value name value k = record k { names = k.names ++ name ∷ []; values = k.values ++ value ∷ [] }

-- A change of `keys[keyID]`.
unfoldable pub update_key : ℕ → (Key → Key) → IniFile → IniFile
update_key i change f = record f { keys = set f.keys i (change (key_at f i)) }

-- `FindKey`, and `AddKeyName` where there is none.
unfoldable pub find_or_add_key : IniFile → AString → ℕ × IniFile
find_or_add_key f name = elim (find_key f name) [ none ↦ add_key_name f name | some i ↦ (i, f) ]

unfoldable pub add_value : AString → AString → AString → IniFile → IniFile
add_value key name value f =
    let (i, f') = find_or_add_key f key in update_key i (push_value name value) f'

-- `SetValue` by IDs.
unfoldable pub set_value_at : IniFile → ℕ → ℕ → AString → Bool × IniFile
set_value_at f i j value =
    if leb (length f.keys) i || leb (length (key_at f i).names) j
    then (false, f)
    else (true, update_key i (λ k. record k { values = set k.values j value }) f)

-- The second half of `SetValue` by names.
unfoldable pub set_in_key : ℕ → AString → AString → Bool → IniFile → Bool × IniFile
set_in_key i name value create f = elim (find_value f i name) [
  | none ↦ if not create then (false, f) else (true, update_key i (push_value name value) f)
  | some j ↦ (true, update_key i (λ k. record k { values = set k.values j value }) f)
]

unfoldable pub set_value : AString → AString → AString → Bool → IniFile → Bool × IniFile
set_value key name value create f = elim (find_key f key) [
  | none ↦
      if not create
      then (false, f)
      else let (i, f') = add_key_name f key in set_in_key i name value create f'
  | some i ↦ set_in_key i name value create f
]

-- `GetValue` by IDs.
unfoldable pub get_value_at : IniFile → ℕ → ℕ → AString → AString
get_value_at f i j default_value =
    if ltb i (length f.keys) && ltb j (length (key_at f i).names)
    then get_or (key_at f i).values j []
    else default_value

unfoldable pub get_value : IniFile → AString → AString → AString → AString
get_value f key name default_value = elim (find_key f key) [
  | none ↦ default_value
  | some i ↦ elim (find_value f i name) [
    | none ↦ default_value
    | some j ↦ get_or (key_at f i).values j []
  ]
]

-- It calls `SetValue` with its default, which creates what is missing.
unfoldable pub get_value_set : AString → AString → AString → IniFile → AString × IniFile
get_value_set key name default_value f = elim (find_key f key) [
  | none ↦ (default_value, (set_value key name default_value true f).1)
  | some i ↦ elim (find_value f i name) [
    | none ↦ (default_value, (set_value key name default_value true f).1)
    | some j ↦ (get_or (key_at f i).values j [], f)
  ]
]

-- `erase` of one element.
unfoldable pub erase {ℓ} : {A : Type ℓ} → List A → ℕ → List A
erase xs i = take i xs ++ drop (suc i) xs

unfoldable pub delete_value_by_id : IniFile → ℕ → ℕ → Bool × IniFile
delete_value_by_id f i j =
    if ltb i (length f.keys) && ltb j (length (key_at f i).names)
    then (
      true,
      update_key i (λ k. record k { names = erase k.names j; values = erase k.values j }) f,
    )
    else (false, f)

unfoldable pub delete_value : AString → AString → IniFile → Bool × IniFile
delete_value key name f = elim (find_key f key) [
  | none ↦ (false, f)
  | some i ↦ elim (find_value f i name) [ none ↦ (false, f) | some j ↦ delete_value_by_id f i j ]
]

unfoldable pub delete_key : AString → IniFile → Bool × IniFile
delete_key key f = elim (find_key f key) [
  | none ↦ (false, f)
  | some i ↦ (true, record f { names = erase f.names i; keys = erase f.keys i })
]

unfoldable pub clear : IniFile → IniFile
clear f = record f { names = []; keys = []; comments = [] }

unfoldable pub has_value : IniFile → AString → AString → Bool
has_value f key name = elim (find_key f key) [
  | none ↦ false
  | some i ↦ elim (find_value f i name) [ none ↦ false | some j ↦ true ]
]

unfoldable pub key_exists : IniFile → AString → Bool
key_exists f key = elim (find_key f key) [ none ↦ false | some i ↦ true ]

-- The loop of `GetValues`.
unfoldable pub zip_values : List AString → List AString → List (AString × AString)
zip_values [] values = []
zip_values (n ∷ names) values = (n, get_or values 0 []) ∷ zip_values names (drop 1 values)

unfoldable pub get_values : IniFile → AString → List (AString × AString)
get_values f key = elim (find_key f key) [
  | none ↦ []
  | some i ↦ zip_values (key_at f i).names (key_at f i).values
]
