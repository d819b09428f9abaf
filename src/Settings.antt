-- ===== src/Settings.antt =====
-- The settings that are kept in memory: cMemorySettingsRepository
-- (Src/Server/MemorySettingsRepository.cpp). The hash maps are lists in one of the orders that they may
-- have; `find` gives the first entry with a name.
pub mod Lookup
pub mod Laws
mod Tests
use p2pchat.Prelude.{
  ℕ, Bool, true, false, Option, none, some, List, [], ◌∷◌, ◌++◌, map, if◌then◌else◌, ℤ, to_bits,
  of_bits,
}
use p2pchat.Outcome.{Outcome, ok, undefined}
use p2pchat.IniFile.{AString, str_eq}

-- `sValue`.
pub data Value : Type 0 where
  text : AString → Value
  number : ℤ → Value
  truth : Bool → Value

-- A map from names, and the map of one key.
abbrev pub Named {ℓ} : Type ℓ → Type ℓ
Named A = List (AString × A)

abbrev pub Bucket : Type 0
Bucket = Named Value

pub record Memory : Type 0 where
  pub writable : Bool
  pub keys : Named Bucket

unfoldable pub find {ℓ} : {A : Type ℓ} → AString → Named A → Option A
find name [] = none
find name ((m, a) ∷ rest) = let later = find name rest in if str_eq m name then some a else later

-- The assignment through an iterator.
unfoldable pub replace {ℓ} : {A : Type ℓ} → AString → A → Named A → Named A
replace name a [] = []
replace name a ((m, x) ∷ rest) =
    let later = replace name a rest in if str_eq m name then (m, a) ∷ rest else (m, x) ∷ later

unfoldable pub remove {ℓ} : {A : Type ℓ} → AString → Named A → Named A
remove name [] = []
remove name ((m, x) ∷ rest) =
    let later = remove name rest in if str_eq m name then rest else (m, x) ∷ later

-- A change of `m_Map[key]`, which creates the key.
unfoldable pub with_bucket : AString → (Bucket → Bucket) → Named Bucket → Named Bucket
with_bucket key f keys = elim (find key keys) [
  | none ↦ keys ++ (key, f []) ∷ []
  | some b ↦ replace key (f b) keys
]

abbrev pub or_empty_bucket : Option Bucket → Bucket
or_empty_bucket none = []
or_empty_bucket (some b) = b

-- The two searches that every method begins with.
unfoldable pub look_up : AString → AString → Memory → Option Value
look_up key name m = find name (or_empty_bucket (find key m.keys))

abbrev pub is_found {ℓ} : {A : Type ℓ} → Option A → Bool
is_found none = false
is_found (some a) = true

unfoldable pub memory_key_exists : AString → Memory → Bool
memory_key_exists key m = is_found (find key m.keys)

unfoldable pub memory_has_value : AString → AString → Memory → Bool
memory_has_value key name m = is_found (look_up key name m)

unfoldable pub memory_add_key_name : AString → Memory → Memory
memory_add_key_name key m = elim (find key m.keys) [
  | none ↦ record m { keys = m.keys ++ (key, []) ∷ [] }
  | some b ↦ m
]

unfoldable pub memory_add_value : AString → AString → Value → Memory → Memory
memory_add_value key name v m =
    if m.writable then record m { keys = with_bucket key (λ b. b ++ (name, v) ∷ []) m.keys } else m

-- `getStringValue`, `getIntValue` and `getBoolValue` of a release build.
unfoldable pub get_string_value : Value → AString
get_string_value (text s) = s
get_string_value (number z) = []
get_string_value (truth b) = []

unfoldable pub get_int_value : Value → Outcome ℤ
get_int_value (text s) = undefined
get_int_value (number z) = ok z
get_int_value (truth b) = undefined

unfoldable pub get_bool_value : Value → Outcome Bool
get_bool_value (text s) = undefined
get_bool_value (number z) = undefined
get_bool_value (truth b) = ok b

unfoldable pub memory_get_value : AString → AString → AString → Memory → AString
memory_get_value key name default_value m = elim (look_up key name m) [
  | none ↦ default_value
  | some v ↦ get_string_value v
]

-- `GetValues`, which creates the key.
unfoldable pub memory_get_values : AString → Memory → List (AString × AString) × Memory
memory_get_values key m = (
  map (λ entry. (entry.0, get_string_value entry.1)) (or_empty_bucket (find key m.keys)),
  record m { keys = with_bucket key (λ b. b) m.keys },
)

unfoldable pub memory_get_value_set : AString → AString → AString → Memory → AString × Memory
memory_get_value_set key name default_value m = elim (look_up key name m) [
  | none ↦ (default_value, memory_add_value key name (text default_value) m)
  | some v ↦ (get_string_value v, m)
]

-- At 64 bits, and at the 32 of `int`.
unfoldable pub memory_get_value_set_i64 : AString → AString → ℤ → Memory → Outcome ℤ × Memory
memory_get_value_set_i64 key name default_value m = elim (look_up key name m) [
  | none ↦ (ok default_value, memory_add_value key name (number default_value) m)
  | some v ↦ (get_int_value v, m)
]

abbrev pub to_int : Outcome ℤ → Outcome ℤ
to_int (ok z) = ok (of_bits 32 (to_bits 32 z))
to_int r = r

unfoldable pub memory_get_value_set_i : AString → AString → ℤ → Memory → Outcome ℤ × Memory
memory_get_value_set_i key name default_value m = elim (look_up key name m) [
  | none ↦ (ok default_value, memory_add_value key name (number default_value) m)
  | some v ↦ (to_int (get_int_value v), m)
]

unfoldable pub memory_get_value_set_b : AString → AString → Bool → Memory → Outcome Bool × Memory
memory_get_value_set_b key name default_value m = elim (look_up key name m) [
  | none ↦ (ok default_value, memory_add_value key name (truth default_value) m)
  | some v ↦ (get_bool_value v, m)
]

-- `SetValue` and `SetValueI` on a value.
unfoldable pub memory_set : AString → AString → Value → Bool → Memory → Bool × Memory
memory_set key name v create m = elim (look_up key name m) [
  | none ↦ (create, if create then memory_add_value key name v m else m)
  | some old ↦ (true, record m { keys = with_bucket key (replace name v) m.keys })
]

unfoldable pub memory_set_value : AString → AString → AString → Bool → Memory → Bool × Memory
memory_set_value key name s create m =
    let done = memory_set key name (text s) create m in if m.writable then done else (false, m)

unfoldable pub memory_set_value_i : AString → AString → ℤ → Bool → Memory → Bool × Memory
memory_set_value_i key name z create m =
    let done = memory_set key name (number z) create m in if m.writable then done else (false, m)

unfoldable pub memory_delete_value : AString → AString → Memory → Bool × Memory
memory_delete_value key name m = elim (look_up key name m) [
  | none ↦ (false, m)
  | some old ↦
      if m.writable
      then (true, record m { keys = with_bucket key (remove name) m.keys })
      else (false, m)
]

unfoldable pub set_read_only : Memory → Memory
set_read_only m = record m { writable = false }
