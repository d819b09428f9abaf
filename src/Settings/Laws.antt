-- ===== src/Settings/Laws.antt =====
-- What a repository of settings promises (Src/Server/SettingsRepositoryInterface.h), and the memory's
-- and the overriding one's promise (Src/Server/MemorySettingsRepository.cpp,
-- Src/Server/OverridesSettingsRepository.cpp).
pub mod Memory
pub mod Overrides
use p2pchat.Prelude.{◌≡◌, Bool, true, false, ◌&&◌}
use p2pchat.IniFile.{AString, str_eq}

-- The methods on text, of a repository with a state.
pub record Repository (S : Type 0) : Type 0 where
  pub has_value : AString → AString → S → Bool
  pub get_value : AString → AString → AString → S → AString
  pub get_value_set : AString → AString → AString → S → AString × S
  pub set_value : AString → AString → AString → Bool → S → Bool × S
  pub delete_value : AString → AString → S → Bool × S

-- The same value of the same key.
abbrev pub same_value : AString → AString → AString → AString → Bool
same_value key name other_key other = str_eq key other_key && str_eq name other

-- What a client relies on.
pub record IsRepository {S : Type 0} (r : Repository S) : Type 0 where
  -- A value that was set is got back, and is there.
  pub got :
      (key name value default_value : AString) (create : Bool) (s : S)
      → (r.set_value key name value create s).0 ≡ true
      → r.get_value key name default_value (r.set_value key name value create s).1 ≡ value
  pub kept_there :
      (key name value : AString) (create : Bool) (s : S)
      → (r.set_value key name value create s).0 ≡ true
      → r.has_value key name (r.set_value key name value create s).1 ≡ true
  -- The other values stay.
  pub others_got :
      (key name value default_value other_key other : AString) (create : Bool) (s : S)
      → same_value key name other_key other ≡ false
      → r.get_value other_key other default_value (r.set_value key name value create s).1
        ≡ r.get_value other_key other default_value s
  pub others_there :
      (key name value other_key other : AString) (create : Bool) (s : S)
      → same_value key name other_key other ≡ false
      → r.has_value other_key other (r.set_value key name value create s).1
        ≡ r.has_value other_key other s
  -- A refusal changes nothing.
  pub refused :
      (key name value : AString) (create : Bool) (s : S)
      → (r.set_value key name value create s).0 ≡ false
      → (r.set_value key name value create s).1 ≡ s
  -- What is not there has the default.
  pub missing :
      (key name default_value : AString) (s : S)
      → r.has_value key name s ≡ false
      → r.get_value key name default_value s ≡ default_value
