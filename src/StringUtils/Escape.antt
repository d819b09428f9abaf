-- ===== src/StringUtils/Escape.antt =====
-- What `EscapeString` of Src/Common/StringUtils.cpp leaves readable.
use p2pchat.Prelude.{ℕ, ◌≡◌, refl, false, [], ◌∷◌, ◌==◌, if◌then◌else◌, Bool-cases, inl, inr, arith}
use p2pchat.IniFile.{AString}
use p2pchat.StringUtils.{is_escaped, escape_string}

-- A reader that takes the byte behind a backslash as it is.
abbrev pub unescape : AString → AString
unescape [] = []
unescape (c ∷ []) = c ∷ []
unescape (c ∷ d ∷ s) =
    let after = unescape s in let next = unescape (d ∷ s) in if c == 92 then d ∷ after else c ∷ next

unescape_plain : (c : ℕ) (s : AString) → (c == 92) ≡ false → unescape (c ∷ s) ≡ c ∷ unescape s
unescape_plain c [] h = refl
unescape_plain c (d ∷ s) h = rw h

not_backslash : (c : ℕ) → is_escaped c ≡ false → (c == 92) ≡ false
unfolding is_escaped
not_backslash c h = ground arith

-- What `escape_string` returns is the message again to a reader that takes the byte behind a backslash
-- as it is.
pub unescape-escape_string : (message : AString) → unescape (escape_string message) ≡ message
unfolding escape_string
unescape-escape_string [] = refl
unescape-escape_string (c ∷ message) = elim (Bool-cases (is_escaped c)) [
  | inl e ↦ rw (e, unescape-escape_string message)
  | inr e ↦ rw (
    e,
    unescape_plain c (escape_string message) (not_backslash c e),
    unescape-escape_string message,
  )
]
