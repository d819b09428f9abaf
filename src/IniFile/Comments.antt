-- ===== src/IniFile/Comments.antt =====
-- The comments of a settings file and of its keys (Src/Server/IniFile.cpp).
use p2pchat.Prelude.{
  ℕ, Bool, true, false, ◌&&◌, none, some, [], ◌∷◌, ◌++◌, length, get_or, ltb, if◌then◌else◌,
}
use p2pchat.IniFile.{AString, IniFile, key_at, find_key, update_key, erase}

unfoldable pub add_header_comment : AString → IniFile → IniFile
add_header_comment comment f = record f { comments = f.comments ++ comment ∷ [] }

unfoldable pub get_header_comment : IniFile → ℕ → AString
get_header_comment f i = if ltb i (length f.comments) then get_or f.comments i [] else []

unfoldable pub delete_header_comment : ℕ → IniFile → Bool × IniFile
delete_header_comment i f =
    if ltb i (length f.comments)
    then (true, record f { comments = erase f.comments i })
    else (false, f)

unfoldable pub get_num_key_comments : IniFile → ℕ → ℕ
get_num_key_comments f i = if ltb i (length f.keys) then length (key_at f i).comments else 0

unfoldable pub get_num_key_comments_of : IniFile → AString → ℕ
get_num_key_comments_of f key = elim (find_key f key) [
  | none ↦ 0
  | some i ↦ length (key_at f i).comments
]

unfoldable pub add_key_comment : ℕ → AString → IniFile → Bool × IniFile
add_key_comment i comment f =
    if ltb i (length f.keys)
    then (true, update_key i (λ k. record k { comments = k.comments ++ comment ∷ [] }) f)
    else (false, f)

unfoldable pub add_key_comment_of : AString → AString → IniFile → Bool × IniFile
add_key_comment_of key comment f = elim (find_key f key) [
  | none ↦ (false, f)
  | some i ↦ add_key_comment i comment f
]

unfoldable pub get_key_comment : IniFile → ℕ → ℕ → AString
get_key_comment f i j =
    if ltb i (length f.keys) && ltb j (length (key_at f i).comments)
    then get_or (key_at f i).comments j []
    else []

unfoldable pub get_key_comment_of : IniFile → AString → ℕ → AString
get_key_comment_of f key j = elim (find_key f key) [ none ↦ [] | some i ↦ get_key_comment f i j ]

unfoldable pub delete_key_comment : ℕ → ℕ → IniFile → Bool × IniFile
delete_key_comment i j f =
    if ltb i (length f.keys) && ltb j (length (key_at f i).comments)
    then (true, update_key i (λ k. record k { comments = erase k.comments j }) f)
    else (false, f)

unfoldable pub delete_key_comment_of : AString → ℕ → IniFile → Bool × IniFile
delete_key_comment_of key j f = elim (find_key f key) [
  | none ↦ (false, f)
  | some i ↦ delete_key_comment i j f
]

unfoldable pub delete_key_comments : ℕ → IniFile → Bool × IniFile
delete_key_comments i f =
    if ltb i (length f.keys)
    then (true, update_key i (λ k. record k { comments = [] }) f)
    else (false, f)

unfoldable pub delete_key_comments_of : AString → IniFile → Bool × IniFile
delete_key_comments_of key f = elim (find_key f key) [
  | none ↦ (false, f)
  | some i ↦ delete_key_comments i f
]
