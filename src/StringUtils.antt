-- ===== src/StringUtils.antt =====
-- The string functions of Src/Common/StringUtils.cpp. A string is the list of its bytes; where the
-- source compares a `char`, which is signed, a byte of 128 or more is negative.
pub mod Split
pub mod Merge
pub mod Escape
pub mod Encode
pub mod Ports
mod Tests
use p2pchat.Prelude.{
  ℕ, zero, suc, ◌+◌, ◌-◌, ◌*◌, ◌/◌, ◌%◌, Bool, true, false, not, ◌&&◌, ◌||◌, Option, none, some,
  List, [], ◌∷◌, ◌++◌, map, length, is_nil, ltb, leb, ◌==◌, if◌then◌else◌,
}
use p2pchat.IniFile.{AString, str_eq}

unfoldable pub is_one_of : ℕ → AString → Bool
is_one_of c [] = false
is_one_of c (d ∷ delim) = c == d || is_one_of c delim

-- The loop of `StringSplit` behind `Prev`, with the bytes since then.
unfoldable pub split_loop : AString → AString → AString → List AString
split_loop delim piece [] = if is_nil piece then [] else piece ∷ []
split_loop delim piece (c ∷ str) =
    let cut = split_loop delim [] str in
    let go_on = split_loop delim (piece ++ c ∷ []) str in
    if is_one_of c delim then piece ∷ cut else go_on

unfoldable pub string_split : AString → AString → List AString
string_split str delim = split_loop delim [] str

-- The loop of `SplitOneOf` after `splits` splits, with the bytes at the front of `remaining`.
unfoldable pub split_one_loop : AString → ℕ → ℕ → AString → AString → List AString
split_one_loop delims max_splits splits piece [] = if is_nil piece then [] else piece ∷ []
split_one_loop delims max_splits splits piece (c ∷ str) =
    let cut = split_one_loop delims max_splits (splits + 1) [] str in
    let go_on = split_one_loop delims max_splits splits (piece ++ c ∷ []) str in
    if (max_splits == 0 || ltb splits max_splits) && is_one_of c delims then piece ∷ cut else go_on

unfoldable pub split_one_of : AString → AString → ℕ → List AString
split_one_of str delims max_splits = split_one_loop delims max_splits 0 [] str

-- Not `str[i] > 32`.
unfoldable pub is_blank : ℕ → Bool
is_blank c = leb c 32 || leb 128 c

unfoldable pub trim_start : AString → AString
trim_start [] = []
trim_start (c ∷ str) = let rest = trim_start str in if is_blank c then rest else c ∷ str

-- The second loop, from the null character at `str[len]` down.
unfoldable pub trim_end : AString → AString
trim_end [] = []
trim_end (c ∷ str) = elim (trim_end str) [
  | d ∷ ds ↦ c ∷ d ∷ ds
  | [] ↦ if is_blank c then [] else c ∷ []
]

unfoldable pub trim_string : AString → AString
trim_string str = trim_end (trim_start str)

-- The loop of `StringSplitAndTrim`.
unfoldable pub split_trim_loop : AString → AString → AString → List AString
split_trim_loop delim piece [] = if is_nil piece then [] else trim_string piece ∷ []
split_trim_loop delim piece (c ∷ str) =
    let cut = split_trim_loop delim [] str in
    let go_on = split_trim_loop delim (piece ++ c ∷ []) str in
    if is_one_of c delim then trim_string piece ∷ cut else go_on

unfoldable pub string_split_and_trim : AString → AString → List AString
string_split_and_trim str delim = split_trim_loop delim [] str

-- The loop of `SplitZeroTerminatedStrings`: the output so far, `res`, and the bytes since `start`.
unfoldable pub zero_loop : List AString → Bool → AString → AString → Bool × List AString
zero_loop output res piece [] = if is_nil piece then (res, output) else (true, output ++ piece ∷ [])
zero_loop output res piece (c ∷ str) =
    let cut = zero_loop (output ++ piece ∷ []) true [] str in
    let go_on = zero_loop output res (piece ++ c ∷ []) str in if c == 0 then cut else go_on

unfoldable pub split_zero_terminated_strings : AString → Bool × List AString
split_zero_terminated_strings strings = zero_loop [] false [] strings

-- `std::find` over the strings.
unfoldable pub contains : List AString → AString → Bool
contains [] item = false
contains (s ∷ strings) item = str_eq s item || contains strings item

unfoldable pub merge_string_vectors : List AString → List AString → List AString
merge_string_vectors res [] = res
merge_string_vectors res (item ∷ strings) =
    let skip = merge_string_vectors res strings in
    let add = merge_string_vectors (res ++ item ∷ []) strings in
    if not (contains res item) then add else skip

-- The loop of `StringsConcat`.
unfoldable pub concat_loop : ℕ → List AString → AString
concat_loop separator [] = []
concat_loop separator (s ∷ strings) = separator ∷ s ++ concat_loop separator strings

unfoldable pub strings_concat : List AString → ℕ → AString
strings_concat [] separator = []
strings_concat (s ∷ strings) separator = s ++ concat_loop separator strings

-- The bytes ' and " and \.
unfoldable pub is_escaped : ℕ → Bool
is_escaped c = c == 39 || c == 34 || c == 92

-- The unescaped bytes between two escapes are appended in one piece in the source.
unfoldable pub escape_string : AString → AString
escape_string [] = []
escape_string (c ∷ message) =
    let rest = escape_string message in if is_escaped c then 92 ∷ c ∷ rest else c ∷ rest

unfoldable pub replace_all_char_occurrences : AString → ℕ → ℕ → AString
replace_all_char_occurrences str from to = map (λ c. if c == from then to else c) str
