-- ===== src/StringUtils/Tests.antt =====
-- The theorems on the strings of Src/Common/StringUtils.cpp at concrete ones.
use p2pchat.Prelude.{◌≡◌, refl, true, not, List, [], ◌∷◌, is_nil, All, length, ◌≤◌, ◌+◌, arith}
use p2pchat.IniFile.{AString, str_eq}
use p2pchat.StringUtils.{
  is_one_of, contains, split_one_of, string_split, strings_concat, merge_string_vectors,
  escape_string, split_zero_terminated_strings,
}
use p2pchat.StringUtils.Split.{
  IsWhole, string_split-strings_concat, split_zero_terminated_strings_lem, split_one_of_few,
}
use p2pchat.StringUtils.Merge.{has_no_repeat, has_no_repeat-merge}
use p2pchat.StringUtils.Escape.{unescape, unescape-escape_string}

abbrev ports : List AString
ports = (56 ∷ 48 ∷ []) ∷ [] ∷ (57 ∷ []) ∷ []

ports-IsWhole : All (IsWhole (44 ∷ [])) ports
unfolding is_one_of
ports-IsWhole = ((refl, (refl, tt)), (tt, ((refl, tt), tt)))

string_split-strings_concat_example : string_split (strings_concat ports 44) (44 ∷ []) ≡ ports
string_split-strings_concat_example =
    string_split-strings_concat 44 (56 ∷ 48 ∷ []) ([] ∷ (57 ∷ []) ∷ []) ports-IsWhole refl

split_zero_terminated_strings_lem_example : split_zero_terminated_strings (56 ∷ 0 ∷ 57 ∷ []) ≡ (
  not (is_nil (string_split (56 ∷ 0 ∷ 57 ∷ []) (0 ∷ []))),
  string_split (56 ∷ 0 ∷ 57 ∷ []) (0 ∷ []),
)
split_zero_terminated_strings_lem_example = split_zero_terminated_strings_lem (56 ∷ 0 ∷ 57 ∷ [])

ports_once : has_no_repeat ports ≡ true
unfolding contains str_eq
ports_once = refl

has_no_repeat-merge_example :
    has_no_repeat (merge_string_vectors ports ((57 ∷ []) ∷ (55 ∷ []) ∷ [])) ≡ true
has_no_repeat-merge_example = has_no_repeat-merge ports ((57 ∷ []) ∷ (55 ∷ []) ∷ []) ports_once

unescape-escape_string_example : unescape (escape_string (39 ∷ 65 ∷ 92 ∷ [])) ≡ 39 ∷ 65 ∷ 92 ∷ []
unescape-escape_string_example = unescape-escape_string (39 ∷ 65 ∷ 92 ∷ [])

split_one_of_few_example : length (split_one_of (56 ∷ 44 ∷ 57 ∷ 44 ∷ 55 ∷ []) (44 ∷ []) 1) ≤ 1 + 1
split_one_of_few_example = split_one_of_few 1 (56 ∷ 44 ∷ 57 ∷ 44 ∷ 55 ∷ []) (44 ∷ []) (omega arith)
