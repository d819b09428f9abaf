-- ===== src/IniFile/Tests.antt =====
-- The theorems on cIniFile (Src/Server/IniFile.cpp) at a concrete file.
use p2pchat.Prelude.{◌≡◌, refl, true, false, ◌&&◌, [], ◌∷◌}
use p2pchat.IniFile.Assoc.{same}
use p2pchat.IniFile.Lookup.{IsAligned, lookup}
use p2pchat.IniFile.Values.{or_default, get_value_lem, Stored, set_value_lem}
use p2pchat.IniFile.Delete.{delete_value_lem, delete_key_lem}
use p2pchat.IniFile.{
  IniFile, get_value, has_value, set_value, delete_value, delete_key, key_exists, check_case,
  str_eq, tolower, add_key_name, add_value, find_key, find_name, find_or_add_key, key_at,
  push_value, update_key,
}
use p2pchat.IniFile.Format.{
  read_text, write_text, read_lines, bom_off, get_lines, end_lines, write_lines, comment_lines,
  read_line, strip_return, remove_bom, is_print, find_mark, is_mark, all_key_lines, key_lines,
  value_lines, is_empty, read_mark, find_close, read_comment, read_key, read_value, substr,
}
use p2pchat.IniFile.Comments.{add_header_comment, add_key_comment, add_key_comment_of}

-- [Ab] with a comment and two values, and an empty [c].
abbrev two_keys : IniFile
two_keys = record {
  is_case_insensitive = true;
  keys =
      record {
        names = (80 ∷ []) ∷ (81 ∷ []) ∷ [];
        values = (49 ∷ 50 ∷ []) ∷ [] ∷ [];
        comments = (33 ∷ []) ∷ [];
      }
      ∷ record { names = []; values = []; comments = [] }
      ∷ [];
  names = (65 ∷ 98 ∷ []) ∷ (99 ∷ []) ∷ [];
  comments = (104 ∷ 105 ∷ []) ∷ [];
}

two_keys-IsAligned : IsAligned two_keys
two_keys-IsAligned = record { named = refl; paired = (refl, (refl, tt)) }

-- It is read again as it was written.
write_read :
    read_text
      (write_text two_keys)
      (record { is_case_insensitive = true; keys = []; names = []; comments = [] })
    ≡ (true, two_keys)
unfolding read_text write_text read_lines bom_off get_lines end_lines write_lines comment_lines
    read_line strip_return remove_bom is_print find_mark is_mark all_key_lines key_lines value_lines
    is_empty read_mark find_close read_comment read_key read_value substr add_header_comment
    add_key_comment add_key_comment_of add_key_name add_value find_key find_name find_or_add_key
    key_at push_value update_key check_case tolower str_eq
write_read = refl

-- The key `aB` is the first one.
get_value_lem_example :
    get_value two_keys (97 ∷ 66 ∷ []) (112 ∷ []) []
    ≡ or_default [] (lookup two_keys (97 ∷ 66 ∷ []) (112 ∷ []))
get_value_lem_example = get_value_lem two_keys (97 ∷ 66 ∷ []) (112 ∷ []) [] two_keys-IsAligned

set_value_lem_example :
    let (r, f') = set_value (99 ∷ []) (112 ∷ []) (55 ∷ []) true two_keys in
    (r ≡ true) × Stored two_keys (99 ∷ []) (112 ∷ []) (55 ∷ []) f'
set_value_lem_example = set_value_lem two_keys (99 ∷ []) (112 ∷ []) (55 ∷ []) two_keys-IsAligned

other_name : same true (97 ∷ 66 ∷ []) (97 ∷ 66 ∷ []) && same true (112 ∷ []) (81 ∷ []) ≡ false
unfolding check_case str_eq tolower
other_name = refl

delete_value_lem_example :
    let (r, f') = delete_value (97 ∷ 66 ∷ []) (112 ∷ []) two_keys in
    (r ≡ has_value two_keys (97 ∷ 66 ∷ []) (112 ∷ []))
    × IsAligned f'
    × (lookup f' (97 ∷ 66 ∷ []) (81 ∷ []) ≡ lookup two_keys (97 ∷ 66 ∷ []) (81 ∷ []))
delete_value_lem_example =
    delete_value_lem two_keys (97 ∷ 66 ∷ []) (112 ∷ []) (97 ∷ 66 ∷ []) (81 ∷ []) two_keys-IsAligned
      other_name

other_key : same true (99 ∷ []) (97 ∷ 66 ∷ []) ≡ false
unfolding check_case str_eq tolower
other_key = refl

delete_key_lem_example :
    let (r, f') = delete_key (99 ∷ []) two_keys in
    (r ≡ key_exists two_keys (99 ∷ []))
    × IsAligned f'
    × (lookup f' (97 ∷ 66 ∷ []) (81 ∷ []) ≡ lookup two_keys (97 ∷ 66 ∷ []) (81 ∷ []))
delete_key_lem_example =
    delete_key_lem two_keys (99 ∷ []) (97 ∷ 66 ∷ []) (81 ∷ []) two_keys-IsAligned other_key
