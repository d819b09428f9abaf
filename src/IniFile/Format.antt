-- ===== src/IniFile/Format.antt =====
-- The lines of a settings file: `ReadFile`, `WriteFile` and `RemoveBom` of Src/Server/IniFile.cpp, with
-- the file's bytes in place of the stream. It is the variant that is not for WIN32.
use p2pchat.Prelude.{
  ℕ, suc, ◌+◌, ◌-◌, Bool, true, false, not, ◌&&◌, ◌||◌, Option, none, some, List, [], ◌∷◌, ◌++◌,
  get_or, take, drop, is_nil, ltb, leb, ◌==◌, if◌then◌else◌,
}
use mathlib.Core.Option
use p2pchat.IniFile.{AString, Key, IniFile, add_key_name, add_value, str_eq}
use p2pchat.IniFile.Comments.{add_header_comment, add_key_comment_of}

-- The bytes of the characters ";#[=]", of '\r' and '\n', and of the byte order mark.
abbrev pub semicolon : ℕ
semicolon = 59

abbrev pub hash : ℕ
hash = 35

abbrev pub bracket_open : ℕ
bracket_open = 91

abbrev pub equals : ℕ
equals = 61

abbrev pub bracket_close : ℕ
bracket_close = 93

abbrev pub carriage_return : ℕ
carriage_return = 13

abbrev pub line_feed : ℕ
line_feed = 10

-- `RemoveBom`; `ref[i]` just behind the end of a short `ref` is the null character.
unfoldable pub remove_bom : AString → AString
remove_bom line = if str_eq (take 3 line) (0xef ∷ 0xbb ∷ 0xbf ∷ []) then drop 3 line else line

-- `isprint` in the "C" locale, which has no printable character over 126.
unfoldable pub is_print : ℕ → Bool
is_print c = leb 32 c && leb c 126

-- Is it one of ";#[="?
unfoldable pub is_mark : ℕ → Bool
is_mark c = c == semicolon || c == hash || c == bracket_open || c == equals

-- `line.find_first_of(";#[=")`.
unfoldable pub find_mark : AString → Option ℕ
find_mark [] = none
find_mark (c ∷ line) =
    let later = find_mark line in if is_mark c then some 0 else Option.map suc later

-- `line.find_last_of("]")`.
unfoldable pub find_close : AString → Option ℕ
find_close [] = none
find_close (c ∷ line) = elim (find_close line) [
  | some i ↦ some (suc i)
  | none ↦ if c == bracket_close then some 0 else none
]

-- The '\r' at the end of a line that is not empty.
unfoldable pub strip_return : AString → AString
strip_return [] = []
strip_return (c ∷ []) = if c == carriage_return then [] else c ∷ []
strip_return (c ∷ d ∷ line) = c ∷ strip_return (d ∷ line)

-- The variable `keyname`, and the file that is built.
pub record Reading : Type 0 where
  pub keyname : AString
  pub file : IniFile

-- `line.substr(from, count)`.
unfoldable pub substr : AString → ℕ → ℕ → AString
substr line from count = take count (drop from line)

unfoldable pub read_key : AString → ℕ → Reading → Reading
read_key line left r = elim (find_close line) [
  | none ↦ r
  | some right ↦
      if not (ltb left right)
      then r
      else let name = substr line (left + 1) (right - left - 1) in
        record { keyname = name; file = (add_key_name r.file name).1 }
]

unfoldable pub read_value : AString → ℕ → Reading → Reading
read_value line left r = record r {
  file = add_value r.keyname (take left line) (drop (left + 1) line) r.file;
}

unfoldable pub read_comment : AString → ℕ → Reading → Reading
read_comment line left r = record r {
  file = elim r.file.names [
    | [] ↦ add_header_comment (drop (left + 1) line) r.file
    | n ∷ ns ↦ (add_key_comment_of r.keyname (drop (left + 1) line) r.file).1
  ];
}

-- The `switch`.
unfoldable pub read_mark : AString → ℕ → Reading → Reading
read_mark line left r =
    let c = get_or line left 0 in
    if c == bracket_open
    then read_key line left r
    else if c == equals
    then read_value line left r
    else read_comment line left r

-- One round of the loop, without its '\r'; `none` is the failed check for a binary file.
unfoldable pub read_line : AString → Reading → Option Reading
read_line [] r = some r
read_line (c ∷ line) r = if not (is_print c) then none else elim (find_mark (c ∷ line)) [
  | none ↦ some r
  | some left ↦ some (read_mark (c ∷ line) left r)
]

-- The loop, once the mark is off the first line. It keeps what it had when it stops.
unfoldable pub read_lines : List AString → Reading → Bool × Reading
read_lines [] r = (true, r)
read_lines (line ∷ lines) r = elim (read_line (strip_return line) r) [
  | none ↦ (false, r)
  | some r' ↦ read_lines lines r'
]

-- `getline`, to the end of the text.
unfoldable pub get_lines : AString → List AString
get_lines [] = []
get_lines (c ∷ text) =
    let rest = get_lines text in
    if c == line_feed then [] ∷ rest else (c ∷ get_or rest 0 []) ∷ drop 1 rest

unfoldable pub bom_off : List AString → List AString
bom_off [] = []
bom_off (line ∷ lines) = remove_bom line ∷ lines

unfoldable pub is_empty : IniFile → Bool
is_empty f = is_nil f.keys && is_nil f.names && is_nil f.comments

-- The whole method for a file that could be opened, with what it has read added to `f`.
unfoldable pub read_text : AString → IniFile → Bool × IniFile
read_text text f =
    let (done, r) = read_lines (bom_off (get_lines text)) (record { keyname = []; file = f }) in
    (done && not (is_empty r.file), r.file)

-- The lines that `WriteFile` puts out, each without its end.
unfoldable pub comment_lines : List AString → List AString
comment_lines [] = []
comment_lines (c ∷ comments) = (semicolon ∷ c) ∷ comment_lines comments

unfoldable pub value_lines : List AString → List AString → List AString
value_lines [] values = []
value_lines (n ∷ names) values =
    (n ++ equals ∷ get_or values 0 []) ∷ value_lines names (drop 1 values)

unfoldable pub key_lines : AString → Key → List AString
key_lines name k =
    (bracket_open ∷ name ++ bracket_close ∷ []) ∷ comment_lines k.comments
    ++ value_lines k.names k.values
    ++ [] ∷ []

unfoldable pub all_key_lines : List AString → List Key → List AString
all_key_lines names [] = []
all_key_lines names (k ∷ keys) =
    key_lines (get_or names 0 []) k ++ all_key_lines (drop 1 names) keys

unfoldable pub write_lines : IniFile → List AString
write_lines f =
    comment_lines f.comments
    ++ (if is_nil f.comments then [] else [] ∷ [])
    ++ all_key_lines f.names f.keys

-- `iniEOL` behind each line.
unfoldable pub end_lines : List AString → AString
end_lines [] = []
end_lines (line ∷ lines) = (line ++ carriage_return ∷ line_feed ∷ []) ++ end_lines lines

unfoldable pub write_text : IniFile → AString
write_text f = end_lines (write_lines f)
