-- ===== src/StringUtils/Ports.antt =====
-- `ReadUpgradeIniPorts` of Src/Server/IniFile.cpp, on settings that are a cIniFile.
use p2pchat.Prelude.{true, List, [], ◌∷◌, ◌++◌, is_nil, if◌then◌else◌}
use p2pchat.IniFile.{AString, IniFile, str_eq, get_value, get_values, delete_value, set_value}
use p2pchat.StringUtils.{string_split_and_trim, merge_string_vectors, strings_concat}

-- The characters ";,".
abbrev pub delimiters : AString
delimiters = 59 ∷ 44 ∷ []

-- The loop over the pairs.
unfoldable pub collect_ports : AString → List (AString × AString) → List AString
collect_ports ports_name [] = []
collect_ports ports_name ((name, value) ∷ pairs) =
    let rest = collect_ports ports_name pairs in
    if str_eq name ports_name then string_split_and_trim value delimiters ++ rest else rest

-- The old entries for IPv4 and IPv6, merged, or else the default.
unfoldable pub upgrade_ports :
    AString → AString → AString → AString → AString → IniFile → List AString × IniFile
upgrade_ports key ports_name old4 old6 default_value f =
    let merged =
      merge_string_vectors (string_split_and_trim (get_value f key old4 default_value) delimiters)
        (string_split_and_trim (get_value f key old6 []) delimiters) in
    let f' = (delete_value key old6 (delete_value key old4 f).1).1 in
    let ports = if is_nil merged then string_split_and_trim default_value delimiters else merged in
    (ports, (set_value key ports_name (strings_concat ports 44) true f').1)

unfoldable pub read_upgrade_ini_ports :
    AString → AString → AString → AString → AString → IniFile → List AString × IniFile
read_upgrade_ini_ports key ports_name old4 old6 default_value f =
    let ports = collect_ports ports_name (get_values f key) in
    if is_nil ports then upgrade_ports key ports_name old4 old6 default_value f else (ports, f)
