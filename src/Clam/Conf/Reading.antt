-- ===== src/Clam/Conf/Reading.antt =====
-- `ReadConf` of internal/clamav/config_files.go, on the lines of a settings file.
use clamav_webui.Prelude.{
  String, Option, none, some, List, [], ◌∷◌, map, ◌==◌, string_eq, if◌then◌else◌,
}
use clamav_webui.Clam.Conf.{ConfLib, ConfKeys}

-- The setting in a line: none in a blank line, a comment, and a key without a value
unfoldable pub entry : String → Option String → Option (String × String)
entry name none = none
entry name (some v) = some (name, v)

unfoldable pub entry_of : ConfLib → String → Option (String × String)
unfolding entry
entry_of lib line =
    let trimmed = lib.trim line in
    if trimmed == ""
    then none
    else if lib.is_comment trimmed
    then none
    else entry (lib.first_field trimmed) (lib.other_fields trimmed)

unfoldable pub add_value : String → Option (String × String) → List String → List String
add_value name none vals = vals
add_value name (some (k, v)) vals = if k == name then v ∷ vals else vals

-- values[name], on lines without "\r"
unfoldable pub values_in : ConfLib → String → List String → List String
unfolding add_value
values_in lib name [] = []
values_in lib name (line ∷ lines) = add_value name (entry_of lib line) (values_in lib name lines)

unfoldable pub read_values : ConfLib → String → List String → List String
read_values lib name raws = values_in lib name (map lib.strip raws)

-- The entries of the view; a file that cannot be read has no lines.
unfoldable pub read_conf : ConfLib → ConfKeys → Option (List String) → List (String × List String)
read_conf lib keys none = map (λ k. (k.0, [])) keys
read_conf lib keys (some raws) = map (λ k. (k.0, read_values lib k.0 raws)) keys
