-- ===== src/Clam/Conf.antt =====
-- `WriteConf` of internal/clamav/config_files.go. The text functions
-- are parameters; the updates are an association list, in any order, as a map is ranged over.
pub mod Lines
pub mod Writes
pub mod Reading
pub mod Roundtrip
use Prim.Native.String
use clamav_webui.Prelude.{
  ℕ, String, Bool, true, false, not, ◌&&◌, ◌||◌, Option, none, some, List, [], ◌∷◌, ◌++◌, ◌==◌,
  string_eq, contains, map, if◌then◌else◌,
}

pub data ConfKind : Type 0 where
  string_kind bool_kind int_kind path_kind size_kind : ConfKind

-- The text of a file split at its line breaks; the text of lines, joined with line breaks and with
-- one at the end; TrimRight of "\r"; TrimSpace; the first of the fields of a text, and the others joined
-- by a space (`none` where there is none); whether a text starts with "#" or
-- with "/"; and the tests of `strconv.Atoi`, of the size expression, and of `confValueBool`.
pub record ConfLib : Type 0 where
  pub lines : String → List String
  pub body : List String → String
  pub strip : String → String
  pub trim : String → String
  pub first_field : String → String
  pub other_fields : String → Option String
  pub is_comment : String → Bool
  pub is_absolute : String → Bool
  pub is_int : String → Bool
  pub is_size : String → Bool
  pub is_true : String → Bool

abbrev pub ConfKeys : Type 0
ConfKeys = List (String × ConfKind)

-- The settings that the program may change
abbrev pub clamd_keys : ConfKeys
clamd_keys =
    ("MaxThreads", int_kind)
    ∷ ("MaxFileSize", size_kind)
    ∷ ("MaxScanSize", size_kind)
    ∷ ("LogVerbose", bool_kind)
    ∷ ("LogTime", bool_kind)
    ∷ ("OnAccessMaxFileSize", size_kind)
    ∷ ("OnAccessPrevention", bool_kind)
    ∷ ("OnAccessIncludePath", path_kind)
    ∷ ("OnAccessExcludePath", path_kind)
    ∷ ("OnAccessExcludeUname", string_kind)
    ∷ []

abbrev pub freshclam_keys : ConfKeys
freshclam_keys =
    ("Checks", int_kind)
    ∷ ("LogVerbose", bool_kind)
    ∷ ("NotifyClamd", string_kind)
    ∷ ("DatabaseMirror", string_kind)
    ∷ []

abbrev pub Updates : Type 0
Updates = List (String × List String)

abbrev pub lookup {ℓ} : {A : Type ℓ} → String → List (String × A) → Option A
lookup name [] = none
lookup name ((k, a) ∷ rows) = if k == name then some a else lookup name rows

pub data ConfError : Type 0 where
  key_not_allowed value_invalid not_readable write_failed : ConfError

-- Whether a value has no error for its kind.
abbrev pub is_valid : ConfLib → ConfKind → String → Bool
is_valid lib int_kind v = lib.is_int v
is_valid lib size_kind v = lib.is_size v
is_valid lib path_kind v = lib.is_absolute v
is_valid lib string_kind v = true
is_valid lib bool_kind v = true

abbrev pub normalize : ConfLib → ConfKind → String → String
normalize lib bool_kind v = if lib.is_true v then "yes" else "no"
normalize lib kind v = v

abbrev put_value : String → Option (List String) → Option (List String)
put_value v none = none
put_value v (some vs) = some (v ∷ vs)

-- The values of one key; `none` where one is invalid.
unfoldable pub clean_values : ConfLib → ConfKind → List String → Option (List String)
clean_values lib kind [] = some []
clean_values lib kind (v ∷ vs) =
    let rest = clean_values lib kind vs in
    let v' = lib.trim v in
    if v' == ""
    then rest
    else if is_valid lib kind v'
    then put_value (normalize lib kind v') rest
    else none

-- The line of a value
abbrev pub setting : String → String → String
setting name v = String.◌++◌ name (String.◌++◌ " " v)

abbrev pub settings : String → List String → List String
settings name vals = map (setting name) vals

-- The key of a line; a blank line and a comment have none.
abbrev pub key_of : ConfLib → String → String
key_of lib line =
    let trimmed = lib.trim line in
    if trimmed == "" then "" else if lib.is_comment trimmed then "" else lib.first_field trimmed

-- The first line of an updated key is replaced by its values, and its later lines are dropped. The
-- result has the keys that were written.
unfoldable pub rewrite : ConfLib → Updates → List String → List String → List String × List String
rewrite lib cleaned written [] = ([], written)
rewrite lib cleaned written (raw ∷ raws) =
    let line = lib.strip raw in
    let key = key_of lib line in
    let same = rewrite lib cleaned written raws in
    let more = rewrite lib cleaned (key ∷ written) raws in
    elim (lookup key cleaned) [
      | none ↦ (line ∷ same.0, same.1)
      | some vals ↦ if contains written key then same else (settings key vals ++ more.0, more.1)
    ]

-- The keys that are not in the file yet
unfoldable pub append_missing : Updates → List String → List String
append_missing [] written = []
append_missing ((name, vals) ∷ rows) written =
    let rest = append_missing rows written in
    if contains written name then rest else settings name vals ++ rest

unfoldable pub new_lines : ConfLib → Updates → List String → List String
new_lines lib cleaned raws =
    let (out, written) = rewrite lib cleaned [] raws in out ++ append_missing cleaned written

pub data Cleaned : Type 0 where
  refused : ConfError → Cleaned
  accepted : Updates → Cleaned

add_cleaned : String → Option (List String) → Cleaned → Cleaned
add_cleaned name none rest = refused value_invalid
add_cleaned name (some vals) (refused e) = refused e
add_cleaned name (some vals) (accepted rows) = accepted ((name, vals) ∷ rows)

check_key : ConfLib → String → List String → Option ConfKind → Cleaned → Cleaned
check_key lib name vals none rest = refused key_not_allowed
check_key lib name vals (some kind) rest = add_cleaned name (clean_values lib kind vals) rest

-- The loop over the updates, on the keys that may be edited
unfoldable pub clean_all : ConfLib → ConfKeys → Updates → Cleaned
unfolding check_key add_cleaned
clean_all lib keys [] = accepted []
clean_all lib keys ((name, vals) ∷ rows) =
    check_key lib name vals (lookup name keys) (clean_all lib keys rows)

-- The texts of a settings file and of its backup
pub record ConfFile : Type 0 where
  pub current : String
  pub backup : Option String

replace_text : Bool → Bool → String → ConfFile → ConfFile × Option ConfError
replace_text false replaced out f = (f, some write_failed)
replace_text true false out f = (record f { backup = some f.current }, some write_failed)
replace_text true true out f = (record { current = out; backup = some f.current }, none)

-- The write behind the checks
write_cleaned : ConfLib → Bool → Bool → Bool → Cleaned → ConfFile → ConfFile × Option ConfError
write_cleaned lib readable backed_up replaced (refused e) f = (f, some e)
write_cleaned lib false backed_up replaced (accepted rows) f = (f, some not_readable)
write_cleaned lib true backed_up replaced (accepted rows) f =
    replace_text backed_up replaced (lib.body (new_lines lib rows (lib.lines f.current))) f

-- `WriteConf` on the keys of a known file. The flags say whether the file is read, whether the backup is
-- written, and whether the new text replaces the file by a write beside it and a rename.
unfoldable pub write_conf :
    ConfLib → ConfKeys → Bool → Bool → Bool → Updates → ConfFile → ConfFile × Option ConfError
unfolding write_cleaned replace_text
write_conf lib keys readable backed_up replaced updates f =
    write_cleaned lib readable backed_up replaced (clean_all lib keys updates) f
