-- ===== src/Monitor/Signatures.antt =====
-- `Signatures` of internal/clamav/freshclam.go. The signed numbers are kept as their two's complement;
-- a text is the list of its lines.
pub mod Checks
pub mod Newest
mod Tests
use clamav_webui.Prelude.{
  ℕ, String, Bool, true, false, Option, none, some, List, [], ◌∷◌, ◌+◌, ◌-◌, ◌%◌, ◌==◌, string_eq,
  nat_beq, if◌then◌else◌,
}
use clamav_webui.Clam.Conf.{ConfLib}
use clamav_webui.Monitor.Freshness.{word, exceeds}

pub record SignatureDb : Type 0 where
  pub name : String
  pub file : Option String
  pub version : ℕ
  pub sigs : ℕ
  pub build_time : String
  pub mtime_unix : ℕ

-- The time of a file in the directory of the databases, if there is one; the output of sigtool on
-- it, if it can be run; `strconv.Atoi`; the halves of a line at its first colon; and TrimSpace.
pub record SignatureLib : Type 0 where
  pub stat : String → String → Option ℕ
  pub has_sigtool : Bool
  pub sigtool : String → String → Option (List String)
  pub atoi : String → ℕ
  pub cut : String → Option (String × String)
  pub trim : String → String

pub record SigtoolInfo : Type 0 where
  pub version : ℕ
  pub sigs : ℕ
  pub build_time : String

set_info : SignatureLib → Option (String × String) → SigtoolInfo → SigtoolInfo
set_info lib none info = info
set_info lib (some (k, v)) info =
    let key = lib.trim k in
    if key == "Version"
    then record info { version = lib.atoi (lib.trim v) }
    else if key == "Signatures"
    then record info { sigs = lib.atoi (lib.trim v) }
    else if key == "Build time"
    then record info { build_time = lib.trim v }
    else info

info_from : SignatureLib → List String → SigtoolInfo → SigtoolInfo
unfolding set_info
info_from lib [] info = info
info_from lib (line ∷ lines) info = info_from lib lines (set_info lib (lib.cut line) info)

-- `parseSigtoolInfo`
unfoldable pub parse_sigtool_info : SignatureLib → List String → SigtoolInfo
unfolding info_from
parse_sigtool_info lib lines =
    info_from lib lines (record { version = 0; sigs = 0; build_time = "" })

with_info : SignatureLib → Option (List String) → SignatureDb → SignatureDb
with_info lib none db = db
with_info lib (some lines) db =
    let info = parse_sigtool_info lib lines in
    record db { version = info.version; sigs = info.sigs; build_time = info.build_time }

db_at : String → Option String → ℕ → SignatureDb
db_at name file mtime = record {
  name = name;
  file = file;
  version = 0;
  sigs = 0;
  build_time = "";
  mtime_unix = mtime;
}

-- The file of a database with one extension, if it is there
read_db : SignatureLib → String → String → Option ℕ → Option SignatureDb
unfolding db_at with_info
read_db lib name ext none = none
read_db lib name ext (some mtime) =
    let db = db_at name (some ext) mtime in
    some (if lib.has_sigtool then with_info lib (lib.sigtool name ext) db else db)

-- .cld wins over .cvd; `file` is the extension.
unfoldable pub signature_db : SignatureLib → String → SignatureDb
unfolding read_db db_at
signature_db lib name = elim (read_db lib name ".cld" (lib.stat name ".cld")) [
  | some db ↦ db
  | none ↦ elim (read_db lib name ".cvd" (lib.stat name ".cvd")) [
    | some db ↦ db
    | none ↦ db_at name none 0
  ]
]

abbrev pub signature_dbs : List String
signature_dbs = "main" ∷ "daily" ∷ "bytecode" ∷ []

-- The total of the signatures and the newest time behind one more database
unfoldable pub add_db : SignatureDb → ℕ × ℕ → ℕ × ℕ
add_db db (total, newest) = elim db.file [
  | none ↦ (total, newest)
  | some file ↦
      ((total + db.sigs) % word, (if exceeds db.mtime_unix newest then db.mtime_unix else newest))
]

unfoldable pub totals : List SignatureDb → ℕ × ℕ → ℕ × ℕ
totals [] sums = sums
totals (db ∷ dbs) sums = totals dbs (add_db db sums)

-- sig.AgeSeconds, -1 without a database
unfoldable pub age_seconds : ℕ → ℕ → ℕ
age_seconds now newest = if nat_beq newest 0 then word - 1 else (now + (word - newest)) % word

-- The first of the fields behind the key, or what the next lines have
value_or : String → Option String → String
value_or rest none = rest
value_or rest (some v) = v

-- `confValue`
unfoldable pub conf_value : ConfLib → String → List String → String
unfolding value_or
conf_value lib key [] = ""
conf_value lib key (raw ∷ raws) =
    let rest = conf_value lib key raws in
    let line = lib.trim raw in
    if line == ""
    then rest
    else if lib.is_comment line
    then rest
    else if lib.first_field line == key
    then value_or rest (lib.other_fields line)
    else rest

-- sig.Checks
unfoldable pub checks : ConfLib → SignatureLib → Option (List String) → ℕ
checks lib sig none = 0
checks lib sig (some lines) =
    let v = conf_value lib "Checks" lines in if v == "" then 0 else sig.atoi v
