-- ===== src/Monitor/Signatures/Tests.antt =====
-- A directory of databases, and two settings of the updater.
use clamav_webui.Prelude.{
  ◌≡◌, refl, true, none, some, List, [], ◌∷◌, ◌==◌, string_eq, if◌then◌else◌, ◌↔◌, All, arith, map,
}
use clamav_webui.Prelude.Int.{pos}
use clamav_webui.Monitor.Freshness.{is_stale}
use clamav_webui.Clam.Conf.{ConfLib}
use clamav_webui.Clam.Conf.Reading.{read_values}
use clamav_webui.Monitor.Signatures.{
  SignatureDb, SignatureLib, signature_db, signature_dbs, totals, add_db, age_seconds,
  parse_sigtool_info, conf_value,
}
use clamav_webui.Monitor.Signatures.Newest.{is_stale-eq-true_iff, IsOld}
use clamav_webui.Monitor.Signatures.Checks.{conf_value-eq-read_values, first_or_empty}

-- `main` is old, `daily` of the day before, and there is no `bytecode`.
abbrev sig_lib : SignatureLib
sig_lib = record {
  stat = λ name ext.
      if name == "main"
      then (if ext == ".cvd" then some 1000 else none)
      else if name == "daily"
      then (if ext == ".cld" then some 1000000 else none)
      else none;
  has_sigtool = true;
  sigtool = λ name ext. some ("Version: 7" ∷ "Signatures: 9" ∷ []);
  atoi = λ s. if s == "7" then 7 else if s == "9" then 9 else 0;
  cut = λ s.
      if s == "Version: 7"
      then some ("Version", "7")
      else if s == "Signatures: 9"
      then some ("Signatures", "9")
      else none;
  trim = λ s. s;
}

abbrev dbs : List SignatureDb
dbs = map (signature_db sig_lib) signature_dbs

totals-dbs : totals dbs (0, 0) ≡ (18, 1000000)
unfolding totals add_db signature_db parse_sigtool_info
totals-dbs = refl

is_stale-eq-true_iff_example :
    (is_stale 7 (pos (age_seconds 1086400 (totals dbs (0, 0)).1)) ≡ true)
    ↔ All (IsOld 7 1086400) dbs
unfolding totals add_db signature_db parse_sigtool_info
is_stale-eq-true_iff_example =
    is_stale-eq-true_iff 7 1086400 dbs (omega arith) (omega arith)
      ((λ f e. omega arith), ((λ f e. omega arith), ((λ f e. omega arith), tt))) (omega arith)

abbrev freshclam_lib : ConfLib
freshclam_lib = record {
  lines = λ s. s ∷ [];
  body = λ xs. elim xs [ [] ↦ "" | x ∷ rest ↦ x ];
  strip = λ s. s;
  trim = λ s. s;
  first_field =
      λ s. if s == "Checks 24" then "Checks" else if s == "Checks 12" then "Checks" else s;
  other_fields =
      λ s. if s == "Checks 24" then some "24" else if s == "Checks 12" then some "12" else none;
  is_comment = λ s. s == "#";
  is_absolute = λ s. true;
  is_int = λ s. true;
  is_size = λ s. true;
  is_true = λ s. s == "yes";
}

reads_first :
    conf_value freshclam_lib "Checks" ("#" ∷ "Checks" ∷ "Checks 24" ∷ "Checks 12" ∷ []) ≡ "24"
unfolding conf_value
reads_first = refl

conf_value-eq-read_values_example :
    conf_value freshclam_lib "Checks" ("#" ∷ "Checks 24" ∷ "Checks 12" ∷ [])
    ≡ first_or_empty (read_values freshclam_lib "Checks" ("#" ∷ "Checks 24" ∷ "Checks 12" ∷ []))
conf_value-eq-read_values_example =
    conf_value-eq-read_values freshclam_lib "Checks" (λ s. refl)
      ("#" ∷ "Checks 24" ∷ "Checks 12" ∷ [])
