-- ===== src/Monitor/Detection/Tests.antt =====
-- Detections of a file, and of one below a directory whose name ends in a colon.
use Prim.Native.String
use clamav_webui.Prelude.{
  String, Text, ◌==◌, string_eq, text_eq, ◌≡◌, ◌≢◌, refl, true, none, some, [], ◌++◌, arith, eq_iff,
  if◌then◌else◌,
}
use clamav_webui.Prelude.Bytes.{
  codes, cut_prefix, cut_suffix, put_head, take_while, trim_left, is_space,
}
use clamav_webui.Db.Table
use clamav_webui.Quarantine.Files.{Host}
use clamav_webui.Quarantine.Store.{Facts}
use clamav_webui.Quarantine.Items.{Env}
use clamav_webui.Clam.Journal.{parse_on_access_found, find_path, match_path}
use clamav_webui.Clam.Journal.Colons.{journal_line}
use clamav_webui.Monitor.Detection.{Watch, on_access_detection, on_journal_line}
use clamav_webui.Monitor.Detection.Outcome.{
  Reported, on_access_detection-Reported, on_journal_line-colon,
}

abbrev calm : Host
calm t c = true

abbrev in_store : String → String
in_store name = String.◌++◌ "/q/" name

abbrev env : Env
env = record {
  host = calm;
  join = in_store;
  parent_of = λ p. "/";
  is_abs = λ p. true;
  abs = λ p. some p;
  clean = λ p. p;
  rel = λ root p. if root == "/" then some "etc/x" else none;
  read_sidecar = λ n. none;
  config_dir = "/var/lib/clamav-webui";
  browse_root = "/";
}

abbrev facts : Facts
facts = record { mode = 420; sha256 = "00"; size = 3; now = "t" }

abbrev watch : Watch
watch = record {
  shelf = record { items = Table.empty; findings = Table.empty; published = [] };
  alerts = [];
}

stored_not_x : in_store "n" ≢ "/etc/x"
stored_not_x e = ground (arith, eq_iff (in_store "n") "/etc/x")

on_access_detection-Reported_example :
    Reported "/etc/x" "/etc/x" "Eicar" facts "n" watch
      (on_access_detection env true facts (some "n") "/etc/x" "Eicar" watch)
on_access_detection-Reported_example =
    on_access_detection-Reported env true facts "n" "/etc/x" "/etc/x" "Eicar" watch refl
      stored_not_x

abbrev identity : Text → Text
identity s = s

abbrev named : Text → String
named s = if s == codes "/etc/x" then "/etc/x" else "?"

parsed :
    parse_on_access_found identity (codes "ScanOnAccess: /home/a: Eicar FOUND")
    ≡ some (codes "/home/a", codes "Eicar")
unfolding parse_on_access_found find_path match_path cut_prefix cut_suffix put_head take_while
    trim_left is_space
parsed = refl

-- The file is "/tmp/b:/etc/x".
on_journal_line-colon_example :
    on_journal_line identity named env true facts
      (some "n")
      (journal_line
        (codes "ScanOnAccess: ")
        (codes "/tmp/b" ++ codes ":/etc/x")
        b'E'
        (codes "icar"))
      watch
    ≡ on_access_detection env true facts
        (some "n")
        (named (codes "/etc/x"))
        (named (codes "Eicar"))
        watch
unfolding is_space
on_journal_line-colon_example =
    on_journal_line-colon env true facts (some "n") watch named identity (codes "ScanOnAccess: ")
      (codes "/tmp/b") b'e' (codes "tc/x") b'E' (codes "icar") (ground arith) (ground arith)
      (λ e. omega (arith, e)) refl (ground arith) refl refl refl refl
