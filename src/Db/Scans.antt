-- ===== src/Db/Scans.antt =====
-- internal/db/scans.go
use clamav_webui.Prelude.{Text, ℕ, String, List, [], ◌∷◌, ◌++◌, Option, ◌==◌, nat_eq, if◌then◌else◌}
use clamav_webui.Db.Table
use clamav_webui.Db.Table.{Table}

pub data ScanStatus : Type 0 where
  queued running done error canceled : ScanStatus

pub record Scan : Type 0 where
  pub source : String
  pub status : ScanStatus
  pub paths : List Text
  pub engine : String
  pub db_version : String
  pub scanned : ℕ
  pub infected : ℕ
  pub error_text : String

unfoldable pub create_scan : String → List Text → Table Scan → Table Scan × ℕ
create_scan source paths t =
    Table.insert
      (record {
        source = source;
        status = queued;
        paths = paths;
        engine = "";
        db_version = "";
        scanned = 0;
        infected = 0;
        error_text = "";
      })
      t

unfoldable pub start_scan : ℕ → String → String → Table Scan → Table Scan
start_scan id engine version =
    Table.update id (λ s. record s { status = running; engine = engine; db_version = version })

unfoldable pub update_scan_progress : ℕ → ℕ → ℕ → Table Scan → Table Scan
update_scan_progress id scanned infected =
    Table.update id (λ s. record s { scanned = scanned; infected = infected })

unfoldable pub finish_scan : ℕ → ScanStatus → ℕ → ℕ → String → Table Scan → Table Scan
finish_scan id status scanned infected text =
    Table.update id
      (λ s. record s { status = status; scanned = scanned; infected = infected; error_text = text })

unfoldable pub get_scan : ℕ → Table Scan → Option Scan
get_scan = Table.find

pub record ScanFinding : Type 0 where
  pub scan_id : ℕ
  pub path : Text
  pub signature : Text
  pub action : String

unfoldable pub add_finding : ℕ → Text → Text → Table ScanFinding → Table ScanFinding × ℕ
add_finding scan_id path signature t =
    Table.insert (record { scan_id = scan_id; path = path; signature = signature; action = "none" })
      t

unfoldable pub set_finding_action : ℕ → String → Table ScanFinding → Table ScanFinding
set_finding_action id action = Table.update id (λ f. record f { action = action })

-- SELECT … WHERE scan_id=? ORDER BY id, from rows of which the newest comes first
abbrev pub findings_in : ℕ → List (ℕ × ScanFinding) → List ScanFinding
findings_in scan_id [] = []
findings_in scan_id ((i, f) ∷ rows) =
    findings_in scan_id rows ++ (if f.scan_id == scan_id then f ∷ [] else [])

unfoldable pub scan_findings : ℕ → Table ScanFinding → List ScanFinding
scan_findings scan_id t = findings_in scan_id t.rows
