-- ===== src/Scans/Run.antt =====
-- `runScan` of internal/api/scans.go as a whole: the start of the row, the disk images, the scan with
-- its hooks, the cleaning up, and the outcome.
pub mod Rows
pub mod Mounts
mod Tests
use clamav_webui.Prelude.{
  ℕ, ◌+◌, ◌*◌, suc, String, Text, Bool, true, false, not, ◌&&◌, Option, none, some, List, [], ◌∷◌,
  ◌++◌, map, ltb, length, if◌then◌else◌,
}
use clamav_webui.Prelude.Bytes.{codes, replace_all}
use clamav_webui.Auth.Clock.{second, since}
use clamav_webui.Db.Table.{Table}
use clamav_webui.Db.Scans
use clamav_webui.Db.Scans.{add_finding, update_scan_progress}
use clamav_webui.Clam.System.{Trace, System}
use clamav_webui.Clam.Options.{ScanOptions}
use clamav_webui.Clam.Mount.{Texts, MountConfig, PreparedImage, Prepared, prepare_images, cleanup}
use clamav_webui.Clam.Scan.{
  ScanFinding, ScanResult, ScanEvent, line, finding, progress, ScanError, Machine, scan,
}
use clamav_webui.Scans.{LaunchAnswers, Server, ScanTask, ScanEnd, Alert, begin_scan, end_scan}

-- What a call of a hook meets: the clock, and whether the row of a finding, or the interim counts,
-- can be stored.
pub record Moment : Type 0 where
  pub now : ℕ
  pub stored : Bool

-- What a run of a scan meets. `bytes` and `name` are the two views of a text, as bytes and as a
-- name; `interrupted` says whether the context is done when the scan ends.
pub record Surroundings : Type 0 where
  pub bytes : String → Text
  pub name : Text → String
  pub texts : Texts
  pub mount_config : MountConfig
  pub mount_base : String
  pub extract_base : String
  pub system : System
  pub machine : Machine
  pub engine : String
  pub version : String
  pub moments : ℕ → Moment
  pub error_text : ScanError → String
  pub interrupted : Bool

-- The events that the hooks publish
pub data Published : Type 0 where
  scan_finding : ℕ → Text → Text → Published
  scan_progress : ℕ → ℕ → ℕ → Published

pub record Run : Type 0 where
  pub server : Server
  pub findings : Table Scans.ScanFinding
  pub log : List Text
  pub published : List Published
  pub last_flush : ℕ

abbrev with_slash : Text → Text
with_slash dir = dir ++ b'/' ∷ []

-- `RelabelPath`, where no directory is empty
unfoldable pub relabel_path : (String → Text) → List PreparedImage → Text → Text
relabel_path bytes [] s = s
relabel_path bytes (pi ∷ pis) s =
    let dir = bytes pi.dir in
    let image = bytes pi.image in
    relabel_path bytes pis
      (replace_all dir image (replace_all (with_slash dir) (image ++ codes "!/") s))

-- The three hooks
on_line : (Text → Text) → Text → Run → Run
on_line label s r = record r { log = r.log ++ label s ∷ [] }

on_finding : (Text → Text) → Moment → ℕ → ScanFinding → Run → Run
on_finding label m id f r = record r {
  findings =
      if m.stored then (add_finding id (label f.path) f.signature r.findings).0 else r.findings;
  published = r.published ++ scan_finding id (label f.path) f.signature ∷ [];
}

on_progress : Moment → ℕ → ℕ → ℕ → Run → Run
on_progress m id scanned infected r =
    if ltb (since m.now r.last_flush) (2 * second) then r else (record r {
      last_flush = m.now;
      server =
          if m.stored
          then record r.server { scans = update_scan_progress id scanned infected r.server.scans }
          else r.server;
      published = r.published ++ scan_progress id scanned infected ∷ [];
    })

unfoldable pub on_event : (Text → Text) → Moment → ℕ → ScanEvent → Run → Run
unfolding on_line on_finding on_progress
on_event label m id (line s) r = on_line label s r
on_event label m id (finding f) r = on_finding label m id f r
on_event label m id (progress scanned infected) r = on_progress m id scanned infected r

-- The calls of the hooks, the first of them at moment `i`
unfoldable pub on_events : (Text → Text) → (ℕ → Moment) → ℕ → ℕ → List ScanEvent → Run → Run
on_events label moments i id [] r = r
on_events label moments i id (e ∷ es) r =
    on_events label moments (suc i) id es (on_event label (moments i) id e r)

failure_of : Surroundings → Option ScanError → Option (String × Bool)
failure_of env none = none
failure_of env (some e) = some (env.error_text e, env.interrupted)

-- What `runScan` hands to the closing of the row
unfoldable pub scan_end : Surroundings → ScanResult → Option ScanError → ScanEnd
unfolding failure_of
scan_end env res err = record {
  scanned = res.scanned;
  infected = res.infected;
  findings = length res.findings;
  failure = failure_of env err;
}

-- With images, their trees are walked.
abbrev pub options_for : List PreparedImage → ScanOptions → ScanOptions
options_for [] opts = opts
options_for (pi ∷ pis) opts = record opts { recursive = true }

abbrev pub prepared : Surroundings → ScanTask → Prepared
prepared env task =
    prepare_images env.system env.texts env.mount_config env.mount_base env.extract_base
      (map env.name task.paths) []

-- The scan itself: its result, its error and the calls of its hooks
abbrev pub scan_output : Surroundings → ScanTask → (ScanResult × Option ScanError) × List ScanEvent
scan_output env task =
    let images = (prepared env task).images in
    scan env.machine (map env.bytes (prepared env task).paths) (options_for images task.options)

-- The run of a scan that goes on: the hooks, and then the row, the alerts and the calls to the system.
-- The images are cleaned up on every way out.
run_begun : Surroundings → ScanTask → Run → Run × List Alert × Trace
run_begun env task r =
    let images = (prepared env task).images in
    let ((res, err), events) = scan_output env task in
    let r' = on_events (relabel_path env.bytes images) env.moments 0 task.scan_id events r in
    let (server, alerts) = end_scan task (scan_end env res err) r'.server in
    (
      record r' { server = server },
      alerts,
      cleanup env.system env.mount_config env.mount_base env.extract_base images
          (prepared env task).trace,
    )

-- `runScan`
unfoldable pub run_scan : Surroundings → ScanTask → Run → Run × List Alert × Trace
unfolding run_begun
run_scan env task r =
    let (server, goes_on) = begin_scan env.engine env.version task r.server in
    if goes_on then run_begun env task (record r { server = server }) else (r, [], [])
