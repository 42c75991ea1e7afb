-- ===== src/Scans/Run/Rows.antt =====
-- What a run of a scan leaves in the database.
use clamav_webui.Prelude.{
  ℕ, suc, ◌≡◌, ◌≢◌, refl, sym, ap, ◌∙◌, String, Text, Bool, true, false, Option, none, some, List,
  [], ◌∷◌, ◌++◌, append_assoc, append-nil, map, arith, length, if◌then◌else◌, Bool-cases, ltb, ◌*◌,
  nat_eq, ◌==◌, inl, inr,
}
use clamav_webui.Auth.Clock.{second, since}
use clamav_webui.Db.Table.{Table, find-update, insert}
use clamav_webui.Db.Scans
use clamav_webui.Db.Scans.{
  Scan, ScanStatus, get_scan, start_scan, finish_scan, update_scan_progress, add_finding,
  scan_findings, findings_in,
}
use clamav_webui.Clam.Scan.{ScanFinding, ScanResult, ScanError, ScanEvent, line, finding, progress}
use clamav_webui.Clam.Scan.Hooks.{reported, scan_hooks}
use clamav_webui.Scans.{
  is_canceled, Server, ScanTask, Alert, scan_failure, scan_detection, begin_scan, end_scan,
  is_canceled,
}
use clamav_webui.Scans.Run.{
  Surroundings, Moment, Run, relabel_path, on_event, on_events, on_line, on_finding, on_progress,
  scan_end, failure_of, prepared, scan_output, run_begun, run_scan, options_for,
}

-- The row of a finding, under its label
abbrev pub row_for : ℕ → (Text → Text) → ScanFinding → Scans.ScanFinding
row_for id label f = record {
  scan_id = id;
  path = label f.path;
  signature = f.signature;
  action = "none";
}

add_finding-scan_findings :
    (id : ℕ) (path sig : Text) (t : Table Scans.ScanFinding)
    → scan_findings id (add_finding id path sig t).0
      ≡ scan_findings id t
        ++ record { scan_id = id; path = path; signature = sig; action = "none" } ∷ []
unfolding scan_findings add_finding insert
add_finding-scan_findings id path sig t = ground arith

module _ (label : Text → Text) (id : ℕ) where
  on_event-findings :
      (m : Moment) (e : ScanEvent) (r : Run)
      → m.stored ≡ true
      → scan_findings id (on_event label m id e r).findings
        ≡ scan_findings id r.findings ++ map (row_for id label) (reported (e ∷ []))
  unfolding on_event on_line on_finding on_progress
  on_event-findings m (line s) r h = sym (append-nil _)
  on_event-findings m (finding f) r h =
      rw h (add_finding-scan_findings id (label f.path) f.signature r.findings)
  on_event-findings m (progress n k) r h = ground (arith, append-nil (scan_findings id r.findings))

  map-reported :
      (e : ScanEvent) (es : List ScanEvent)
      → map (row_for id label) (reported (e ∷ [])) ++ map (row_for id label) (reported es)
        ≡ map (row_for id label) (reported (e ∷ es))
  map-reported (line s) es = refl
  map-reported (finding f) es = refl
  map-reported (progress n k) es = refl

  on_events-findings :
      (moments : ℕ → Moment) (i : ℕ) (es : List ScanEvent) (r : Run)
      → ((j : ℕ) → (moments j).stored ≡ true)
      → scan_findings id (on_events label moments i id es r).findings
        ≡ scan_findings id r.findings ++ map (row_for id label) (reported es)
  unfolding on_events
  on_events-findings moments i [] r h = sym (append-nil _)
  on_events-findings moments i (e ∷ es) r h =
      on_events-findings moments (suc i) es (on_event label (moments i) id e r) h
      ∙ ap (λ (fs : List Scans.ScanFinding). fs ++ map (row_for id label) (reported es))
          (on_event-findings (moments i) e r (h i))
      ∙ append_assoc (scan_findings id r.findings) (map (row_for id label) (reported (e ∷ [])))
          (map (row_for id label) (reported es))
      ∙ ap (λ (fs : List Scans.ScanFinding). scan_findings id r.findings ++ fs) (map-reported e es)

  -- The interim counts are all that the hooks change of the row of the scan.
  abbrev IsInterim : Scan → Run → Type 0
  IsInterim row r =
      (n : ℕ) × (k : ℕ) × (get_scan id r.server.scans
        ≡ some (record row { scanned = n; infected = k }))

  on_event-IsInterim :
      (row : Scan) (m : Moment) (e : ScanEvent) (r : Run)
      → IsInterim row r
      → IsInterim row (on_event label m id e r)
  unfolding on_event on_line on_finding on_progress get_scan update_scan_progress
  on_event-IsInterim row m (line s) r h = h
  on_event-IsInterim row m (finding f) r h = h
  on_event-IsInterim row m (progress a b) r (n, k, h) =
      elim (Bool-cases (ltb (since m.now r.last_flush) (2 * second))) [
        | inl soon ↦ rw soon (n, k, h)
        | inr late ↦ elim (Bool-cases m.stored) [
          | inl stored ↦
              rw (late, stored) (a, b, find-update id id _ r.server.scans ∙ ground (arith, h))
          | inr lost ↦ rw (late, lost) (n, k, h)
        ]
      ]

  on_events-IsInterim :
      (row : Scan) (moments : ℕ → Moment) (i : ℕ) (es : List ScanEvent) (r : Run)
      → IsInterim row r
      → IsInterim row (on_events label moments i id es r)
  unfolding on_events
  on_events-IsInterim row moments i [] r h = h
  on_events-IsInterim row moments i (e ∷ es) r h =
      on_events-IsInterim row moments (suc i) es (on_event label (moments i) id e r)
        (on_event-IsInterim row (moments i) e r h)

-- The number of infected files that is stored
abbrev pub total : ScanResult → ℕ
total res = if res.infected == 0 then length res.findings else res.infected

abbrev pub status_for : Bool → Option ScanError → ScanStatus
status_for interrupted none = Scans.done
status_for interrupted (some e) = if interrupted then Scans.canceled else Scans.error

abbrev pub text_for : (ScanError → String) → Option ScanError → String
text_for error_text none = ""
text_for error_text (some e) = error_text e

abbrev pub alerts_for : Bool → Option ScanError → ScanResult → List Alert
alerts_for interrupted none res = if total res == 0 then [] else scan_detection ∷ []
alerts_for interrupted (some e) res = if interrupted then [] else scan_failure ∷ []

abbrev pub final_row : Surroundings → ScanTask → Scan → Scan
final_row env task row =
    let (res, err) = (scan_output env task).0 in
    record row {
      status = status_for env.interrupted err;
      engine = env.engine;
      db_version = env.version;
      scanned = res.scanned;
      infected = total res;
      error_text = text_for env.error_text err;
    }

end_scan-row :
    (env : Surroundings) (task : ScanTask) (res : ScanResult) (err : Option ScanError) (s : Server)
    (row : Scan)
    → get_scan task.scan_id s.scans ≡ some row
    → let out = end_scan task (scan_end env res err) s in
      (get_scan task.scan_id out.0.scans
        ≡ some (record row {
          status = status_for env.interrupted err;
          scanned = res.scanned;
          infected = total res;
          error_text = text_for env.error_text err;
        }))
      × (out.1 ≡ alerts_for env.interrupted err res)
unfolding end_scan scan_end failure_of get_scan finish_scan
end_scan-row env task res none s row h =
    (find-update task.scan_id task.scan_id _ s.scans ∙ ground (arith, h), ground arith)
end_scan-row env task res (some e) s row h =
    (find-update task.scan_id task.scan_id _ s.scans ∙ ground (arith, h), ground arith)

not_canceled : (row : Scan) → row.status ≢ Scans.canceled → is_canceled (some row) ≡ false
not_canceled row h = ground (arith, h)

begin_scan-row :
    (engine version : String) (task : ScanTask) (s : Server) (row : Scan)
    → get_scan task.scan_id s.scans ≡ some row
    → row.status ≢ Scans.canceled
    → let out = begin_scan engine version task s in
      (out.1 ≡ true)
      × (get_scan task.scan_id out.0.scans
          ≡ some (record row { status = Scans.running; engine = engine; db_version = version }))
unfolding begin_scan get_scan start_scan
begin_scan-row engine version task s row h going =
    let open' : is_canceled (get_scan task.scan_id s.scans) ≡ false =
      rw h (not_canceled row going) in
    (rw open' refl, rw open' (find-update task.scan_id task.scan_id _ s.scans ∙ ground (arith, h)))

-- A run of a scan whose row is there and was not canceled in the queue, where each row can be stored: the findings of
-- the scan grow by those of the result, in order and under their labels; its row ends with the
-- versions, the counts, the status and the text that belong to how the scan ended; and an alert is
-- raised exactly for an error that is no interruption, or for infected files.
pub run_scan_records :
    (env : Surroundings) (task : ScanTask) (r : Run) (row : Scan)
    → get_scan task.scan_id r.server.scans ≡ some row
    → row.status ≢ Scans.canceled
    → ((i : ℕ) → (env.moments i).stored ≡ true)
    → let (res, err) = (scan_output env task).0 in
      let label = relabel_path env.bytes (prepared env task).images in
      let out = run_scan env task r in
      (scan_findings task.scan_id out.0.findings
        ≡ scan_findings task.scan_id r.findings ++ map (row_for task.scan_id label) res.findings)
      × (get_scan task.scan_id out.0.server.scans ≡ some (final_row env task row))
      × (out.1 ≡ alerts_for env.interrupted err res)
unfolding run_scan run_begun
run_scan_records env task r row there going stored =
    let begun = begin_scan-row env.engine env.version task r.server row there going in
    let start = record r { server = (begin_scan env.engine env.version task r.server).0 } in
    let images = (prepared env task).images in
    let label = relabel_path env.bytes images in
    let ((res, err), events) = scan_output env task in
    let r' = on_events label env.moments 0 task.scan_id events start in
    let grown = on_events-findings label task.scan_id env.moments 0 events start stored in
    let hooks =
      scan_hooks env.machine (map env.bytes (prepared env task).paths)
        (options_for images task.options) in
    let row' = record row {
      status = Scans.running;
      engine = env.engine;
      db_version = env.version;
    } in
    let interim =
      on_events-IsInterim label task.scan_id row' env.moments 0 events start
        (row.scanned, row.infected, begun.1) in
    let end = end_scan-row env task res err r'.server _ interim.2 in
    rw begun.0 (
      grown
          ∙ ap
              (λ (fs : List ScanFinding).
                scan_findings task.scan_id r.findings ++ map (row_for task.scan_id label) fs)
              (sym hooks.0),
      end.0,
      end.1,
    )
