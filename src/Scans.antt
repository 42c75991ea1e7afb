-- ===== src/Scans.antt =====
-- internal/api/scans.go and the scheduled runs of internal/api/schedules.go: scan rows, schedules and
-- the jobs that carry them out, on the tables of `Db` and the manager of `Worker`.
pub mod Ticks
pub mod Steps
pub mod Blocked
pub mod Restart
pub mod Cancel
pub mod Run
pub mod Targets
mod Tests
use clamav_webui.Prelude.{
  ℕ, String, Text, Bool, true, false, ◌&&◌, ◌||◌, Option, none, some, List, [], ◌∷◌, ◌==◌, nat_eq,
  if◌then◌else◌,
}
use clamav_webui.Db.Table
use clamav_webui.Db.Table.{Table, store}
use clamav_webui.Db.Scans
use clamav_webui.Db.Scans.{Scan, ScanStatus, create_scan, start_scan, finish_scan, get_scan}
use clamav_webui.Db.Schedules.{Schedule, get_schedule, set_schedule_last_run}
use clamav_webui.Db.Jobs.{running_job_for_ref}
use clamav_webui.Clam.Options.{ScanOptions}
use Prim.Native.String
use clamav_webui.Worker
use clamav_webui.Worker.{
  Manager, EnqueueAnswers, EnqueueError, create_failed, queue_full, worker_stopped,
}

-- What the closure of a scan job captures.
pub record ScanTask : Type 0 where
  pub scan_id : ℕ
  pub source : String
  pub paths : List Text
  pub options : ScanOptions

-- The part of `Server` that scans use. `executing` are the scan tasks that workers are running.
pub record Server : Type 0 where
  pub scans : Table Scan
  pub schedules : Table Schedule
  pub manager : Manager ScanTask
  pub executing : List ScanTask

-- The outcome of `Enqueue`, and whether the row of a refused scan and the link of the schedule are
-- stored, where the program does not look at the errors.
pub record LaunchAnswers : Type 0 where
  pub job : EnqueueAnswers
  pub closed : Bool
  pub linked : Bool

abbrev pub enqueue_text : EnqueueError → String
enqueue_text (create_failed cause) = String.◌++◌ "create job: " cause
enqueue_text queue_full = "worker: job queue full"
enqueue_text worker_stopped = "worker stopped"

-- The row of a scan whose job was refused is failed, if that is stored.
unfoldable pub settle :
    Bool
    → ℕ
    → Table Scan
    → Manager ScanTask
    → Option EnqueueError
    → Server
    → Server × ℕ × Option EnqueueError
settle closed scan_id scans manager none s =
    (record s { scans = scans; manager = manager }, scan_id, none)
settle closed scan_id scans manager (some e) s = (
  record s {
    scans = store closed (finish_scan scan_id Scans.error 0 0 (enqueue_text e)) scans;
    manager = manager;
  },
  scan_id,
  some e,
)

-- The scan row and its job, as both callers make them. The
-- result is the scan id, and why the job was refused.
unfoldable pub launch :
    LaunchAnswers → String → List Text → ScanOptions → Server → Server × ℕ × Option EnqueueError
unfolding settle
launch a source paths options s =
    let (scans', scan_id) = create_scan source paths s.scans in
    let task : ScanTask = record {
      scan_id = scan_id;
      source = source;
      paths = paths;
      options = options;
    } in
    let (manager', job_id, failure) = Worker.enqueue a.job "scan" (some scan_id) task s.manager in
    settle a.closed scan_id scans' manager' failure s

pub data Reply : Type 0 where
  accepted : ℕ → Reply
  bad_request internal_error unavailable not_found conflict : Reply

reply_of : ℕ → Option EnqueueError → Reply
reply_of scan_id none = accepted scan_id
reply_of scan_id (some e) = unavailable

-- `handleCreateScan` behind the decoding of its body, on the sanitized paths (`none` for an error).
unfoldable pub handle_create_scan :
    Bool → LaunchAnswers → Option (List Text) → ScanOptions → Server → Server × Reply
unfolding reply_of
handle_create_scan row_inserted a none options s = (s, bad_request)
handle_create_scan false a (some paths) options s = (s, internal_error)
handle_create_scan true a (some paths) options s =
    let (s', scan_id, failure) = launch a "manual" paths options s in (s', reply_of scan_id failure)

abbrev pub is_active : ScanStatus → Bool
is_active Scans.queued = true
is_active Scans.running = true
is_active _ = false

-- sch.LastRunID != 0, and that scan is there and is queued or running
abbrev pub previous_active : Option Scan → Bool
previous_active none = false
previous_active (some scan) = is_active scan.status

abbrev pub must_skip : Schedule → Table Scan → Bool
must_skip sch scans =
    if sch.last_run_id == 0 then false else previous_active (get_scan sch.last_run_id scans)

-- The schedule remembers the scan whose job was scheduled, if that is stored.
unfoldable pub link_run : Bool → ℕ → ℕ → Option EnqueueError → Server → Server
link_run linked id scan_id none s = record s {
  schedules = store linked (set_schedule_last_run id scan_id) s.schedules;
}
link_run linked id scan_id (some e) s = s

-- `runScheduledScan` on the schedule that it loaded, whose stored options are `options`
unfoldable pub run_loaded : Bool → LaunchAnswers → ScanOptions → ℕ → Schedule → Server → Server
run_loaded row_inserted a options id sch s =
    if must_skip sch s.scans
    then s
    else if row_inserted
    then (let (s', scan_id, failure) = launch a "scheduled" sch.paths options s in
        link_run a.linked id scan_id failure s')
    else s

unfoldable pub run_scheduled_scan : Bool → LaunchAnswers → ScanOptions → ℕ → Server → Server
unfolding run_loaded link_run
run_scheduled_scan row_inserted a options id s = elim (get_schedule id s.schedules) [
  | none ↦ s
  | some sch ↦ run_loaded row_inserted a options id sch s
]

-- `handleCancelScan` on the id of the URL. The flags say whether the row is marked and whether the
-- job is looked up; the program does not look at the errors.
unfoldable cancel_found : Bool → Bool → ℕ → Scan → Server → Server × Reply
cancel_found marked looked_up id scan s =
    if is_active scan.status
    then (let scans' : Table Scan = elim scan.status [
      | Scans.queued ↦
          store marked (finish_scan id Scans.canceled 0 0 "canceled before start") s.scans
      | _ ↦ s.scans
    ] in
        let job : Option ℕ =
          if looked_up then running_job_for_ref "scan" id s.manager.jobs else none in
        let manager' : Manager ScanTask = elim job [
          | none ↦ s.manager
          | some job_id ↦ (Worker.cancel job_id s.manager).0
        ] in
        (record s { scans = scans'; manager = manager' }, accepted id))
    else (s, conflict)

unfoldable pub handle_cancel_scan : Bool → Bool → ℕ → Server → Server × Reply
unfolding cancel_found
handle_cancel_scan marked looked_up id s = elim (get_scan id s.scans) [
  | none ↦ (s, not_found)
  | some scan ↦ cancel_found marked looked_up id scan s
]

abbrev is_canceled : Option Scan → Bool
is_canceled none = false
is_canceled (some scan) = elim scan.status [ Scans.canceled ↦ true | _ ↦ false ]

-- The start of `runScan`: nothing is done for a scan that was canceled in the queue. The texts are
-- the versions that `Detect` found. The flag says whether the scan goes on.
unfoldable pub begin_scan : String → String → ScanTask → Server → Server × Bool
begin_scan engine version task s =
    if is_canceled (get_scan task.scan_id s.scans)
    then (s, false)
    else (record s { scans = start_scan task.scan_id engine version s.scans }, true)

-- What `Scan` returned: its counts, the number of its findings, and its error with what `runScan`
-- makes of the context (canceled or past its deadline).
pub record ScanEnd : Type 0 where
  pub scanned : ℕ
  pub infected : ℕ
  pub findings : ℕ
  pub failure : Option (String × Bool)

-- The events that `recordScanOutcome` adds, publishes and notifies, by kind.
pub data Alert : Type 0 where
  scan_failure scan_detection : Alert

abbrev counted : ScanEnd → ℕ
counted r = if r.infected == 0 then r.findings else r.infected

-- The end of `runScan`.
unfoldable pub end_scan : ScanTask → ScanEnd → Server → Server × List Alert
end_scan task r s = elim r.failure [
  | some (text, interrupted) ↦ (
    record s {
      scans =
          finish_scan task.scan_id (if interrupted then Scans.canceled else Scans.error) r.scanned
            (counted r) text s.scans;
    },
    if interrupted then [] else scan_failure ∷ [],
  )
  | none ↦ (
    record s { scans = finish_scan task.scan_id Scans.done r.scanned (counted r) "" s.scans },
    if counted r == 0 then [] else scan_detection ∷ [],
  )
]

-- A start of the program over the database that a previous process left: `worker.New` fails the jobs
-- that were open, if that is stored, and nothing reconciles the scan rows.
unfoldable pub restart : Bool → Server → Server
restart stored s = record s { manager = Worker.new stored s.manager.jobs; executing = [] }
