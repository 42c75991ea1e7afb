-- ===== src/Scans/Ticks.antt =====
-- One tick of a schedule, on every branch.
use clamav_webui.Worker
use Prim.Native.String
use clamav_webui.Prelude.{
  none, refl, sym, sym, false, ◌≢◌, Option, ℕ, suc, String, Text, ◌≡◌, Bool, true, some, List,
  arith, ◌==◌, nat_eq, if◌then◌else◌,
}
use clamav_webui.Db.Table
use clamav_webui.Db.Table.{Table, find-insert, find-update, id-insert, last_id-insert}
use clamav_webui.Db.Scans
use clamav_webui.Db.Scans.{Scan, create_scan, finish_scan, get_scan}
use clamav_webui.Db.Schedules.{set_schedule_last_run, Schedule, get_schedule}
use clamav_webui.Clam.Options.{ScanOptions}
use clamav_webui.Scans.{
  LaunchAnswers, run_loaded, link_run, enqueue_text, ScanTask, Manager, EnqueueError, create_failed,
  queue_full, worker_stopped, settle, launch, Server, run_scheduled_scan, must_skip,
}

abbrev pub new_row : String → List Text → Scan
new_row source paths = record {
  source = source;
  status = Scans.queued;
  paths = paths;
  engine = "";
  db_version = "";
  scanned = 0;
  infected = 0;
  error_text = "";
}

pub find-create_scan :
    (j : ℕ) (source : String) (paths : List Text) (t : Table Scan)
    → Table.find j (create_scan source paths t).0
      ≡ (if suc t.last_id == j then some (new_row source paths) else Table.find j t)
unfolding create_scan
find-create_scan j source paths t = find-insert j (new_row source paths) t

pub id-create_scan :
    (source : String) (paths : List Text) (t : Table Scan)
    → ((create_scan source paths t).1 ≡ suc t.last_id)
      × ((create_scan source paths t).0.last_id ≡ suc t.last_id)
unfolding create_scan
id-create_scan source paths t = (id-insert _ t, last_id-insert _ t)

-- A tick with the schedule's last scan still queued or running changes nothing: the scans of one
-- schedule do not pile up.
pub skips_active :
    (row_inserted : Bool) (a : LaunchAnswers) (options : ScanOptions) (id : ℕ) (sch : Schedule)
    (s : Server)
    → get_schedule id s.schedules ≡ some sch
    → must_skip sch s.scans ≡ true
    → run_scheduled_scan row_inserted a options id s ≡ s
unfolding run_scheduled_scan
skips_active row_inserted a options id sch s e h = ground arith

abbrev refused_row : String → Scan → Scan
refused_row text r = record r { status = Scans.error; scanned = 0; infected = 0; error_text = text }

-- The row of a new scan after its job was submitted, if the refusal can be stored
abbrev pub settled_row : Bool → Option EnqueueError → Scan → Scan
settled_row closed none r = r
settled_row false (some e) r = r
settled_row true (some (create_failed cause)) r = refused_row (String.◌++◌ "create job: " cause) r
settled_row true (some queue_full) r = refused_row "worker: job queue full" r
settled_row true (some worker_stopped) r = refused_row "worker stopped" r

settled_row-refused :
    (e : EnqueueError) (r : Scan) → refused_row (enqueue_text e) r ≡ settled_row true (some e) r
settled_row-refused (create_failed cause) r = refl
settled_row-refused queue_full r = refl
settled_row-refused worker_stopped r = refl

-- What `launch` leaves: the row `new_id` as `failure` settles it, and nothing else of rows and schedules.
abbrev Launched :
    Bool → ℕ → Scan → Table Scan → Table Schedule → Server × ℕ × Option EnqueueError → Type 0
Launched closed new_id row scans schedules (u, scan_id, failure) =
    ((j : ℕ) → j ≢ new_id → Table.find j u.scans ≡ Table.find j scans)
    × (Table.find new_id u.scans ≡ some (settled_row closed failure row))
    × (scan_id ≡ new_id)
    × (u.schedules ≡ schedules)

settle-Launched :
    (closed : Bool) (new_id : ℕ) (row : Scan) (scans : Table Scan) (manager : Manager ScanTask)
    (failure : Option EnqueueError) (s : Server)
    → Table.find new_id scans ≡ some row
    → ((j : ℕ) → j ≢ new_id → Table.find j scans ≡ Table.find j s.scans)
    → Launched closed new_id row s.scans s.schedules (settle closed new_id scans manager failure s)
unfolding settle finish_scan
settle-Launched closed new_id row scans manager none s e h = (h, e, refl, refl)
settle-Launched false new_id row scans manager (some f) s e h = (h, e, refl, refl)
settle-Launched true new_id row scans manager (some f) s e h =
    let change = refused_row (enqueue_text f) in
    (
      λ j n. ground (arith, find-update j new_id change scans, n, h j n),
      rw (← settled_row-refused f row) (ground (arith, find-update new_id new_id change scans, e)),
      refl,
      refl,
    )

launch-Launched :
    (a : LaunchAnswers) (source : String) (paths : List Text) (options : ScanOptions) (s : Server)
    → Launched a.closed
        (suc s.scans.last_id)
        (new_row source paths)
        s.scans
        s.schedules
        (launch a source paths options s)
unfolding launch
launch-Launched a source paths options s =
    let (scans', scan_id) = create_scan source paths s.scans in
    let is_new : scan_id ≡ suc s.scans.last_id = (id-create_scan source paths s.scans).0 in
    let task : ScanTask = record {
      scan_id = scan_id;
      source = source;
      paths = paths;
      options = options;
    } in
    let (manager', job_id, failure) = Worker.enqueue a.job "scan" (some scan_id) task s.manager in
    rw (sym is_new) (
      settle-Launched a.closed scan_id (new_row source paths) scans' manager' failure s
        (ground (arith, find-create_scan scan_id source paths s.scans, is_new))
        (λ j n. ground (arith, find-create_scan j source paths s.scans, is_new, n)))

-- What a tick does: the schedule's last run follows a job that was accepted, if it can be stored.
abbrev pub linked_schedule : Bool → Option EnqueueError → ℕ → Schedule → Schedule
linked_schedule true none scan_id sch = record sch { last_run_id = scan_id }
linked_schedule false none scan_id sch = sch
linked_schedule linked (some e) scan_id sch = sch

link_run-schedule :
    (linked : Bool) (id scan_id : ℕ) (failure : Option EnqueueError) (sch : Schedule) (s : Server)
    → Table.find id s.schedules ≡ some sch
    → ((link_run linked id scan_id failure s).scans ≡ s.scans)
      × (Table.find id (link_run linked id scan_id failure s).schedules
          ≡ some (linked_schedule linked failure scan_id sch))
unfolding link_run set_schedule_last_run
link_run-schedule true id scan_id none sch s e = (
  refl,
  ground (
    arith,
    find-update id id (λ (r : Schedule). record r { last_run_id = scan_id }) s.schedules,
    e,
  ),
)
link_run-schedule false id scan_id none sch s e = (refl, e)
link_run-schedule true id scan_id (some f) sch s e = (refl, e)
link_run-schedule false id scan_id (some f) sch s e = (refl, e)

tick_free :
    (a : LaunchAnswers) (options : ScanOptions) (id : ℕ) (sch : Schedule) (s : Server)
    → get_schedule id s.schedules ≡ some sch
    → must_skip sch s.scans ≡ false
    → run_scheduled_scan true a options id s ≡ (
        let (s', scan_id, failure) = launch a "scheduled" sch.paths options s in
        link_run a.linked id scan_id failure s')
unfolding run_scheduled_scan run_loaded
tick_free a options id sch s e h = ground arith

-- A tick whose schedule is there and has no scan queued or running, and whose scan row is inserted, adds
-- exactly that row, on the schedule's paths. Where the manager accepts the job, the row is queued
-- and becomes the schedule's last run, if this can be stored; where it refuses, the row is an error
-- with the text of the refusal, if that can be stored, or else stays queued, and the schedule keeps
-- its last run. No other scan changes.
pub run_scheduled_scan_adds :
    (a : LaunchAnswers) (options : ScanOptions) (id : ℕ) (sch : Schedule) (s : Server)
    → get_schedule id s.schedules ≡ some sch
    → must_skip sch s.scans ≡ false
    → let u = run_scheduled_scan true a options id s in
      let new_id = suc s.scans.last_id in
      let failure = (launch a "scheduled" sch.paths options s).2 in
      ((j : ℕ) → j ≢ new_id → get_scan j u.scans ≡ get_scan j s.scans)
      × (get_scan new_id u.scans
          ≡ some (settled_row a.closed failure (new_row "scheduled" sch.paths)))
      × (get_schedule id u.schedules ≡ some (linked_schedule a.linked failure new_id sch))
unfolding get_scan get_schedule
run_scheduled_scan_adds a options id sch s e h =
    let (s', scan_id, failure) = launch a "scheduled" sch.paths options s in
    let (others, row, is_new, plans) = launch-Launched a "scheduled" sch.paths options s in
    let e' : Table.find id s'.schedules ≡ some sch = rw plans e in
    let (same_rows, linked) = link_run-schedule a.linked id scan_id failure sch s' e' in
    rw (tick_free a options id sch s e h)
      (λ j n. rw same_rows (others j n), rw same_rows row, rw (sym is_new) linked)
