-- ===== src/Scans/Blocked.antt =====
-- A schedule whose last scan is marked running while no job is left that could end it.
pub mod Launch
pub mod Tick
pub mod Change
use clamav_webui.Prelude.{
  Option-cases, Bool-cases, inr, inl, ℕ, ◌≤◌, ◌<◌, String, Text, ◌≡◌, ◌≢◌, refl, Bool, true, false,
  Option, none, some, List, [], ◌∷◌, ◌++◌, arith, ◌==◌, nat_eq, All, All-append, if◌then◌else◌,
}
use clamav_webui.Db.Table
use clamav_webui.Db.Table.{
  last_id-insert, Table, find-insert, find-update, find-delete, last_id-update, map_option,
}
use clamav_webui.Db.Scans
use clamav_webui.Db.Scans.{
  Scan, ScanStatus, create_scan, start_scan, update_scan_progress, finish_scan, get_scan,
}
use clamav_webui.Db.Schedules.{
  Schedule, ScheduleInput, set_schedule_last_run, update_schedule, create_schedule, delete_schedule,
  get_schedule,
}
use clamav_webui.Clam.Options.{ScanOptions}
use clamav_webui.Worker
use clamav_webui.Worker.Outcomes.{enqueue_adds}
use clamav_webui.Worker.{
  EnqueueAnswers, Manager, Queued, submit, enqueue, EnqueueError, receive, register, announce,
  conclude, unregister, drain, logf, stop, cancel,
}
use clamav_webui.Scans.{
  LaunchAnswers, is_canceled, counted, run_loaded, settle, link_run, enqueue_text, Server, ScanTask,
  ScanEnd, launch, run_scheduled_scan, must_skip, handle_create_scan, handle_cancel_scan,
  begin_scan, end_scan, restart,
}
use clamav_webui.Scans.Ticks.{skips_active, find-create_scan, id-create_scan}

abbrev pub is_running : Option Scan → Bool
is_running none = false
is_running (some scan) = elim scan.status [ Scans.running ↦ true | _ ↦ false ]

abbrev pub last_run_is : ℕ → Option Schedule → Bool
last_run_is k none = true
last_run_is k (some sch) = sch.last_run_id == k

abbrev pub AvoidsQueue : ℕ → List (Queued ScanTask) → Type 0
AvoidsQueue k queue = All (λ q. q.fn.scan_id ≢ k) queue

abbrev pub Avoids : ℕ → List ScanTask → Type 0
Avoids k tasks = All (λ t. t.scan_id ≢ k) tasks

-- Scan `k` is marked running, is the last one of schedule `id` if that is still there, and no job
-- is left for it.
pub record Blocked (id k : ℕ) (s : Server) : Type 0 where
  pub row : is_running (Table.find k s.scans) ≡ true
  pub linked : last_run_is k (Table.find id s.schedules) ≡ true
  pub known : k ≤ s.scans.last_id
  pub nonzero : 0 < k
  pub planned : id ≤ s.schedules.last_id
  pub unqueued : AvoidsQueue k s.manager.queue
  pub unowned : Avoids k s.executing
