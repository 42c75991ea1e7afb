-- ===== src/Scans/Steps.antt =====
-- The steps of the server that concern scans, schedules and their jobs.
use clamav_webui.Prelude.{ℕ, String, Text, ◌≡◌, Bool, Option, List, ◌∷◌, ◌++◌, nat_eq}
use clamav_webui.Db.Scans.{update_scan_progress}
use clamav_webui.Db.Schedules.{ScheduleInput, update_schedule, create_schedule, delete_schedule}
use clamav_webui.Clam.Options.{ScanOptions}
use clamav_webui.Worker.{
  Queued, receive, register, announce, logf, conclude, unregister, stop, drain,
}
use clamav_webui.Scans.{
  LaunchAnswers, Server, LaunchAnswers, ScanTask, ScanEnd, run_scheduled_scan, handle_create_scan,
  handle_cancel_scan, begin_scan, end_scan, restart,
}

-- What happens to the server, in any order, also in orders in which the manager's goroutines cannot
-- stand.
pub data Step (s : Server) : Server → Type 0 where
  posts :
      (row_inserted : Bool) (a : LaunchAnswers) (paths : Option (List Text)) (options : ScanOptions)
      → Step s (handle_create_scan row_inserted a paths options s).0
  ticks :
      (row_inserted : Bool) (a : LaunchAnswers) (options : ScanOptions) (id : ℕ)
      → Step s (run_scheduled_scan row_inserted a options id s)
  cancels : (marked looked_up : Bool) (id : ℕ) → Step s (handle_cancel_scan marked looked_up id s).0
  updates :
      (id : ℕ) (in' : ScheduleInput)
      → Step s (record s { schedules = (update_schedule id in' s.schedules).0 })
  creates :
      (in' : ScheduleInput) → Step s (record s { schedules = (create_schedule in' s.schedules).0 })
  deletes : (id : ℕ) → Step s (record s { schedules = (delete_schedule id s.schedules).0 })
  receives :
      (q : Queued ScanTask) (rest : List (Queued ScanTask))
      → s.manager.queue ≡ q ∷ rest
      → Step s (record s { manager = receive q rest s.manager; executing = q.fn ∷ s.executing })
  registers : (id : ℕ) → Step s (record s { manager = register id s.manager })
  announces :
      (stored : Bool) (id : ℕ) (kind : String)
      → Step s (record s { manager = announce stored id kind s.manager })
  logs :
      (stored : Bool) (id : ℕ) (line : String)
      → Step s (record s { manager = logf stored id line s.manager })
  begins :
      (engine version : String) (task : ScanTask) (before after : List ScanTask)
      → s.executing ≡ before ++ task ∷ after
      → Step s (begin_scan engine version task s).0
  progresses :
      (scanned infected : ℕ) (task : ScanTask) (before after : List ScanTask)
      → s.executing ≡ before ++ task ∷ after
      → Step s (record s { scans = update_scan_progress task.scan_id scanned infected s.scans })
  ends :
      (r : ScanEnd) (task : ScanTask) (before after : List ScanTask)
      → s.executing ≡ before ++ task ∷ after
      → Step s (end_scan task r s).0
  concludes :
      (stored : Bool) (id : ℕ) (kind : String) (failure : Option String) (task : ScanTask)
      (before after : List ScanTask)
      → s.executing ≡ before ++ task ∷ after
      → Step s (record s {
        manager = conclude stored id kind failure s.manager;
        executing = before ++ after;
      })
  unregisters : (id : ℕ) → Step s (record s { manager = unregister id s.manager })
  stops : Step s (record s { manager = stop s.manager })
  drains : (stored : Bool) → Step s (record s { manager = drain stored s.manager })
  restarts : (stored : Bool) → Step s (restart stored s)

pub data Reach (s : Server) : Server → Type 0 where
  here : Reach s s
  next : {t u : Server} → Reach s t → Step t u → Reach s u
