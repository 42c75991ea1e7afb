-- ===== src/Scans/Blocked/Change.antt =====
-- What cancels, changed schedules, workers and restarts do to a blocked schedule.
use clamav_webui.Prelude.{
  Option-cases, Bool-cases, inr, inl, ℕ, ◌≤◌, String, ◌≡◌, ◌≢◌, refl, Bool, true, Option, none,
  some, List, [], ◌∷◌, ◌++◌, arith, nat_eq, if◌then◌else◌,
}
use clamav_webui.Db.Table
use clamav_webui.Db.Table.{
  last_id-insert, Table, find-insert, find-update, find-delete, last_id-update, map_option,
}
use clamav_webui.Db.Scans
use clamav_webui.Db.Scans.{
  Scan, ScanStatus, create_scan, start_scan, update_scan_progress, finish_scan, get_scan,
}
use clamav_webui.Db.Schedules.{
  Schedule, ScheduleInput, update_schedule, create_schedule, delete_schedule,
}
use clamav_webui.Worker
use clamav_webui.Worker.{
  EnqueueAnswers, Manager, Queued, submit, enqueue, EnqueueError, receive, conclude, logf, stop,
  cancel,
}
use clamav_webui.Scans.{
  is_canceled, counted, Server, ScanTask, ScanEnd, handle_cancel_scan, begin_scan, end_scan,
  restart,
}
use clamav_webui.Scans.Blocked.{Blocked, Avoids, AvoidsQueue, is_running, last_run_is}
use clamav_webui.Scans.Blocked.Launch.{find-finish_scan}

pub conclude_keeps_queue :
    (stored : Bool) (job_id : ℕ) (kind : String) (failure : Option String) (m : Manager ScanTask)
    → (conclude stored job_id kind failure m).queue ≡ m.queue
unfolding conclude
conclude_keeps_queue stored job_id kind none m = refl
conclude_keeps_queue stored job_id kind (some text) m = refl

module _ (id k : ℕ) where
  pub owner-Avoids :
      (before after : List ScanTask) (task : ScanTask) (tasks : List ScanTask)
      → tasks ≡ before ++ task ∷ after
      → Avoids k tasks
      → (task.scan_id ≢ k) × Avoids k (before ++ after)
  owner-Avoids [] after task tasks e h =
      let h' : Avoids k (task ∷ after) = rw e at h in (h'.0, h'.1)
  owner-Avoids (t ∷ before) after task tasks e h =
      let h' : Avoids k (t ∷ (before ++ task ∷ after)) = rw e at h in
      let rest = owner-Avoids before after task (before ++ task ∷ after) refl h'.1 in
      (rest.0, (h'.0, rest.1))

  cancel_keeps_row :
      (marked looked_up : Bool) (j : ℕ) (s : Server)
      → is_running (Table.find k s.scans) ≡ true
      → is_running (Table.find k (handle_cancel_scan marked looked_up j s).0.scans) ≡ true
  unfolding handle_cancel_scan finish_scan get_scan
  cancel_keeps_row marked looked_up j s e = ground (
    arith,
    find-update k j
        (λ (r : Scan). record r {
          status = Scans.canceled;
          scanned = 0;
          infected = 0;
          error_text = "canceled before start";
        })
        s.scans,
  )

  cancel_keeps_rest :
      (marked looked_up : Bool) (j : ℕ) (s : Server)
      → ((handle_cancel_scan marked looked_up j s).0.scans.last_id ≡ s.scans.last_id)
        × ((handle_cancel_scan marked looked_up j s).0.schedules ≡ s.schedules)
        × ((handle_cancel_scan marked looked_up j s).0.manager.queue ≡ s.manager.queue)
        × ((handle_cancel_scan marked looked_up j s).0.executing ≡ s.executing)
  unfolding handle_cancel_scan finish_scan Table.update Worker.cancel
  cancel_keeps_rest marked looked_up j s = (ground arith, ground arith, ground arith, ground arith)

  pub cancel-Blocked :
      (marked looked_up : Bool) (j : ℕ) (s : Server)
      → Blocked id k s
      → Blocked id k (handle_cancel_scan marked looked_up j s).0
  cancel-Blocked marked looked_up j s b =
      let kept = cancel_keeps_rest marked looked_up j s in
      record {
        row = cancel_keeps_row marked looked_up j s b.row;
        linked = rw kept.1 b.linked;
        known = rw kept.0 b.known;
        nonzero = b.nonzero;
        planned = rw kept.1 b.planned;
        unqueued = rw kept.2 b.unqueued;
        unowned = rw kept.3 b.unowned;
      }

  -- The schedules change, and schedule `id` keeps its last scan.
  plan-Blocked :
      (schedules : Table Schedule) (s : Server)
      → last_run_is k (Table.find id schedules) ≡ true
      → id ≤ schedules.last_id
      → Blocked id k s
      → Blocked id k (record s { schedules = schedules })
  plan-Blocked schedules s e h b = record {
    row = b.row;
    linked = e;
    known = b.known;
    nonzero = b.nonzero;
    planned = h;
    unqueued = b.unqueued;
    unowned = b.unowned;
  }

  -- The scan rows change, and row `k` is not among those that do.
  pub rows-Blocked :
      (scans : Table Scan) (s : Server)
      → Table.find k scans ≡ Table.find k s.scans
      → scans.last_id ≡ s.scans.last_id
      → Blocked id k s
      → Blocked id k (record s { scans = scans })
  rows-Blocked scans s e h b = record {
    row = rw e b.row;
    linked = b.linked;
    known = rw h b.known;
    nonzero = b.nonzero;
    planned = b.planned;
    unqueued = b.unqueued;
    unowned = b.unowned;
  }

  pub update-Blocked :
      (j : ℕ) (in' : ScheduleInput) (s : Server)
      → Blocked id k s
      → Blocked id k (record s { schedules = (update_schedule j in' s.schedules).0 })
  unfolding update_schedule
  update-Blocked j in' s b =
      let change = λ (r : Schedule). record r {
        name = in'.name;
        cron_expr = in'.cron_expr;
        paths = in'.paths;
        enabled = in'.enabled;
      } in
      plan-Blocked (Table.update j change s.schedules) s
        (ground (arith, find-update id j change s.schedules, b.linked))
        (rw (last_id-update j change s.schedules) b.planned) b

  pub create-Blocked :
      (in' : ScheduleInput) (s : Server)
      → Blocked id k s
      → Blocked id k (record s { schedules = (create_schedule in' s.schedules).0 })
  unfolding create_schedule
  create-Blocked in' s b =
      let sch : Schedule = record {
        name = in'.name;
        cron_expr = in'.cron_expr;
        paths = in'.paths;
        enabled = in'.enabled;
        last_run_id = 0;
      } in
      plan-Blocked (Table.insert sch s.schedules).0 s
        (ground (arith, find-insert id sch s.schedules, b.linked, b.planned))
        (omega (arith, last_id-insert sch s.schedules, b.planned)) b

  pub delete-Blocked :
      (j : ℕ) (s : Server)
      → Blocked id k s
      → Blocked id k (record s { schedules = (delete_schedule j s.schedules).0 })
  unfolding delete_schedule
  delete-Blocked j s b =
      plan-Blocked (Table.delete j s.schedules) s
        (ground (arith, find-delete id j s.schedules, b.linked)) (unfold Table.delete in b.planned)
        b

  pub begin-Blocked :
      (engine version : String) (task : ScanTask) (s : Server)
      → task.scan_id ≢ k
      → Blocked id k s
      → Blocked id k (begin_scan engine version task s).0
  unfolding begin_scan start_scan
  begin-Blocked engine version task s n b =
      let change =
        λ (r : Scan). record r { status = Scans.running; engine = engine; db_version = version } in
      let rows = Table.update task.scan_id change s.scans in
      let started =
        rows-Blocked rows s (ground (arith, find-update k task.scan_id change s.scans, n))
          (last_id-update task.scan_id change s.scans) b in
      elim (Bool-cases (is_canceled (get_scan task.scan_id s.scans))) [
        | inl e ↦ rw e b
        | inr e ↦ rw e started
      ]

  pub end-Blocked :
      (task : ScanTask) (r : ScanEnd) (s : Server)
      → task.scan_id ≢ k
      → Blocked id k s
      → Blocked id k (end_scan task r s).0
  unfolding end_scan
  end-Blocked task r s n b = elim (Option-cases r.failure) [
    | inl e ↦ rw e (
        rows-Blocked (finish_scan task.scan_id Scans.done r.scanned (counted r) "" s.scans) s
          (find-finish_scan k task.scan_id Scans.done r.scanned (counted r) "" s.scans n)
          (unfold finish_scan Table.update in refl) b)
    | inr (f, e) ↦ rw e (
        rows-Blocked
          (finish_scan task.scan_id (if f.1 then Scans.canceled else Scans.error) r.scanned
            (counted r) f.0 s.scans)
          s
          (find-finish_scan k task.scan_id (if f.1 then Scans.canceled else Scans.error) r.scanned
            (counted r) f.0 s.scans n)
          (unfold finish_scan Table.update in refl) b)
  ]

  -- The manager changes, and no job of scan `k` comes in.
  pub manager-Blocked :
      (manager : Manager ScanTask) (executing : List ScanTask) (s : Server)
      → AvoidsQueue k manager.queue
      → Avoids k executing
      → Blocked id k s
      → Blocked id k (record s { manager = manager; executing = executing })
  manager-Blocked manager executing s h h' b = record {
    row = b.row;
    linked = b.linked;
    known = b.known;
    nonzero = b.nonzero;
    planned = b.planned;
    unqueued = h;
    unowned = h';
  }

  pub receive-Blocked :
      (q : Queued ScanTask) (rest : List (Queued ScanTask)) (s : Server)
      → s.manager.queue ≡ q ∷ rest
      → Blocked id k s
      → Blocked id k
          (record s { manager = receive q rest s.manager; executing = q.fn ∷ s.executing })
  unfolding receive
  receive-Blocked q rest s e b =
      let waiting : AvoidsQueue k (q ∷ rest) = rw e at b.unqueued in
      manager-Blocked (receive q rest s.manager) (q.fn ∷ s.executing) s waiting.1
        (waiting.0, b.unowned) b

  -- What only changes the manager beside its queue.
  pub same_queue-Blocked :
      (manager : Manager ScanTask) (s : Server)
      → manager.queue ≡ s.manager.queue
      → Blocked id k s
      → Blocked id k (record s { manager = manager })
  same_queue-Blocked manager s same b =
      manager-Blocked manager s.executing s (rw same b.unqueued) b.unowned b

  pub restart-Blocked :
      (stored : Bool) (s : Server) → Blocked id k s → Blocked id k (restart stored s)
  unfolding restart Worker.new
  restart-Blocked stored s b = manager-Blocked (Worker.new stored s.manager.jobs) [] s tt tt b
