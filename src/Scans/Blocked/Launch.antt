-- ===== src/Scans/Blocked/Launch.antt =====
-- A new scan and its job leave a blocked schedule blocked.
use clamav_webui.Prelude.{
  inr, inl, ℕ, ◌≤◌, String, Text, ◌≡◌, ◌≢◌, Bool, Option, none, some, List, [], ◌∷◌, arith, nat_eq,
  All-append,
}
use clamav_webui.Db.Table
use clamav_webui.Db.Table.{
  last_id-insert, Table, find-insert, find-update, find-delete, last_id-update, map_option,
}
use clamav_webui.Db.Scans
use clamav_webui.Db.Scans.{
  Scan, ScanStatus, create_scan, start_scan, update_scan_progress, finish_scan, get_scan,
}
use clamav_webui.Clam.Options.{ScanOptions}
use clamav_webui.Worker
use clamav_webui.Worker.Outcomes.{enqueue_adds}
use clamav_webui.Worker.{
  EnqueueAnswers, Manager, Queued, submit, enqueue, EnqueueError, receive, register, announce,
  conclude, unregister, drain, logf, stop, cancel,
}
use clamav_webui.Scans.{LaunchAnswers, settle, enqueue_text, Server, ScanTask, launch}
use clamav_webui.Scans.Ticks.{find-create_scan, id-create_scan}
use clamav_webui.Scans.Blocked.{Blocked, AvoidsQueue}

pub find-finish_scan :
    (j i : ℕ) (status : ScanStatus) (scanned infected : ℕ) (text : String) (t : Table Scan)
    → i ≢ j
    → Table.find j (finish_scan i status scanned infected text t) ≡ Table.find j t
unfolding finish_scan
find-finish_scan j i status scanned infected text t n = ground (
  arith,
  find-update j i
      (λ (r : Scan). record r {
        status = status;
        scanned = scanned;
        infected = infected;
        error_text = text;
      })
      t,
)

module _ (id k : ℕ) where
  queue-enqueue :
      (a : EnqueueAnswers) (kind : String) (ref : Option ℕ) (task : ScanTask) (m : Manager ScanTask)
      → task.scan_id ≢ k
      → AvoidsQueue k m.queue
      → AvoidsQueue k (enqueue a kind ref task m).0.queue
  queue-enqueue a kind ref task m n h =
      let u = (enqueue a kind ref task m).0 in
      elim (enqueue_adds a kind ref task m) [
        | inl same ↦ rw same h
        | inr (q, is_task, added) ↦ rw added (
            All-append (λ (p : Queued ScanTask). p.fn.scan_id ≢ k) m.queue (q ∷ []) h
              (rw is_task n, tt))
      ]

  settle-Blocked :
      (closed : Bool) (scan_id : ℕ) (scans : Table Scan) (manager : Manager ScanTask)
      (failure : Option EnqueueError) (s : Server)
      → scan_id ≢ k
      → Blocked id k (record s { scans = scans; manager = manager })
      → Blocked id k (settle closed scan_id scans manager failure s).0
  unfolding settle
  settle-Blocked closed scan_id scans manager none s n b = b
  settle-Blocked closed scan_id scans manager (some e) s n b = record {
    row =
        ground (arith, find-finish_scan k scan_id Scans.error 0 0 (enqueue_text e) scans n, b.row);
    linked = b.linked;
    known = unfold finish_scan Table.update in ground (arith, b.known);
    nonzero = b.nonzero;
    planned = b.planned;
    unqueued = b.unqueued;
    unowned = b.unowned;
  }

  created-row :
      (source : String) (paths : List Text) (t : Table Scan)
      → k ≤ t.last_id
      → Table.find k (create_scan source paths t).0 ≡ Table.find k t
  created-row source paths t h = ground (arith, find-create_scan k source paths t)

  pub launch-Blocked :
      (a : LaunchAnswers) (source : String) (paths : List Text) (options : ScanOptions) (s : Server)
      → Blocked id k s
      → Blocked id k (launch a source paths options s).0
  unfolding launch
  launch-Blocked a source paths options s b =
      let (scans', scan_id) = create_scan source paths s.scans in
      let ids = id-create_scan source paths s.scans in
      let fresh : scan_id ≢ k = λ e. omega (arith, ids.0, b.known) in
      let task : ScanTask = record {
        scan_id = scan_id;
        source = source;
        paths = paths;
        options = options;
      } in
      let (manager', job_id, failure) = Worker.enqueue a.job "scan" (some scan_id) task s.manager in
      settle-Blocked a.closed scan_id scans' manager' failure s fresh (record {
        row = rw (created-row source paths s.scans b.known) b.row;
        linked = b.linked;
        known = omega (arith, ids.1, b.known);
        nonzero = b.nonzero;
        planned = b.planned;
        unqueued = queue-enqueue a.job "scan" (some scan_id) task s.manager fresh b.unqueued;
        unowned = b.unowned;
      })
