-- ===== src/Scans/Restart.antt =====
-- What a restart does to a schedule whose scan was running.
use clamav_webui.Prelude.{refl, ℕ, ◌≤◌, ◌<◌, ◌≡◌, Bool, true, ◌++◌, arith, nat_eq}
use clamav_webui.Db.Table
use clamav_webui.Db.Table.{
  last_id-insert, Table, find-insert, find-update, find-delete, last_id-update, map_option,
}
use clamav_webui.Db.Scans.{Scan, update_scan_progress, get_scan}
use clamav_webui.Db.Schedules.{get_schedule}
use clamav_webui.Clam.Options.{ScanOptions}
use clamav_webui.Worker
use clamav_webui.Worker.{
  EnqueueAnswers, Manager, Queued, submit, enqueue, EnqueueError, receive, register, announce,
  conclude, unregister, drain, logf, stop, cancel,
}
use clamav_webui.Scans.{LaunchAnswers, Server, run_scheduled_scan, restart}
use clamav_webui.Scans.Blocked.{Blocked, is_running, last_run_is}
use clamav_webui.Scans.Steps.{
  Step, Reach, posts, ticks, cancels, updates, creates, deletes, receives, begins, progresses, ends,
  registers, announces, logs, concludes, unregisters, stops, drains, restarts, here, next,
}
use clamav_webui.Scans.Blocked.Tick.{own_tick, tick-Blocked, post-Blocked}
use clamav_webui.Scans.Blocked.Change.{
  owner-Avoids, cancel-Blocked, update-Blocked, create-Blocked, delete-Blocked, begin-Blocked,
  end-Blocked, manager-Blocked, receive-Blocked, conclude_keeps_queue, same_queue-Blocked,
  restart-Blocked, rows-Blocked,
}

module _ (id k : ℕ) where
  Step-Blocked : {s u : Server} → Step s u → Blocked id k s → Blocked id k u
  Step-Blocked {s} (posts row_inserted a paths options) b =
      post-Blocked id k row_inserted a paths options s b
  Step-Blocked {s} (ticks row_inserted a options j) b =
      tick-Blocked id k row_inserted a options j s b
  Step-Blocked {s} (cancels marked looked_up j) b = cancel-Blocked id k marked looked_up j s b
  Step-Blocked {s} (updates j in') b = update-Blocked id k j in' s b
  Step-Blocked {s} (creates in') b = create-Blocked id k in' s b
  Step-Blocked {s} (deletes j) b = delete-Blocked id k j s b
  Step-Blocked {s} (receives q rest e) b = receive-Blocked id k q rest s e b
  Step-Blocked {s} (begins engine version task before after e) b =
      begin-Blocked id k engine version task s
        (owner-Avoids id k before after task s.executing e b.unowned).0 b
  Step-Blocked {s} (progresses scanned infected task before after e) b =
      let n = (owner-Avoids id k before after task s.executing e b.unowned).0 in
      let change = λ (r : Scan). record r { scanned = scanned; infected = infected } in
      unfold update_scan_progress in
      rows-Blocked id k (Table.update task.scan_id change s.scans) s
        (ground (arith, find-update k task.scan_id change s.scans, n))
        (last_id-update task.scan_id change s.scans) b
  Step-Blocked {s} (ends r task before after e) b =
      end-Blocked id k task r s (owner-Avoids id k before after task s.executing e b.unowned).0 b
  Step-Blocked {s} (registers j) b =
      same_queue-Blocked id k (register j s.manager) s (unfold register in refl) b
  Step-Blocked {s} (announces stored j kind) b =
      same_queue-Blocked id k (announce stored j kind s.manager) s (unfold announce in refl) b
  Step-Blocked {s} (logs stored j line) b =
      same_queue-Blocked id k (logf stored j line s.manager) s (unfold logf in refl) b
  Step-Blocked {s} (concludes stored j kind failure task before after e) b =
      manager-Blocked id k (conclude stored j kind failure s.manager) (before ++ after) s
        (rw (conclude_keeps_queue stored j kind failure s.manager) b.unqueued)
        (owner-Avoids id k before after task s.executing e b.unowned).1 b
  Step-Blocked {s} (unregisters j) b =
      same_queue-Blocked id k (unregister j s.manager) s (unfold unregister in refl) b
  Step-Blocked {s} stops b = same_queue-Blocked id k (stop s.manager) s (unfold stop in refl) b
  Step-Blocked {s} (drains stored) b =
      same_queue-Blocked id k (drain stored s.manager) s (unfold drain in refl) b
  Step-Blocked {s} (restarts stored) b = restart-Blocked id k stored s b

  Reach-Blocked : {s u : Server} → Reach s u → Blocked id k s → Blocked id k u
  Reach-Blocked here b = b
  Reach-Blocked (next r step) b = Step-Blocked step (Reach-Blocked r b)

-- After a restart over a database in which scan `k`, the last one of schedule `id`, is marked running,
-- both ids being within the counters of their tables and `k` not 0
-- (as a process that died in the middle of it leaves it), no tick of this schedule does anything
-- again, whatever happens to the server in between, further restarts and a cancel of scan `k`
-- included.
pub restart_blocks_schedule :
    (stored : Bool) (id k : ℕ) (s u : Server)
    → 0 < k
    → k ≤ s.scans.last_id
    → id ≤ s.schedules.last_id
    → is_running (get_scan k s.scans) ≡ true
    → last_run_is k (get_schedule id s.schedules) ≡ true
    → Reach (restart stored s) u
    → (row_inserted : Bool) (a : LaunchAnswers) (options : ScanOptions)
    → run_scheduled_scan row_inserted a options id u ≡ u
unfolding restart get_scan get_schedule Worker.new
restart_blocks_schedule stored id k s u positive known planned row linked r row_inserted a options =
    let b : Blocked id k (restart stored s) = record {
      row = row;
      linked = linked;
      known = known;
      nonzero = positive;
      planned = planned;
      unqueued = tt;
      unowned = tt;
    } in
    own_tick id k row_inserted a options u (Reach-Blocked id k r b)
