-- ===== src/Worker/Tests.antt =====
-- Runs of the worker's manager.
use clamav_webui.Prelude.{ℕ, ◌≡◌, refl, true, false, none, some, [], ◌∷◌}
use clamav_webui.Db.Table
use clamav_webui.Db.Table.{Table}
use clamav_webui.Db.Jobs
use clamav_webui.Db.Jobs.{
  Job, error, done, create_job, set_job_running, finish_job, fail_stale_jobs, append_job_log,
}
use clamav_webui.Worker.{
  Manager, Queued, new, enqueue, create, submit, submit_created, receive, register, announce,
  conclude, unregister, drain, logf,
}
use clamav_webui.Worker.Rows.{queued_status, running_status}
use clamav_webui.Worker.Invariant.{Inv}
use clamav_webui.Worker.Lifecycle.{
  Reach, here, next, creates, submits, receives, registers, announces, logs, concludes, unregisters,
  Reach-new-Inv,
}
use clamav_webui.Worker.Outcomes.{outcome_is_final, drain_closes, row_after}

abbrev Task : Type 0
Task = Unit {0}

abbrev none_yet : Table Job
none_yet = Table.empty

abbrev first : Queued Task
first = record { id = 1; kind = "scan"; fn = tt }

abbrev one_queued : Manager Task
one_queued = (submit false true first (create "scan" none (new true none_yet)).0).0

abbrev one_running : Manager Task
one_running = announce true 1 "scan" (register 1 (receive first [] one_queued))

abbrev one_failed : Manager Task
one_failed =
    unregister 1 (conclude true 1 "scan" (some "boom") (logf true 1 "error: boom" one_running))

-- `Enqueue` makes the two steps.
enqueued :
    (enqueue
      (record { insert_failure = none; take_done = false; closed = true })
      "scan"
      none
      tt
      (new true none_yet)).0
    ≡ one_queued
unfolding enqueue submit_created create create_job Table.insert finish_job new fail_stale_jobs
    Table.update_all
enqueued = refl

failed_row :
    Table.find 1 one_failed.jobs
    ≡ some (record {
      kind = "scan";
      status = error;
      ref_id = none;
      log = "error: boom\n" ∷ [];
      error_text = "boom";
    })
unfolding create submit receive register announce conclude unregister new logf create_job
    set_job_running finish_job fail_stale_jobs append_job_log Table.find Table.insert Table.update
    Table.update_all
failed_row = refl

to_queued : Reach true (new true none_yet) one_queued
unfolding create submit new create_job fail_stale_jobs Table.insert Table.update_all
to_queued = next (next here (creates "scan" none)) (submits false true first (λ r. refl) refl)

to_failed : Reach true (new true none_yet) one_failed
unfolding create submit receive register announce conclude unregister logf new create_job
    fail_stale_jobs Table.insert Table.update_all
to_failed =
    next
      (next
        (next
          (next (next (next to_queued (receives first [] refl)) (registers 1 refl))
            (announces true 1 "scan" (λ r. refl) refl))
          (logs true 1 "error: boom" refl))
        (concludes true 1 "scan" (some "boom") (λ r. refl) refl))
      (unregisters 1 refl)

none_fresh : Table.IsFresh none_yet
unfolding Table.find
none_fresh id lt = refl

Reach-new-Inv_example : Inv true one_failed
Reach-new-Inv_example = Reach-new-Inv true true none_yet one_failed (λ r. refl) none_fresh to_failed

outcome_is_final_example :
    Table.find 1 (create "scan" none one_failed).0.jobs
    ≡ some (record {
      kind = "scan";
      status = error;
      ref_id = none;
      log = "error: boom\n" ∷ [];
      error_text = "boom";
    })
outcome_is_final_example =
    outcome_is_final true 1
      (record {
        kind = "scan";
        status = error;
        ref_id = none;
        log = "error: boom\n" ∷ [];
        error_text = "boom";
      })
      refl one_failed (create "scan" none one_failed).0
      (Reach-new-Inv true true none_yet one_failed (λ r. refl) none_fresh to_failed) failed_row
      (next here (creates "scan" none))

queued_row :
    Table.find 1 one_queued.jobs
    ≡ some
        (record { kind = "scan"; status = Jobs.queued; ref_id = none; log = []; error_text = "" })
unfolding create submit new create_job finish_job fail_stale_jobs Table.find Table.insert
    Table.update Table.update_all
queued_row = refl

abbrev queued_job : Job
queued_job = record {
  kind = "scan";
  status = Jobs.queued;
  ref_id = none;
  log = [];
  error_text = "";
}

abbrev second : Queued Task
second = record { id = 2; kind = "scan"; fn = tt }

drain_closes_example :
    let late = (submit false true second (drain true one_queued)).0 in
    (Table.find 1 (drain true one_queued).jobs ≡ some (row_after true queued_job))
    × ((i : ℕ)
        → (queued_status (Table.find i late.jobs) ≡ false)
          × (running_status (Table.find i late.jobs) ≡ false))
drain_closes_example = drain_closes true false true one_queued 1 queued_job second queued_row
