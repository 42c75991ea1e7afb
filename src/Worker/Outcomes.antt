-- ===== src/Worker/Outcomes.antt =====
-- What becomes of the rows of jobs: an outcome is final, and a shutdown leaves none open.
use Prim.Native.String
use clamav_webui.Prelude.{
  [], inr, inl, ◌++◌, ◌⊎◌, ℕ, String, ◌≡◌, refl, Bool, true, false, Option, none, some, List, ◌∷◌,
  arith, Option-cases, ◌∙◌, ap, nat_eq,
}
use clamav_webui.Db.Table
use clamav_webui.Db.Table.{Table, IsFresh, map_option}
use clamav_webui.Db.Jobs.{
  Job, JobStatus, done, error, is_stale, create_job, append_job_log, finish_job,
}
use clamav_webui.Db.Jobs
use clamav_webui.Worker.{
  Manager, Queued, EnqueueAnswers, enqueue, create, submit, submit_created, cancel, receive,
  register, announce, logf, conclude, unregister, stop, drain,
}
use clamav_webui.Worker.Rows.{
  find-set_job_running, find-finish_job, find-append_job_log, find-create_job, find-fail_stale_jobs,
  queued_status, running_status,
}
use clamav_webui.Worker.Invariant.{Inv}
use clamav_webui.Worker.Lifecycle.{
  Step, Reach, creates, submits, receives, registers, announces, logs, concludes, unregisters,
  cancels, stops, here, next, Reach-Inv,
}

module _ {T : Type 0} (reliable : Bool) (id : ℕ) (j : Job)
    (closed : is_stale j.status ≡ false) where
  Step-keeps :
      {m u : Manager T}
      → Step reliable m u
      → Inv reliable m
      → Table.find id m.jobs ≡ some j
      → Table.find id u.jobs ≡ some j
  Step-keeps {m} (creates kind ref) h e =
      unfold create in ground (arith, find-create_job id kind ref m.jobs, h.fresh id, e)
  Step-keeps {m} (submits take_done stored q ok p) h e =
      unfold submit in
      ground (
        arith,
        find-finish_job id q.id error "server shutting down" m.jobs,
        find-finish_job id q.id error "worker: job queue full" m.jobs,
        h.before id,
        p,
        e,
      )
  Step-keeps {m} (receives q rest w) h e = unfold receive in e
  Step-keeps {m} (registers i p) h e = unfold register in e
  Step-keeps {m} (announces stored i kind ok p) h e =
      unfold announce in ground (arith, find-set_job_running id i m.jobs, h.before id, p, e)
  Step-keeps {m} (logs stored i line p) h e =
      unfold logf in
      ground (arith, find-append_job_log id i (String.◌++◌ line "\n") m.jobs, h.under_way id, p, e)
  Step-keeps {m} (concludes stored i kind none ok p) h e =
      unfold conclude in ground (arith, find-finish_job id i done "" m.jobs, h.under_way id, p, e)
  Step-keeps {m} (concludes stored i kind (some text) ok p) h e =
      unfold conclude in
      ground (arith, find-finish_job id i error text m.jobs, h.under_way id, p, e)
  Step-keeps {m} (unregisters i p) h e = unfold unregister in e
  Step-keeps {m} (cancels i) h e = unfold cancel in ground (arith, e)
  Step-keeps {m} stops h e = unfold stop in e

  -- From a state with the invariant, a job that is done or failed keeps its row, whatever happens afterwards: it is not started or
  -- finished again, and its outcome and log do not change.
  pub outcome_is_final :
      (m u : Manager T)
      → Inv reliable m
      → Table.find id m.jobs ≡ some j
      → Reach reliable m u
      → Table.find id u.jobs ≡ some j
  outcome_is_final m u h e here = e
  outcome_is_final m u h e (next {t} r s) =
      Step-keeps s (Reach-Inv h r) (outcome_is_final m t h e r)

-- The row behind a shutdown, by the status that it had
abbrev pub row_after : Bool → Job → Job
row_after false j = j
row_after true j = elim j.status [
  | Jobs.queued ↦ record j { status = error; error_text = "server stopped" }
  | Jobs.running ↦ record j { status = error; error_text = "server stopped" }
  | Jobs.done ↦ j
  | Jobs.error ↦ j
]

module _ {T : Type 0} where
  drained-row :
      (stored : Bool) (m : Manager T) (id : ℕ) (j : Job)
      → Table.find id m.jobs ≡ some j
      → Table.find id (drain stored m).jobs ≡ some (row_after stored j)
  unfolding drain
  drained-row stored m id j e = ground (arith, find-fail_stale_jobs id "server stopped" m.jobs)

  none_open :
      (m : Manager T) (i : ℕ)
      → (queued_status (Table.find i (drain true m).jobs) ≡ false)
        × (running_status (Table.find i (drain true m).jobs) ≡ false)
  unfolding drain
  none_open m i = (
    ground (arith, find-fail_stale_jobs i "server stopped" m.jobs),
    ground (arith, find-fail_stale_jobs i "server stopped" m.jobs),
  )

  submit_opens_none :
      (take_done closed : Bool) (q : Queued T) (m : Manager T) (i : ℕ)
      → queued_status (Table.find i m.jobs) ≡ false
      → running_status (Table.find i m.jobs) ≡ false
      → (queued_status (Table.find i (submit take_done closed q m).0.jobs) ≡ false)
        × (running_status (Table.find i (submit take_done closed q m).0.jobs) ≡ false)
  unfolding submit
  submit_opens_none take_done closed q m i h k =
      let stopped = find-finish_job i q.id error "server shutting down" m.jobs in
      let full = find-finish_job i q.id error "worker: job queue full" m.jobs in
      (ground (arith, stopped, full, h, k), ground (arith, stopped, full, h, k))

  -- Behind a shutdown a row with an outcome is as before, and one that was queued or running is failed
  -- with the reason, or as before if that cannot be stored. If it is stored, no row is open, and
  -- none is opened again by a handler that made its job before and submits it afterwards.
  pub drain_closes :
      (stored take_done closed : Bool) (m : Manager T) (id : ℕ) (j : Job) (q : Queued T)
      → Table.find id m.jobs ≡ some j
      → let late = (submit take_done closed q (drain true m)).0 in
        (Table.find id (drain stored m).jobs ≡ some (row_after stored j))
        × ((i : ℕ)
            → (queued_status (Table.find i late.jobs) ≡ false)
              × (running_status (Table.find i late.jobs) ≡ false))
  drain_closes stored take_done closed m id j q e = (
    drained-row stored m id j e,
    λ i. submit_opens_none take_done closed q (drain true m) i (none_open m i).0 (none_open m i).1,
  )

  submit_adds :
      (take_done closed : Bool) (q : Queued T) (m : Manager T)
      → ((submit take_done closed q m).0.queue ≡ m.queue)
        ⊎ ((submit take_done closed q m).0.queue ≡ m.queue ++ q ∷ [])
  unfolding submit
  submit_adds take_done closed q m = ground arith

  submit_created_adds :
      (a : EnqueueAnswers) (kind : String) (fn : T) (m : Manager T) (made : Manager T × ℕ)
      → made.0.queue ≡ m.queue
      → ((submit_created a kind fn made).0.queue ≡ m.queue)
        ⊎ ((q : Queued T) × (q.fn ≡ fn)
            × ((submit_created a kind fn made).0.queue ≡ m.queue ++ q ∷ []))
  unfolding submit_created
  submit_created_adds a kind fn m (n, id) same =
      let q : Queued T = record { id = id; kind = kind; fn = fn } in
      elim (submit_adds a.take_done a.closed q n) [
        | inl kept ↦ inl (kept ∙ same)
        | inr added ↦ inr (q, refl, added ∙ ap (λ (xs : List (Queued T)). xs ++ q ∷ []) same)
      ]

  -- `Enqueue` leaves the queue, or adds the task that it was given at its end.
  pub enqueue_adds :
      (a : EnqueueAnswers) (kind : String) (ref : Option ℕ) (fn : T) (m : Manager T)
      → ((enqueue a kind ref fn m).0.queue ≡ m.queue)
        ⊎ ((q : Queued T) × (q.fn ≡ fn) × ((enqueue a kind ref fn m).0.queue ≡ m.queue ++ q ∷ []))
  unfolding enqueue
  enqueue_adds a kind ref fn m = elim (Option-cases a.insert_failure) [
    | inr (cause, e) ↦ rw e (inl refl)
    | inl e ↦ rw e (submit_created_adds a kind fn m (create kind ref m) (unfold create in refl))
  ]
