-- ===== src/Worker/Invariant/Handlers.antt =====
-- The invariant of the manager, kept by the steps of its callers.
use clamav_webui.Prelude.{
  Bool-cases, inl, inr, ltb, ◌<◌, length-append, suc, ℕ, String, ◌≡◌, refl, Bool, true, false, not,
  ◌||◌, ◌&&◌, Option, List, [], ◌∷◌, ◌++◌, arith, length, nat_eq,
}
use clamav_webui.Db.Table
use clamav_webui.Db.Table.{
  store, Table, find-insert, find-update, find-update_all, last_id-insert, id-insert,
  last_id-update, last_id-update_all, IsFresh, map_option,
}
use clamav_webui.Db.Jobs
use clamav_webui.Db.Jobs.{
  Job, JobStatus, done, error, create_job, set_job_running, append_job_log, finish_job,
}
use clamav_webui.Worker.{
  absent, created, BusEvent, job_event, stop, cancel, create, submit, Manager, Queued, queue_depth,
  set_place,
}
use clamav_webui.Worker.Rows.{
  find-finish_job, last_id-finish_job, last_id-create_job, find-create_job,
}
use clamav_webui.Worker.Invariant.{Inv, waits, waits-append, append-IsDistinct, is_absent}

module _ {T : Type 0} (reliable : Bool) where
  pub create-Inv :
      (kind : String) (ref : Option ℕ) (m : Manager T)
      → Inv reliable m
      → Inv reliable (create kind ref m).0
  unfolding create
  create-Inv kind ref m h =
      let id = suc m.jobs.last_id in
      let unknown = h.fresh id (omega arith) in
      let is_new : (create_job kind ref m.jobs).1 ≡ id = unfold create_job Table.insert in refl in
      let row = λ (j : ℕ). find-create_job j kind ref m.jobs in
      let ids = last_id-create_job kind ref m.jobs in
      let away : is_absent (m.places id) ≡ true = ground (arith, h.known id) in
      record {
        waiting = λ j w. ground (arith, is_new, row j, h.waiting j, w, unknown);
        before = λ j w. ground (arith, is_new, row j, h.before j, w, unknown);
        under_way = λ j w. ground (arith, is_new, row j, h.under_way j, w, unknown);
        exact_queued = λ r j. ground (arith, is_new, row j, h.exact_queued r j, unknown);
        exact_running = λ r j. ground (arith, is_new, row j, h.exact_running r j, unknown);
        running = λ j. ground (arith, is_new, h.running j, away);
        alone = λ j w. ground (arith, is_new, h.alone j, w, h.waiting j, unknown);
        known = λ j w. ground (arith, is_new, ids, h.known j, w);
        distinct = h.distinct;
        fresh = λ j lt. ground (arith, is_new, row j, h.fresh j, ids);
        bounded = h.bounded;
      }

  -- The job was refused, and its row is closed if that is stored.
  refused-Inv :
      (closed : Bool) (id : ℕ) (text : String) (m : Manager T)
      → ((reliable ≡ true) → closed ≡ true)
      → m.places id ≡ created
      → Inv reliable m
      → Inv reliable (record m {
        jobs = store closed (finish_job id error text) m.jobs;
        places = set_place id absent m.places;
      })
  refused-Inv closed id text m ok p h =
      let row = λ (j : ℕ). find-finish_job j id error text m.jobs in
      let ids = last_id-finish_job id error text m.jobs in
      record {
        waiting = λ j w. ground (arith, row j, h.waiting j, h.alone j, w, p);
        before = λ j w. ground (arith, row j, h.before j, w, p);
        under_way = λ j w. ground (arith, row j, h.under_way j, w, p);
        exact_queued = λ r j. ground (arith, row j, ok r, h.exact_queued r j, h.alone j, p);
        exact_running = λ r j. ground (arith, row j, ok r, h.exact_running r j, p);
        running = λ j. ground (arith, h.running j, p);
        alone = λ j w. ground (arith, h.alone j, w, p);
        known = λ j w. ground (arith, ids, h.known j, w, p);
        distinct = h.distinct;
        fresh = λ j lt. ground (arith, row j, h.fresh j, ids);
        bounded = h.bounded;
      }

  sent-Inv :
      (q : Queued T) (published : List BusEvent) (m : Manager T)
      → length m.queue < queue_depth
      → m.places q.id ≡ created
      → Inv reliable m
      → Inv reliable (record m {
        queue = m.queue ++ q ∷ [];
        places = set_place q.id absent m.places;
        published = published;
      })
  sent-Inv q published m room p h =
      let added = λ (j : ℕ). waits-append j q m.queue in
      let not_yet : waits q.id m.queue ≡ false = ground (arith, h.alone q.id, p) in
      record {
        waiting = λ j w. ground (arith, added j, h.waiting j, h.before j, w, p);
        before = λ j w. ground (arith, h.before j, w, p);
        under_way = λ j w. ground (arith, h.under_way j, w, p);
        exact_queued = λ r j. ground (arith, added j, h.exact_queued r j, not_yet, p);
        exact_running = λ r j. ground (arith, h.exact_running r j, p);
        running = λ j. ground (arith, h.running j, p);
        alone = λ j w. ground (arith, added j, h.alone j, w, p);
        known = λ j w. ground (arith, h.known j, w, p);
        distinct = append-IsDistinct q m.queue h.distinct not_yet;
        fresh = h.fresh;
        bounded = ground (arith, length-append m.queue (q ∷ []));
      }

  pub submit-Inv :
      (take_done closed : Bool) (q : Queued T) (m : Manager T)
      → ((reliable ≡ true) → closed ≡ true)
      → m.places q.id ≡ created
      → Inv reliable m
      → Inv reliable (submit take_done closed q m).0
  unfolding submit
  submit-Inv take_done closed q m ok p h =
      let stopped = refused-Inv closed q.id "server shutting down" m ok p h in
      let full = refused-Inv closed q.id "worker: job queue full" m ok p h in
      let room = ltb (length m.queue) queue_depth in
      elim (Bool-cases (m.stopped && (not room || take_done))) [
        | inl over ↦ rw over stopped
        | inr goes_on ↦ elim (Bool-cases room) [
          | inl e ↦ rw goes_on (
              rw e (
                sent-Inv q (m.published ++ job_event q.id q.kind Jobs.queued "" ∷ []) m
                  (ground (arith, e)) p h))
          | inr e ↦ rw goes_on (rw e full)
        ]
      ]

  pub cancel-Inv : (id : ℕ) (m : Manager T) → Inv reliable m → Inv reliable (cancel id m).0
  unfolding cancel
  cancel-Inv id m h = elim (Bool-cases (m.running id)) [
    | inl e ↦ rw e (record {
      waiting = h.waiting;
      before = h.before;
      under_way = h.under_way;
      exact_queued = h.exact_queued;
      exact_running = h.exact_running;
      running = h.running;
      alone = h.alone;
      known = h.known;
      distinct = h.distinct;
      fresh = h.fresh;
      bounded = h.bounded;
    })
    | inr e ↦ rw e h
  ]

  pub stop-Inv : (m : Manager T) → Inv reliable m → Inv reliable (stop m)
  unfolding stop
  stop-Inv m h = record {
    waiting = h.waiting;
    before = h.before;
    under_way = h.under_way;
    exact_queued = h.exact_queued;
    exact_running = h.exact_running;
    running = h.running;
    alone = h.alone;
    known = h.known;
    distinct = h.distinct;
    fresh = h.fresh;
    bounded = h.bounded;
  }
