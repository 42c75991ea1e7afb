-- ===== src/Worker/Invariant/Workers.antt =====
-- The invariant of the manager, kept by the steps of a worker.
use clamav_webui.Prelude.{
  ℕ, ◌≤◌, String, ◌≡◌, refl, Bool, true, false, ◌||◌, Option, none, some, List, [], ◌∷◌, ◌++◌,
  arith, length, nat_eq,
}
use clamav_webui.Db.Table
use clamav_webui.Db.Table.{
  store, Table, find-insert, find-update, find-update_all, last_id-insert, id-insert,
  last_id-update, last_id-update_all, IsFresh, map_option,
}
use clamav_webui.Db.Jobs.{JobStatus, done, error, finish_job}
use Prim.Native.String
use clamav_webui.Worker.{
  received, registered, executing, concluded, BusEvent, job_event, receive, register, announce,
  conclude, unregister, logf, Manager, Queued, queue_depth, set_place,
}
use clamav_webui.Worker.Rows.{
  queued_status, running_status, find-set_job_running, find-finish_job, last_id-finish_job,
  last_id-set_job_running, last_id-append_job_log, find-append_job_log,
}
use clamav_webui.Worker.Invariant.{Inv, waits, IsDistinct, is_before, is_absent}

module _ {T : Type 0} (reliable : Bool) where
  pub receive-Inv :
      (q : Queued T) (rest : List (Queued T)) (m : Manager T)
      → m.queue ≡ q ∷ rest
      → Inv reliable m
      → Inv reliable (receive q rest m)
  unfolding receive
  receive-Inv q rest m e h =
      let d : IsDistinct (q ∷ rest) = rw e at h.distinct in
      let bound : length (q ∷ rest) ≤ queue_depth = rw e at h.bounded in
      let waiting : (id : ℕ)
          → waits id (q ∷ rest) ≡ true
          → queued_status (Table.find id m.jobs) ≡ true =
        rw e at h.waiting in
      let alone : (id : ℕ) → waits id (q ∷ rest) ≡ true → is_absent (m.places id) ≡ true =
        rw e at h.alone in
      let exact : reliable ≡ true
          → (id : ℕ)
          → queued_status (Table.find id m.jobs)
            ≡ (waits id (q ∷ rest) || is_before (m.places id)) =
        rw e at h.exact_queued in
      record {
        waiting = λ id w. ground (arith, waiting id, w);
        before = λ id w. ground (arith, waiting id, h.before id, w);
        under_way = λ id w. ground (arith, h.under_way id, w);
        exact_queued = λ r id. ground (arith, exact r id);
        exact_running = λ r id. ground (arith, h.exact_running r id, alone id);
        running = λ id. ground (arith, h.running id, alone id);
        alone = λ id w. ground (arith, alone id, w, d);
        known = λ id w. ground (arith, h.known id, w, waiting id, h.fresh id);
        distinct = d.1;
        fresh = h.fresh;
        bounded = omega arith;
      }

  pub register-Inv :
      (id : ℕ) (m : Manager T)
      → m.places id ≡ received
      → Inv reliable m
      → Inv reliable (register id m)
  unfolding register
  register-Inv id m p h = record {
    waiting = h.waiting;
    before = λ j w. ground (arith, h.before j, w, p);
    under_way = λ j w. ground (arith, h.under_way j, w, p);
    exact_queued = λ r j. ground (arith, h.exact_queued r j, p);
    exact_running = λ r j. ground (arith, h.exact_running r j, p);
    running = λ j. ground (arith, h.running j, p);
    alone = λ j w. ground (arith, h.alone j, w, p);
    known = λ j w. ground (arith, h.known j, w, p);
    distinct = h.distinct;
    fresh = h.fresh;
    bounded = h.bounded;
  }

  pub announce-Inv :
      (stored : Bool) (id : ℕ) (kind : String) (m : Manager T)
      → ((reliable ≡ true) → stored ≡ true)
      → m.places id ≡ registered
      → Inv reliable m
      → Inv reliable (announce stored id kind m)
  unfolding announce
  announce-Inv stored id kind m ok p h =
      let row = λ (j : ℕ). find-set_job_running j id m.jobs in
      record {
        waiting = λ j w. ground (arith, row j, h.waiting j, h.alone j, w, p);
        before = λ j w. ground (arith, row j, h.before j, w, p);
        under_way = λ j w. ground (arith, row j, h.under_way j, h.before j, w, p);
        exact_queued = λ r j. ground (arith, row j, ok r, h.exact_queued r j, h.alone j, p);
        exact_running = λ r j. ground (arith, row j, ok r, h.exact_running r j, h.before j, p);
        running = λ j. ground (arith, h.running j, p);
        alone = λ j w. ground (arith, h.alone j, w, p);
        known = λ j w. ground (arith, last_id-set_job_running id m.jobs, h.known j, w, p);
        distinct = h.distinct;
        fresh = λ j lt. ground (arith, row j, h.fresh j, last_id-set_job_running id m.jobs);
        bounded = h.bounded;
      }

  pub logf-Inv :
      (stored : Bool) (id : ℕ) (line : String) (m : Manager T)
      → Inv reliable m
      → Inv reliable (logf stored id line m)
  unfolding logf
  logf-Inv stored id line m h =
      let chunk = String.◌++◌ line "\n" in
      let row = λ (j : ℕ). find-append_job_log j id chunk m.jobs in
      let ids = last_id-append_job_log id chunk m.jobs in
      record {
        waiting = λ j w. ground (arith, row j, h.waiting j, w);
        before = λ j w. ground (arith, row j, h.before j, w);
        under_way = λ j w. ground (arith, row j, h.under_way j, w);
        exact_queued = λ r j. ground (arith, row j, h.exact_queued r j);
        exact_running = λ r j. ground (arith, row j, h.exact_running r j);
        running = h.running;
        alone = h.alone;
        known = λ j w. ground (arith, ids, h.known j, w);
        distinct = h.distinct;
        fresh = λ j lt. ground (arith, row j, h.fresh j, ids);
        bounded = h.bounded;
      }

  -- A job whose task ran, whatever it is closed as.
  concluded-Inv :
      (stored : Bool) (id : ℕ) (status : JobStatus) (text : String) (published : List BusEvent)
      (m : Manager T)
      → ((reliable ≡ true) → stored ≡ true)
      → (queued_status
            (some (record { kind = ""; status = status; ref_id = none; log = []; error_text = "" }))
          ≡ false)
      → (running_status
            (some (record { kind = ""; status = status; ref_id = none; log = []; error_text = "" }))
          ≡ false)
      → m.places id ≡ executing
      → Inv reliable m
      → Inv reliable (record m {
        jobs = store stored (finish_job id status text) m.jobs;
        places = set_place id concluded m.places;
        published = published;
      })
  concluded-Inv stored id status text published m ok nq nr p h =
      let row = λ (j : ℕ). find-finish_job j id status text m.jobs in
      let ids = last_id-finish_job id status text m.jobs in
      record {
        waiting = λ j w. ground (arith, row j, h.waiting j, h.alone j, w, p);
        before = λ j w. ground (arith, row j, h.before j, w, p);
        under_way = λ j w. ground (arith, row j, h.under_way j, w, p);
        exact_queued = λ r j. ground (arith, row j, ok r, h.exact_queued r j, h.alone j, p, nq);
        exact_running = λ r j. ground (arith, row j, ok r, h.exact_running r j, p, nr);
        running = λ j. ground (arith, h.running j, p);
        alone = λ j w. ground (arith, h.alone j, w, p);
        known = λ j w. ground (arith, ids, h.known j, w, p);
        distinct = h.distinct;
        fresh = λ j lt. ground (arith, row j, h.fresh j, ids);
        bounded = h.bounded;
      }

  pub conclude-Inv :
      (stored : Bool) (id : ℕ) (kind : String) (failure : Option String) (m : Manager T)
      → ((reliable ≡ true) → stored ≡ true)
      → m.places id ≡ executing
      → Inv reliable m
      → Inv reliable (conclude stored id kind failure m)
  unfolding conclude
  conclude-Inv stored id kind none m ok p h =
      concluded-Inv stored id done "" (m.published ++ job_event id kind done "" ∷ []) m ok refl refl
        p h
  conclude-Inv stored id kind (some text) m ok p h =
      concluded-Inv stored id error text (m.published ++ job_event id kind error text ∷ []) m ok
        refl refl p h

  pub unregister-Inv :
      (id : ℕ) (m : Manager T)
      → m.places id ≡ concluded
      → Inv reliable m
      → Inv reliable (unregister id m)
  unfolding unregister
  unregister-Inv id m p h = record {
    waiting = h.waiting;
    before = λ j w. ground (arith, h.before j, w);
    under_way = λ j w. ground (arith, h.under_way j, w);
    exact_queued = λ r j. ground (arith, h.exact_queued r j, p);
    exact_running = λ r j. ground (arith, h.exact_running r j, p);
    running = λ j. ground (arith, h.running j, p);
    alone = λ j w. ground (arith, h.alone j, w, p);
    known = λ j w. ground (arith, h.known j, w, p);
    distinct = h.distinct;
    fresh = h.fresh;
    bounded = h.bounded;
  }
