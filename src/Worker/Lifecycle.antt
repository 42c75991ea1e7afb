-- ===== src/Worker/Lifecycle.antt =====
-- The life of a job: its row in the database against the queue and the goroutine that has it.
use clamav_webui.Prelude.{ℕ, String, ◌≡◌, refl, Bool, true, Option, List, ◌∷◌, arith, nat_eq}
use clamav_webui.Db.Table.{Table, IsFresh}
use clamav_webui.Db.Jobs.{Job}
use clamav_webui.Worker.{
  stop, new, cancel, create, submit, receive, register, announce, logf, conclude, unregister,
  Manager, Queued, created, received, registered, executing, concluded,
}
use clamav_webui.Worker.Rows.{find-fail_stale_jobs, last_id-fail_stale_jobs}
use clamav_webui.Worker.Invariant.{Inv}
use clamav_webui.Worker.Invariant.Workers.{
  receive-Inv, register-Inv, announce-Inv, logf-Inv, conclude-Inv, unregister-Inv,
}
use clamav_webui.Worker.Invariant.Handlers.{create-Inv, submit-Inv, cancel-Inv, stop-Inv}

-- What the goroutines of the manager do, in any order: any handler, worker or caller may be next. A
-- goroutine follows its own order by the place at which it stands with its job. Each write may fail,
-- but none does where `reliable` holds.
pub data Step {T : Type 0} (reliable : Bool) (m : Manager T) : Manager T → Type 0 where
  creates : (kind : String) (ref : Option ℕ) → Step reliable m (create kind ref m).0
  submits :
      (take_done closed : Bool) (q : Queued T)
      → ((reliable ≡ true) → closed ≡ true)
      → m.places q.id ≡ created
      → Step reliable m (submit take_done closed q m).0
  receives :
      (q : Queued T) (rest : List (Queued T))
      → m.queue ≡ q ∷ rest
      → Step reliable m (receive q rest m)
  registers : (id : ℕ) → m.places id ≡ received → Step reliable m (register id m)
  announces :
      (stored : Bool) (id : ℕ) (kind : String)
      → ((reliable ≡ true) → stored ≡ true)
      → m.places id ≡ registered
      → Step reliable m (announce stored id kind m)
  logs :
      (stored : Bool) (id : ℕ) (line : String)
      → m.places id ≡ executing
      → Step reliable m (logf stored id line m)
  concludes :
      (stored : Bool) (id : ℕ) (kind : String) (failure : Option String)
      → ((reliable ≡ true) → stored ≡ true)
      → m.places id ≡ executing
      → Step reliable m (conclude stored id kind failure m)
  unregisters : (id : ℕ) → m.places id ≡ concluded → Step reliable m (unregister id m)
  cancels : (id : ℕ) → Step reliable m (cancel id m).0
  stops : Step reliable m (stop m)

pub data Reach {T : Type 0} (reliable : Bool) (m : Manager T) : Manager T → Type 0 where
  here : Reach reliable m m
  next : {t u : Manager T} → Reach reliable m t → Step reliable t u → Reach reliable m u

module _ {T : Type 0} {reliable : Bool} where
  pub Step-Inv : {m u : Manager T} → Step reliable m u → Inv reliable m → Inv reliable u
  Step-Inv {m} (creates kind ref) h = create-Inv reliable kind ref m h
  Step-Inv {m} (submits take_done closed q ok p) h = submit-Inv reliable take_done closed q m ok p h
  Step-Inv {m} (receives q rest e) h = receive-Inv reliable q rest m e h
  Step-Inv {m} (registers id p) h = register-Inv reliable id m p h
  Step-Inv {m} (announces stored id kind ok p) h = announce-Inv reliable stored id kind m ok p h
  Step-Inv {m} (logs stored id line p) h = logf-Inv reliable stored id line m h
  Step-Inv {m} (concludes stored id kind failure ok p) h =
      conclude-Inv reliable stored id kind failure m ok p h
  Step-Inv {m} (unregisters id p) h = unregister-Inv reliable id m p h
  Step-Inv {m} (cancels id) h = cancel-Inv reliable id m h
  Step-Inv {m} stops h = stop-Inv reliable m h

  pub Reach-Inv : {m u : Manager T} → Inv reliable m → Reach reliable m u → Inv reliable u
  Reach-Inv h here = h
  Reach-Inv h (next r s) = Step-Inv s (Reach-Inv h r)

module _ {T : Type 0} where
  pub new-Inv :
      (reliable stored : Bool) (jobs : Table Job)
      → ((reliable ≡ true) → stored ≡ true)
      → IsFresh jobs
      → Inv reliable (new {T = T} stored jobs)
  unfolding new
  new-Inv reliable stored jobs ok h =
      let row = λ (j : ℕ). find-fail_stale_jobs j "interrupted by a restart" jobs in
      record {
        waiting = λ j w. cc;
        before = λ j w. cc;
        under_way = λ j w. cc;
        exact_queued = λ r j. ground (arith, row j, ok r);
        exact_running = λ r j. ground (arith, row j, ok r);
        running = λ j. refl;
        alone = λ j w. cc;
        known = λ j w. cc;
        distinct = tt;
        fresh = λ j lt.
            ground (arith, h j, row j, last_id-fail_stale_jobs "interrupted by a restart" jobs);
        bounded = omega arith;
      }

  -- From a start over any jobs of a previous process, in every order of the statements, receives,
  -- registrations, cancels and a stop of any number of handlers and workers, and whichever writes
  -- fail: a job that waits, or that a goroutine has not yet marked, has a queued row; one whose task
  -- runs has a queued or running row; the map has exactly the jobs between their registration and
  -- their delete; no job waits twice or while a goroutine has it, and at most 64 wait. If no write
  -- fails, no other row is queued, and a row is running exactly while the task runs.
  pub Reach-new-Inv :
      (reliable stored : Bool) (jobs : Table Job) (m : Manager T)
      → ((reliable ≡ true) → stored ≡ true)
      → IsFresh jobs
      → Reach reliable (new stored jobs) m
      → Inv reliable m
  Reach-new-Inv reliable stored jobs m ok h r = Reach-Inv (new-Inv reliable stored jobs ok h) r
