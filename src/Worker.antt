-- ===== src/Worker.antt =====
-- internal/worker/worker.go. A step is what one goroutine does between two points at which another
-- can intervene; `T` is the type of the task functions, which a job only carries. Each flag of a
-- statement says whether it is stored. Only the events on the bus are coarser: one that a goroutine
-- publishes right after a change is published with it, where in the program another goroutine can
-- come in between.
pub mod Rows
pub mod Invariant
pub mod Lifecycle
pub mod Outcomes
mod Tests
use Prim.Native.String
use clamav_webui.Prelude.{
  ℕ, suc, String, Bool, true, false, not, ◌&&◌, ◌||◌, Option, none, some, List, [], ◌∷◌, ◌++◌, ltb,
  length, ◌==◌, nat_eq, if◌then◌else◌,
}
use clamav_webui.Db.Table.{Table, store}
use clamav_webui.Db.Jobs.{
  Job, JobStatus, done, error, create_job, set_job_running, append_job_log, finish_job,
  fail_stale_jobs,
}
use clamav_webui.Db.Jobs

abbrev pub queue_depth : ℕ
queue_depth = 64

pub record Queued (T : Type 0) : Type 0 where
  pub id : ℕ
  pub kind : String
  pub fn : T

-- The payloads of the "job" and "job-log" events.
pub data BusEvent : Type 0 where
  job_event : ℕ → String → JobStatus → String → BusEvent
  job_log_event : ℕ → String → BusEvent

abbrev pub set_flag : ℕ → Bool → (ℕ → Bool) → ℕ → Bool
set_flag id b flags j = if id == j then b else flags j

-- Where the goroutine that has a job stands: nowhere, between `CreateJob` and the select, behind the
-- receive, behind the registration, behind `SetJobRunning`, and behind `FinishJob`.
pub data Place : Type 0 where
  absent created received registered executing concluded : Place

abbrev pub set_place : ℕ → Place → (ℕ → Place) → ℕ → Place
set_place id p places j = if id == j then p else places j

-- `running` is the key set of the map of cancel functions, `canceled` the jobs whose context was
-- canceled, `stopped` the state of `m.ctx`; `published` is what went to the bus, oldest first.
pub record Manager (T : Type 0) : Type 0 where
  pub jobs : Table Job
  pub queue : List (Queued T)
  pub running : ℕ → Bool
  pub canceled : ℕ → Bool
  pub stopped : Bool
  pub places : ℕ → Place
  pub published : List BusEvent

-- The first one carries the error of the insert.
pub data EnqueueError : Type 0 where
  create_failed : String → EnqueueError
  queue_full worker_stopped : EnqueueError

-- The error of the insert if it fails, which case the select takes where both are ready, and
-- whether the row of a refused job is closed.
pub record EnqueueAnswers : Type 0 where
  pub insert_failure : Option String
  pub take_done : Bool
  pub closed : Bool

module _ {T : Type 0} where
  -- `New` over the jobs of a previous process
  unfoldable pub new : Bool → Table Job → Manager T
  new stored jobs = record {
    jobs = store stored (fail_stale_jobs "interrupted by a restart") jobs;
    queue = [];
    running = λ id. false;
    canceled = λ id. false;
    stopped = false;
    places = λ id. absent;
    published = [];
  }

  unfoldable pub publish_job : ℕ → String → JobStatus → String → Manager T → Manager T
  publish_job id kind status text m = record m {
    published = m.published ++ job_event id kind status text ∷ [];
  }

  -- `CreateJob` in `Enqueue`
  unfoldable pub create : String → Option ℕ → Manager T → Manager T × ℕ
  create kind ref m =
      let (jobs', id) = create_job kind ref m.jobs in
      (record m { jobs = jobs'; places = set_place id created m.places }, id)

  -- The select of `Enqueue`. Where the channel has room and the manager is stopped both cases are
  -- ready, and `take_done` says which one is taken.
  unfoldable pub submit : Bool → Bool → Queued T → Manager T → Manager T × Option EnqueueError
  unfolding publish_job
  submit take_done closed q m =
      let room = ltb (length m.queue) queue_depth in
      let left : Manager T = record m { places = set_place q.id absent m.places } in
      if m.stopped && (not room || take_done)
      then (
        record left { jobs = store closed (finish_job q.id error "server shutting down") m.jobs },
        some worker_stopped,
      )
      else if room
      then (
        publish_job q.id q.kind Jobs.queued "" (record left { queue = m.queue ++ q ∷ [] }),
        none,
      )
      else (
        record left { jobs = store closed (finish_job q.id error "worker: job queue full") m.jobs },
        some queue_full,
      )

  unfoldable submit_created :
      EnqueueAnswers → String → T → Manager T × ℕ → Manager T × ℕ × Option EnqueueError
  unfolding submit
  submit_created a kind fn (m, id) =
      let (m', failure) =
        submit a.take_done a.closed (record { id = id; kind = kind; fn = fn }) m in
      (m', id, failure)

  -- `Enqueue`, where no other goroutine comes in between
  unfoldable pub enqueue :
      EnqueueAnswers → String → Option ℕ → T → Manager T → Manager T × ℕ × Option EnqueueError
  unfolding create submit_created
  enqueue a kind ref fn m = elim a.insert_failure [
    | some cause ↦ (m, 0, some (create_failed cause))
    | none ↦ submit_created a kind fn (create kind ref m)
  ]

  unfoldable pub cancel : ℕ → Manager T → Manager T × Bool
  cancel id m =
      if m.running id
      then (record m { canceled = set_flag id true m.canceled }, true)
      else (m, false)

  -- The receive of `loop`, on the jobs that wait behind the one that it takes.
  unfoldable pub receive : Queued T → List (Queued T) → Manager T → Manager T
  receive q rest m = record m { queue = rest; places = set_place q.id received m.places }

  -- The registration of the cancel function in `execute`
  unfoldable pub register : ℕ → Manager T → Manager T
  register id m = record m {
    running = set_flag id true m.running;
    places = set_place id registered m.places;
  }

  -- `SetJobRunning` and its event
  unfoldable pub announce : Bool → ℕ → String → Manager T → Manager T
  unfolding publish_job
  announce stored id kind m = publish_job id kind Jobs.running "" (record m {
    jobs = store stored (set_job_running id) m.jobs;
    places = set_place id executing m.places;
  })

  -- `Logf`
  unfoldable pub logf : Bool → ℕ → String → Manager T → Manager T
  logf stored id line m = record m {
    jobs = store stored (append_job_log id (String.◌++◌ line "\n")) m.jobs;
    published = m.published ++ job_log_event id line ∷ [];
  }

  -- `FinishJob` behind the task, with the text of the task's error or of its panic, and its event;
  -- an error is logged before it.
  unfoldable pub conclude : Bool → ℕ → String → Option String → Manager T → Manager T
  unfolding publish_job
  conclude stored id kind none m = publish_job id kind done "" (record m {
    jobs = store stored (finish_job id done "") m.jobs;
    places = set_place id concluded m.places;
  })
  conclude stored id kind (some text) m = publish_job id kind error text (record m {
    jobs = store stored (finish_job id error text) m.jobs;
    places = set_place id concluded m.places;
  })

  -- The deferred delete in `execute`
  unfoldable pub unregister : ℕ → Manager T → Manager T
  unregister id m = record m {
    running = set_flag id false m.running;
    places = set_place id absent m.places;
  }

  unfoldable pub stop : Manager T → Manager T
  stop m = record m { stopped = true }

  -- the end of `Shutdown`, when the workers have exited
  unfoldable pub drain : Bool → Manager T → Manager T
  drain stored m = record m { jobs = store stored (fail_stale_jobs "server stopped") m.jobs }
