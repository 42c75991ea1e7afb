-- ===== src/Worker/Invariant.antt =====
-- The invariant of the manager.
pub mod Workers
pub mod Handlers
use clamav_webui.Prelude.{
  length-append, suc, ℕ, ◌≤◌, String, ◌≡◌, refl, sym, Bool, true, false, not, ◌||◌, ◌&&◌, Option,
  none, some, List, [], ◌∷◌, ◌++◌, arith, length, ◌==◌, nat_eq, if◌then◌else◌,
}
use clamav_webui.Db.Table
use clamav_webui.Db.Table.{
  store, Table, find-insert, find-update, find-update_all, last_id-insert, id-insert,
  last_id-update, last_id-update_all, IsFresh, map_option,
}
use clamav_webui.Db.Jobs.{
  Job, JobStatus, done, error, create_job, set_job_running, append_job_log, finish_job,
}
use Prim.Native.String
use clamav_webui.Worker.{
  Place, absent, created, received, registered, executing, concluded, BusEvent, job_event, stop,
  cancel, create, submit, receive, register, announce, conclude, unregister, logf, Manager, Queued,
  queue_depth, set_place, set_flag,
}
use clamav_webui.Worker.Rows.{
  running_row, queued_status, running_status, find-set_job_running, find-finish_job,
  last_id-finish_job, last_id-set_job_running, last_id-append_job_log, last_id-create_job,
  find-append_job_log, find-create_job,
}

module _ {T : Type 0} where
  abbrev pub waits : ℕ → List (Queued T) → Bool
  waits id [] = false
  waits id (q ∷ rest) = q.id == id || waits id rest

  abbrev pub IsDistinct : List (Queued T) → Type 0
  IsDistinct [] = Unit
  IsDistinct (q ∷ rest) = (waits q.id rest ≡ false) × IsDistinct rest

-- No statement wrote the row since the insert.
abbrev pub is_before : Place → Bool
is_before created = true
is_before received = true
is_before registered = true
is_before _ = false

abbrev pub is_executing : Place → Bool
is_executing executing = true
is_executing _ = false

abbrev pub is_absent : Place → Bool
is_absent absent = true
is_absent _ = false

abbrev pub is_registered : Place → Bool
is_registered registered = true
is_registered executing = true
is_registered concluded = true
is_registered _ = false

-- A job that waits in the channel, or that a goroutine has and did not yet mark, has a queued row;
-- one whose task runs has a queued or running row; the manager's map has the jobs between their
-- registration and their delete; no job waits twice, or waits while a goroutine has it; and the
-- channel is within its capacity. If all statements are stored, no other rows are queued, and the
-- running ones are those whose task runs.
pub record Inv {T : Type 0} (reliable : Bool) (m : Manager T) : Type 0 where
  pub waiting : (id : ℕ) → waits id m.queue ≡ true → queued_status (Table.find id m.jobs) ≡ true
  pub before :
      (id : ℕ) → is_before (m.places id) ≡ true → queued_status (Table.find id m.jobs) ≡ true
  pub under_way :
      (id : ℕ)
      → is_executing (m.places id) ≡ true
      → (queued_status (Table.find id m.jobs) || running_status (Table.find id m.jobs)) ≡ true
  pub exact_queued :
      reliable ≡ true
      → (id : ℕ)
      → queued_status (Table.find id m.jobs) ≡ (waits id m.queue || is_before (m.places id))
  pub exact_running :
      reliable ≡ true
      → (id : ℕ) → running_status (Table.find id m.jobs) ≡ is_executing (m.places id)
  pub running : (id : ℕ) → m.running id ≡ is_registered (m.places id)
  pub alone : (id : ℕ) → waits id m.queue ≡ true → is_absent (m.places id) ≡ true
  pub known : (id : ℕ) → is_absent (m.places id) ≡ false → id ≤ m.jobs.last_id
  pub distinct : IsDistinct m.queue
  pub fresh : IsFresh m.jobs
  pub bounded : length m.queue ≤ queue_depth

module _ {T : Type 0} where
  pub waits-append :
      (id : ℕ) (q : Queued T) (queue : List (Queued T))
      → waits id (queue ++ q ∷ []) ≡ (waits id queue || q.id == id)
  waits-append id q [] = ground arith
  waits-append id q (p ∷ queue) = ground (arith, waits-append id q queue)

  pub append-IsDistinct :
      (q : Queued T) (queue : List (Queued T))
      → IsDistinct queue
      → waits q.id queue ≡ false
      → IsDistinct (queue ++ q ∷ [])
  append-IsDistinct q [] d h = (refl, tt)
  append-IsDistinct q (p ∷ queue) d h =
      ground (arith, append-IsDistinct q queue d.1, waits-append p.id q queue)
