-- ===== src/Worker/Rows.antt =====
-- The row of one job after each statement on the jobs table.
use clamav_webui.Prelude.{
  ap, ◌∙◌, suc, ℕ, String, ◌≡◌, Bool, true, false, Option, none, some, [], ◌∷◌, ◌++◌, ◌==◌, nat_eq,
  if◌then◌else◌,
}
use clamav_webui.Db.Table
use clamav_webui.Db.Table.{
  Table, find-insert, find-update, find-update_all, last_id-insert, id-insert, last_id-update,
  last_id-update_all, IsFresh, map_option,
}
use clamav_webui.Db.Jobs
use clamav_webui.Db.Jobs.{
  Job, JobStatus, done, error, create_job, set_job_running, append_job_log, finish_job,
  fail_stale_jobs,
}

abbrev pub queued_status : Option Job → Bool
queued_status none = false
queued_status (some j) = elim j.status [ Jobs.queued ↦ true | _ ↦ false ]

abbrev pub running_status : Option Job → Bool
running_status none = false
running_status (some j) = elim j.status [ Jobs.running ↦ true | _ ↦ false ]

-- The rows that the statements on jobs leave.
abbrev pub running_row : Job → Job
running_row j = record j { status = Jobs.running }

abbrev pub finished_row : JobStatus → String → Job → Job
finished_row status text j = record j { status = status; error_text = text }

abbrev pub logged_row : String → Job → Job
logged_row chunk j = record j { log = j.log ++ chunk ∷ [] }

pub find-set_job_running :
    (j id : ℕ) (t : Table Job)
    → Table.find j (set_job_running id t)
      ≡ (if id == j then map_option running_row (Table.find j t) else Table.find j t)
unfolding set_job_running
find-set_job_running j id t = find-update j id running_row t

pub find-finish_job :
    (j id : ℕ) (status : JobStatus) (text : String) (t : Table Job)
    → Table.find j (finish_job id status text t)
      ≡ (if id == j then map_option (finished_row status text) (Table.find j t) else Table.find j t)
unfolding finish_job
find-finish_job j id status text t = find-update j id (finished_row status text) t

pub last_id-finish_job :
    (id : ℕ) (status : JobStatus) (text : String) (t : Table Job)
    → (finish_job id status text t).last_id ≡ t.last_id
unfolding finish_job
last_id-finish_job id status text t = last_id-update id (finished_row status text) t

pub last_id-set_job_running : (id : ℕ) (t : Table Job) → (set_job_running id t).last_id ≡ t.last_id
unfolding set_job_running
last_id-set_job_running id t = last_id-update id running_row t

pub last_id-append_job_log :
    (id : ℕ) (chunk : String) (t : Table Job) → (append_job_log id chunk t).last_id ≡ t.last_id
unfolding append_job_log
last_id-append_job_log id chunk t = last_id-update id (logged_row chunk) t

pub last_id-create_job :
    (kind : String) (ref : Option ℕ) (t : Table Job)
    → (create_job kind ref t).0.last_id ≡ suc t.last_id
unfolding create_job
last_id-create_job kind ref t = last_id-insert _ t

pub find-append_job_log :
    (j id : ℕ) (chunk : String) (t : Table Job)
    → Table.find j (append_job_log id chunk t)
      ≡ (if id == j then map_option (logged_row chunk) (Table.find j t) else Table.find j t)
unfolding append_job_log
find-append_job_log j id chunk t = find-update j id (logged_row chunk) t

pub find-fail_stale_jobs :
    (j : ℕ) (reason : String) (t : Table Job)
    → Table.find j (fail_stale_jobs reason t)
      ≡ map_option (Jobs.fail_if_stale reason) (Table.find j t)
unfolding fail_stale_jobs
find-fail_stale_jobs j reason t = find-update_all j (Jobs.fail_if_stale reason) t

pub find-create_job :
    (j : ℕ) (kind : String) (ref : Option ℕ) (t : Table Job)
    → Table.find j (create_job kind ref t).0 ≡ (
        if suc t.last_id == j
        then some
            (record { kind = kind; status = Jobs.queued; ref_id = ref; log = []; error_text = "" })
        else Table.find j t)
unfolding create_job
find-create_job j kind ref t = find-insert j _ t

pub last_id-fail_stale_jobs :
    (reason : String) (t : Table Job) → (fail_stale_jobs reason t).last_id ≡ t.last_id
unfolding fail_stale_jobs
last_id-fail_stale_jobs reason t = last_id-update_all (Jobs.fail_if_stale reason) t

pub fresh-fail_stale_jobs :
    (reason : String) (t : Table Job) → IsFresh t → IsFresh (fail_stale_jobs reason t)
unfolding fail_stale_jobs
fresh-fail_stale_jobs reason t h j lt =
    find-update_all j (Jobs.fail_if_stale reason) t
    ∙ ap (map_option (Jobs.fail_if_stale reason)) (h j (unfold Table.update_all in lt))
