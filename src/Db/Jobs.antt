-- ===== src/Db/Jobs.antt =====
-- internal/db/jobs.go
use clamav_webui.Prelude.{
  ℕ, String, Bool, true, false, Option, none, some, List, [], ◌∷◌, ◌++◌, ◌==◌, string_eq, nat_eq,
  ◌&&◌, if◌then◌else◌,
}
use clamav_webui.Db.Table
use clamav_webui.Db.Table.{Table}

pub data JobStatus : Type 0 where
  queued running done error : JobStatus

pub record Job : Type 0 where
  pub kind : String
  pub status : JobStatus
  pub ref_id : Option ℕ
  pub log : List String
  pub error_text : String

unfoldable pub create_job : String → Option ℕ → Table Job → Table Job × ℕ
create_job kind ref t =
    Table.insert (record { kind = kind; status = queued; ref_id = ref; log = []; error_text = "" })
      t

unfoldable pub set_job_running : ℕ → Table Job → Table Job
set_job_running id = Table.update id (λ j. record j { status = running })

-- The log column as the chunks that were appended to it.
unfoldable pub append_job_log : ℕ → String → Table Job → Table Job
append_job_log id chunk = Table.update id (λ j. record j { log = j.log ++ chunk ∷ [] })

unfoldable pub finish_job : ℕ → JobStatus → String → Table Job → Table Job
finish_job id status text = Table.update id (λ j. record j { status = status; error_text = text })

-- status IN ('queued','running')
abbrev pub is_stale : JobStatus → Bool
is_stale queued = true
is_stale running = true
is_stale done = false
is_stale error = false

abbrev pub fail_if_stale : String → Job → Job
fail_if_stale reason j =
    if is_stale j.status then record j { status = error; error_text = reason } else j

unfoldable pub fail_stale_jobs : String → Table Job → Table Job
fail_stale_jobs reason = Table.update_all (fail_if_stale reason)

abbrev is_running : JobStatus → Bool
is_running running = true
is_running _ = false

abbrev refers_to : Option ℕ → ℕ → Bool
refers_to none ref = false
refers_to (some r) ref = r == ref

newest_running : String → ℕ → List (ℕ × Job) → Option ℕ
newest_running kind ref [] = none
newest_running kind ref ((id, j) ∷ rows) =
    if j.kind == kind && refers_to j.ref_id ref && is_running j.status
    then some id
    else newest_running kind ref rows

-- The newest row comes first, so the first match has the largest id.
unfoldable pub running_job_for_ref : String → ℕ → Table Job → Option ℕ
unfolding newest_running
running_job_for_ref kind ref t = newest_running kind ref t.rows
