-- ===== src/Db/Schedules.antt =====
-- internal/db/schedules.go
use clamav_webui.Prelude.{
  Text, ℕ, String, Bool, true, false, List, [], ◌∷◌, Option, none, some, if◌then◌else◌,
}
use clamav_webui.Db.Table
use clamav_webui.Db.Table.{Table}

-- `last_run_id` is 0 where the column is NULL.
pub record Schedule : Type 0 where
  pub name : String
  pub cron_expr : String
  pub paths : List Text
  pub enabled : Bool
  pub last_run_id : ℕ

pub record ScheduleInput : Type 0 where
  pub name : String
  pub cron_expr : String
  pub paths : List Text
  pub enabled : Bool

unfoldable pub create_schedule : ScheduleInput → Table Schedule → Table Schedule × ℕ
create_schedule in' t =
    Table.insert
      (record {
        name = in'.name;
        cron_expr = in'.cron_expr;
        paths = in'.paths;
        enabled = in'.enabled;
        last_run_id = 0;
      })
      t

is_there : Option Schedule → Bool
is_there none = false
is_there (some s) = true

-- The flag is false for `ErrNotFound`.
unfoldable pub update_schedule : ℕ → ScheduleInput → Table Schedule → Table Schedule × Bool
unfolding is_there
update_schedule id in' t = (
  Table.update id
      (λ s. record s {
        name = in'.name;
        cron_expr = in'.cron_expr;
        paths = in'.paths;
        enabled = in'.enabled;
      })
      t,
  is_there (Table.find id t),
)

unfoldable pub delete_schedule : ℕ → Table Schedule → Table Schedule × Bool
unfolding is_there
delete_schedule id t = (Table.delete id t, is_there (Table.find id t))

unfoldable pub set_schedule_last_run : ℕ → ℕ → Table Schedule → Table Schedule
set_schedule_last_run id scan_id = Table.update id (λ s. record s { last_run_id = scan_id })

unfoldable pub get_schedule : ℕ → Table Schedule → Option Schedule
get_schedule = Table.find

unfoldable pub enabled_in : List (ℕ × Schedule) → List (ℕ × Schedule)
enabled_in [] = []
enabled_in ((id, s) ∷ rows) =
    let rest = enabled_in rows in if s.enabled then (id, s) ∷ rest else rest

unfoldable pub enabled_schedules : Table Schedule → List (ℕ × Schedule)
unfolding enabled_in
enabled_schedules t = enabled_in t.rows
