-- ===== src/Schedules/Sync.antt =====
-- The entries after a sync, told from the table.
use clamav_webui.Prelude.{
  ℕ, String, ◌≡◌, refl, true, ◌&&◌, Option, none, some, List, [], ◌∷◌, nat_eq, arith, if◌then◌else◌,
}
use clamav_webui.Prelude.Map
use clamav_webui.Prelude.Map.{Map, insert}
use clamav_webui.Db.Table
use clamav_webui.Db.Table.{Table, find_in, IsKeyed}
use clamav_webui.Db.Schedules.{Schedule, enabled_in, enabled_schedules}
use clamav_webui.Schedules.{Lib, Scheduler, add_entries, sync}

-- The expression that a schedule should run on.
abbrev pub planned : Lib → Option Schedule → Option String
planned lib none = none
planned lib (some sch) =
    if sch.enabled && lib.is_spec sch.cron_expr then some sch.cron_expr else none

abbrev if_enabled : Option Schedule → Option Schedule
if_enabled none = none
if_enabled (some sch) = if sch.enabled then some sch else none

find_in-enabled :
    (j : ℕ) (rows : List (ℕ × Schedule))
    → IsKeyed rows
    → find_in j (enabled_in rows) ≡ if_enabled (find_in j rows)
unfolding enabled_in
find_in-enabled j [] h = refl
find_in-enabled j ((i, sch) ∷ rows) h = ground (arith, h.0, find_in-enabled j rows h.1)

enabled_in-IsKeyed : (rows : List (ℕ × Schedule)) → IsKeyed rows → IsKeyed (enabled_in rows)
unfolding enabled_in
enabled_in-IsKeyed [] h = tt
enabled_in-IsKeyed ((i, sch) ∷ rows) h =
    ground (arith, h.0, find_in-enabled i rows h.1, enabled_in-IsKeyed rows h.1)

abbrev entry_of : Lib → Option Schedule → Option String → Option String
entry_of lib none before = before
entry_of lib (some sch) before = if lib.is_spec sch.cron_expr then some sch.cron_expr else before

add_entries_lem :
    (lib : Lib) (j : ℕ) (rows : List (ℕ × Schedule)) (entries : Map ℕ String)
    → IsKeyed rows
    → add_entries lib rows entries j ≡ entry_of lib (find_in j rows) (entries j)
unfolding add_entries
add_entries_lem lib j [] entries h = refl
add_entries_lem lib j ((i, sch) ∷ rows) entries h = ground (
  arith,
  h.0,
  add_entries_lem lib j rows
      (if lib.is_spec sch.cron_expr then insert i sch.cron_expr entries else entries) h.1,
)

pub sync-planned :
    (lib : Lib) (t : Table Schedule) (s : Scheduler) (j : ℕ)
    → IsKeyed t.rows
    → (sync lib true t s).entries j ≡ planned lib (Table.find j t)
unfolding sync enabled_schedules Table.find
sync-planned lib t s j h = ground (
  arith,
  find_in-enabled j t.rows h,
  add_entries_lem lib j (enabled_in t.rows) Map.empty (enabled_in-IsKeyed t.rows h),
)
