-- ===== src/Schedules.antt =====
-- internal/scheduler and the schedule requests of internal/api/schedules.go. The cron library is the
-- test of an expression and the set of entries; the running of a schedule is in `Scans`.
pub mod Sync
pub mod Agreement
mod Tests
use clamav_webui.Prelude.{
  ℕ, String, Text, Bool, true, false, not, ◌&&◌, Option, none, some, List, [], ◌∷◌, ◌==◌, string_eq,
  nat_eq, if◌then◌else◌,
}
use clamav_webui.Prelude.Map
use clamav_webui.Prelude.Map.{Map, insert}
use clamav_webui.Db.Table.{Table}
use clamav_webui.Db.Schedules.{
  Schedule, ScheduleInput, create_schedule, update_schedule, delete_schedule, enabled_schedules,
}
use clamav_webui.Scans.Targets.{PathLib, sanitize_scan_paths}

-- strings.TrimSpace and the test of `cron.ParseStandard`, with the functions on paths
pub record Lib : Type 0 where
  pub trim : String → String
  pub is_spec : String → Bool
  pub paths : PathLib

-- `cron` is there while `running`; `entries` are the expressions that it runs, by schedule.
pub record Scheduler : Type 0 where
  pub running : Bool
  pub entries : Map ℕ String

abbrev pub new_scheduler : Scheduler
new_scheduler = record { running = false; entries = Map.empty }

-- An expression that the cron library refuses is skipped.
add_entries : Lib → List (ℕ × Schedule) → Map ℕ String → Map ℕ String
add_entries lib [] entries = entries
add_entries lib ((id, sch) ∷ rows) entries =
    add_entries lib rows
      (if lib.is_spec sch.cron_expr then insert id sch.cron_expr entries else entries)

-- `syncLocked`; the flag says whether the schedules can be read.
unfoldable pub sync : Lib → Bool → Table Schedule → Scheduler → Scheduler
unfolding add_entries
sync lib readable t s =
    if readable then record s { entries = add_entries lib (enabled_schedules t) Map.empty } else s

unfoldable pub start : Lib → Bool → Table Schedule → Scheduler → Scheduler
start lib readable t s = if s.running then s else sync lib readable t (record s { running = true })

unfoldable pub stop : Scheduler → Scheduler
stop s = if s.running then record { running = false; entries = Map.empty } else s

unfoldable pub reload : Lib → Bool → Table Schedule → Scheduler → Scheduler
reload lib readable t s = if s.running then sync lib readable t s else s

pub record ScheduleRequest : Type 0 where
  pub name : String
  pub cron_expr : String
  pub paths : List Text
  pub enabled : Bool

-- `toInput`
abbrev pub to_input : Lib → List Text → ScheduleRequest → ScheduleInput
to_input lib paths r = record {
  name = lib.trim r.name;
  cron_expr = lib.trim r.cron_expr;
  paths = paths;
  enabled = r.enabled;
}

-- `decodeSchedule` on the decoded body, with the input that it is turned into; `none` for an error
decode_with : Lib → ScheduleRequest → Option (List Text) → Option ScheduleInput
decode_with lib r none = none
decode_with lib r (some paths) = some (to_input lib paths r)

unfoldable pub decode_schedule : Lib → Text → ScheduleRequest → Option ScheduleInput
unfolding decode_with
decode_schedule lib browse_root r =
    if lib.trim r.name == ""
    then none
    else if not (lib.is_spec (lib.trim r.cron_expr))
    then none
    else decode_with lib r (sanitize_scan_paths lib.paths browse_root r.paths)

pub record Planner : Type 0 where
  pub schedules : Table Schedule
  pub scheduler : Scheduler

pub data Reply : Type 0 where
  created : ℕ → Reply
  ok no_content bad_request not_found : Reply

-- The change of the table, and the reload behind it, whose error is only logged.
abbrev pub store : Lib → Bool → Table Schedule → Planner → Planner
store lib readable t s = record { schedules = t; scheduler = reload lib readable t s.scheduler }

create_decoded : Lib → Bool → Option ScheduleInput → Planner → Planner × Reply
create_decoded lib readable none s = (s, bad_request)
create_decoded lib readable (some in') s =
    let (t, id) = create_schedule in' s.schedules in (store lib readable t s, created id)

unfoldable pub handle_create_schedule :
    Lib → Text → Bool → ScheduleRequest → Planner → Planner × Reply
unfolding create_decoded
handle_create_schedule lib browse_root readable r s =
    create_decoded lib readable (decode_schedule lib browse_root r) s

update_decoded : Lib → Bool → ℕ → Option ScheduleInput → Planner → Planner × Reply
update_decoded lib readable id none s = (s, bad_request)
update_decoded lib readable id (some in') s =
    let (t, found) = update_schedule id in' s.schedules in
    if found then (store lib readable t s, ok) else (s, not_found)

unfoldable pub handle_update_schedule :
    Lib → Text → Bool → ℕ → ScheduleRequest → Planner → Planner × Reply
unfolding update_decoded
handle_update_schedule lib browse_root readable id r s =
    update_decoded lib readable id (decode_schedule lib browse_root r) s

unfoldable pub handle_delete_schedule : Lib → Bool → ℕ → Planner → Planner × Reply
handle_delete_schedule lib readable id s =
    let (t, found) = delete_schedule id s.schedules in
    if found then (store lib readable t s, no_content) else (s, not_found)
