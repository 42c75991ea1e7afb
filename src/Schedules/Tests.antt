-- ===== src/Schedules/Tests.antt =====
-- A run of the scheduler.
use clamav_webui.Prelude.{Text, ◌≡◌, refl, true, some, [], ◌∷◌}
use clamav_webui.Db.Table
use clamav_webui.Db.Table.{Table}
use clamav_webui.Db.Schedules.{create_schedule, enabled_schedules}
use clamav_webui.Scans.Targets.{classify, PathLib, sanitize_scan_paths}
use clamav_webui.Schedules.{
  Lib, ScheduleRequest, Planner, start, new_scheduler, handle_create_schedule, decode_schedule,
  reload, sync,
}
use clamav_webui.Schedules.Agreement.{Agrees, here, next, starts, creates, Reach-Agrees}

abbrev paths : PathLib
paths = record { trim = λ p. p; clean = λ p. p }

abbrev lib : Lib
lib = record { trim = λ s. s; is_spec = λ s. true; paths = paths }

abbrev root : Text
root = b'/' ∷ []

abbrev home : Text
home = b'/' ∷ b'h' ∷ []

abbrev nightly : ScheduleRequest
nightly = record {
  name = "nightly";
  cron_expr = "0 3 * * *";
  paths = home ∷ home ∷ [];
  enabled = true;
}

abbrev fresh : Planner
fresh = record { schedules = Table.empty; scheduler = new_scheduler }

abbrev started : Planner
started = record fresh { scheduler = start lib true fresh.schedules fresh.scheduler }

abbrev planned_once : Planner
planned_once = (handle_create_schedule lib root true nightly started).0

entry_of_nightly : planned_once.scheduler.entries 1 ≡ some "0 3 * * *"
unfolding handle_create_schedule decode_schedule sanitize_scan_paths classify enabled_schedules
    create_schedule start reload sync Table.insert
entry_of_nightly = refl

fresh-Agrees : Agrees lib fresh
unfolding Table.find
fresh-Agrees = record {
  sound = record { keyed = tt; fresh = λ id above. refl };
  in_step = λ r id. refl;
}

Reach-Agrees_example : Agrees lib planned_once
Reach-Agrees_example =
    Reach-Agrees lib root fresh planned_once fresh-Agrees
      (next (next here starts) (creates nightly))
