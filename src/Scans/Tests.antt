-- ===== src/Scans/Tests.antt =====
-- Runs of the scan handlers and of a schedule's ticks.
use clamav_webui.Prelude.Int.{pos}
use clamav_webui.Prelude.{ℕ, ◌≡◌, ◌≢◌, refl, true, false, none, some, [], ◌∷◌, arith}
use clamav_webui.Db.Table
use clamav_webui.Db.Table.{Table}
use clamav_webui.Db.Jobs.{create_job}
use clamav_webui.Db.Scans
use clamav_webui.Db.Scans.{Scan, get_scan, create_scan, start_scan, finish_scan}
use clamav_webui.Db.Schedules.{Schedule, get_schedule}
use clamav_webui.Clam.Options.{ScanOptions}
use clamav_webui.Worker
use clamav_webui.Worker.{Manager}
use clamav_webui.Scans.{
  LaunchAnswers, Server, ScanTask, launch, run_scheduled_scan, handle_cancel_scan, restart,
  accepted,
}
use clamav_webui.Scans.Steps.{here, next, cancels}
use clamav_webui.Scans.Ticks.{run_scheduled_scan_adds, settled_row, linked_schedule, new_row}
use clamav_webui.Scans.Restart.{restart_blocks_schedule}
use clamav_webui.Scans.Cancel.{canceled_row, Bails, canceled_in_queue}

abbrev options : ScanOptions
options = record {
  recursive = true;
  follow_symlinks = false;
  max_file_size_mb = pos 0;
  max_scan_size_mb = pos 0;
  force_clamscan = false;
}

abbrev fine : LaunchAnswers
fine = record {
  job = record { insert_failure = none; take_done = false; closed = true };
  closed = true;
  linked = true;
}

abbrev home : Schedule
home = record {
  name = "home";
  cron_expr = "@daily";
  paths = (47 ∷ 104 ∷ []) ∷ [];
  enabled = true;
  last_run_id = 0;
}

abbrev with_home : Server
with_home = record {
  scans = Table.empty;
  schedules = record { rows = (1, home) ∷ []; last_id = 1 };
  manager = Worker.new true Table.empty;
  executing = [];
}

-- The scan of the schedule, created by a tick and begun by a worker.
abbrev mid_scan : Server
mid_scan = record {
  scans = record {
    rows =
        (1, record (new_row "scheduled" home.paths) { status = Scans.running; engine = "clamd" })
        ∷ [];
    last_id = 1;
  };
  schedules = record { rows = (1, record home { last_run_id = 1 }) ∷ []; last_id = 1 };
  manager = Worker.new true Table.empty;
  executing = [];
}

restart_blocks_schedule_example :
    run_scheduled_scan true fine options 1
      (handle_cancel_scan true true 1 (restart true mid_scan)).0
    ≡ (handle_cancel_scan true true 1 (restart true mid_scan)).0
unfolding get_scan get_schedule Table.find
restart_blocks_schedule_example =
    restart_blocks_schedule true 1 1 mid_scan
      (handle_cancel_scan true true 1 (restart true mid_scan)).0 (omega arith) (omega arith)
      (omega arith) refl refl (next here (cancels true true 1)) true fine options

run_scheduled_scan_adds_example :
    let u = run_scheduled_scan true fine options 1 with_home in
    let failure = (launch fine "scheduled" home.paths options with_home).2 in
    ((j : ℕ) → j ≢ 1 → get_scan j u.scans ≡ get_scan j with_home.scans)
    × (get_scan 1 u.scans ≡ some (settled_row true failure (new_row "scheduled" home.paths)))
    × (get_schedule 1 u.schedules ≡ some (linked_schedule true failure 1 home))
unfolding get_schedule Table.find
run_scheduled_scan_adds_example = run_scheduled_scan_adds fine options 1 home with_home refl refl

accepted_tick : (launch fine "scheduled" home.paths options with_home).2 ≡ none
unfolding launch Worker.enqueue Worker.new create_scan create_job
accepted_tick = refl

abbrev queued_scan : Server
queued_scan = record mid_scan {
  scans = record { rows = (1, new_row "manual" []) ∷ []; last_id = 1 };
}

abbrev manual_task : ScanTask
manual_task = record { scan_id = 1; source = "manual"; paths = []; options = options }

canceled_in_queue_example :
    let u = (handle_cancel_scan true true 1 queued_scan).0 in
    ((handle_cancel_scan true true 1 queued_scan).1 ≡ accepted 1)
    × (get_scan 1 u.scans ≡ some (canceled_row (new_row "manual" [])))
    × Bails true "clamd" "1" manual_task u
unfolding get_scan Table.find
canceled_in_queue_example =
    canceled_in_queue true true "clamd" "1" (new_row "manual" []) manual_task queued_scan
      (handle_cancel_scan true true 1 queued_scan).0 refl refl refl
