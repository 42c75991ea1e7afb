-- ===== src/Scans/Blocked/Tick.antt =====
-- The ticks of a blocked schedule do nothing, and those of the others leave it blocked.
use clamav_webui.Prelude.{
  Option-cases, Bool-cases, inr, inl, ℕ, Text, ◌≡◌, ◌≢◌, Bool, true, false, Option, none, some,
  List, arith, ◌==◌, nat_eq, if◌then◌else◌,
}
use clamav_webui.Db.Table
use clamav_webui.Db.Table.{
  last_id-insert, Table, find-insert, find-update, find-delete, last_id-update, map_option,
}
use clamav_webui.Db.Scans.{get_scan}
use clamav_webui.Db.Schedules.{Schedule, set_schedule_last_run, get_schedule}
use clamav_webui.Clam.Options.{ScanOptions}
use clamav_webui.Worker.{EnqueueError}
use clamav_webui.Scans.{
  LaunchAnswers, run_loaded, link_run, Server, launch, run_scheduled_scan, must_skip,
  handle_create_scan,
}
use clamav_webui.Scans.Ticks.{skips_active}
use clamav_webui.Scans.Blocked.{Blocked}
use clamav_webui.Scans.Blocked.Launch.{launch-Blocked}
use clamav_webui.Scans.Ticks.{skips_active}

tick_missing :
    (row_inserted : Bool) (a : LaunchAnswers) (options : ScanOptions) (id : ℕ) (s : Server)
    → get_schedule id s.schedules ≡ none
    → run_scheduled_scan row_inserted a options id s ≡ s
unfolding run_scheduled_scan
tick_missing row_inserted a options id s e = ground arith

tick_found :
    (row_inserted : Bool) (a : LaunchAnswers) (options : ScanOptions) (id : ℕ) (sch : Schedule)
    (s : Server)
    → get_schedule id s.schedules ≡ some sch
    → run_scheduled_scan row_inserted a options id s ≡ run_loaded row_inserted a options id sch s
unfolding run_scheduled_scan
tick_found row_inserted a options id sch s e = ground arith

module _ (id k : ℕ) where
  link_run-Blocked :
      (linked : Bool) (j scan_id : ℕ) (failure : Option EnqueueError) (s : Server)
      → j ≢ id
      → Blocked id k s
      → Blocked id k (link_run linked j scan_id failure s)
  unfolding link_run
  link_run-Blocked linked j scan_id (some e) s n b = b
  link_run-Blocked linked j scan_id none s n b = record {
    row = b.row;
    linked =
        unfold set_schedule_last_run in
        ground (
          arith,
          find-update id j (λ (r : Schedule). record r { last_run_id = scan_id }) s.schedules,
          b.linked,
        );
    known = b.known;
    nonzero = b.nonzero;
    planned = unfold set_schedule_last_run Table.update in ground (arith, b.planned);
    unqueued = b.unqueued;
    unowned = b.unowned;
  }

  Blocked-skips :
      (s : Server) (sch : Schedule)
      → Blocked id k s
      → Table.find id s.schedules ≡ some sch
      → must_skip sch s.scans ≡ true
  Blocked-skips s sch b e = unfold get_scan in ground (arith, b.row, b.linked, b.nonzero)

  if-Blocked :
      (c : Bool) (u v : Server)
      → Blocked id k u
      → Blocked id k v
      → Blocked id k (if c then u else v)
  if-Blocked true u v b b' = b
  if-Blocked false u v b b' = b'

  run_loaded-Blocked :
      (row_inserted : Bool) (a : LaunchAnswers) (options : ScanOptions) (j : ℕ) (sch : Schedule)
      (s : Server)
      → j ≢ id
      → Blocked id k s
      → Blocked id k (run_loaded row_inserted a options j sch s)
  unfolding run_loaded
  run_loaded-Blocked row_inserted a options j sch s n b =
      let launched = launch a "scheduled" sch.paths options s in
      let linked = link_run a.linked j launched.1 launched.2 launched.0 in
      if-Blocked (must_skip sch s.scans) s (if row_inserted then linked else s) b (
        if-Blocked row_inserted linked s
          (link_run-Blocked a.linked j launched.1 launched.2 launched.0 n
            (launch-Blocked id k a "scheduled" sch.paths options s b))
          b)

  -- While the schedule is blocked, its ticks do nothing.
  pub own_tick :
      (row_inserted : Bool) (a : LaunchAnswers) (options : ScanOptions) (s : Server)
      → Blocked id k s
      → run_scheduled_scan row_inserted a options id s ≡ s
  own_tick row_inserted a options s b = elim (Option-cases (get_schedule id s.schedules)) [
    | inl gone ↦ tick_missing row_inserted a options id s gone
    | inr (sch, e) ↦
        skips_active row_inserted a options id sch s e
          (Blocked-skips s sch b (unfold get_schedule in e))
  ]

  other_tick-Blocked :
      (row_inserted : Bool) (a : LaunchAnswers) (options : ScanOptions) (j : ℕ) (s : Server)
      → j ≢ id
      → Blocked id k s
      → Blocked id k (run_scheduled_scan row_inserted a options j s)
  other_tick-Blocked row_inserted a options j s n b =
      elim (Option-cases (get_schedule j s.schedules)) [
        | inl gone ↦ rw (tick_missing row_inserted a options j s gone) b
        | inr (sch, e) ↦
            rw (tick_found row_inserted a options j sch s e)
              (run_loaded-Blocked row_inserted a options j sch s n b)
      ]

  pub tick-Blocked :
      (row_inserted : Bool) (a : LaunchAnswers) (options : ScanOptions) (j : ℕ) (s : Server)
      → Blocked id k s
      → Blocked id k (run_scheduled_scan row_inserted a options j s)
  tick-Blocked row_inserted a options j s b = elim (Bool-cases (j == id)) [
    | inl e ↦
        let same : j ≡ id = ground (arith, e) in
        rw same (rw (own_tick row_inserted a options s b) b)
    | inr e ↦ other_tick-Blocked row_inserted a options j s (ground (arith, e)) b
  ]

  pub post-Blocked :
      (row_inserted : Bool) (a : LaunchAnswers) (paths : Option (List Text)) (options : ScanOptions)
      (s : Server)
      → Blocked id k s
      → Blocked id k (handle_create_scan row_inserted a paths options s).0
  unfolding handle_create_scan
  post-Blocked row_inserted a none options s b = b
  post-Blocked false a (some paths) options s b = b
  post-Blocked true a (some paths) options s b = launch-Blocked id k a "manual" paths options s b
