-- ===== src/Schedules/Agreement.antt =====
-- The scheduler and the table of schedules, over any sequence of requests.
use clamav_webui.Prelude.{
  ℕ, Text, ◌≡◌, refl, Bool, true, false, Option, none, some, arith, nat_eq, if◌then◌else◌,
  Bool-cases, inl, inr,
}
use clamav_webui.Db.Table
use clamav_webui.Db.Table.{Table, find-update}
use clamav_webui.Db.Table.Keyed.{IsSound, insert-IsSound, update-IsSound, delete-IsSound}
use clamav_webui.Db.Schedules.{
  Schedule, ScheduleInput, create_schedule, update_schedule, delete_schedule, set_schedule_last_run,
}
use clamav_webui.Schedules.{
  ok, not_found, no_content, Reply, Lib, Scheduler, ScheduleRequest, Planner, start, stop, reload,
  store, decode_schedule, create_decoded, update_decoded, handle_create_schedule,
  handle_update_schedule, handle_delete_schedule,
}
use clamav_webui.Schedules.Sync.{planned, sync-planned}

-- What happens while the schedules can be read.
pub data Step (lib : Lib) (browse_root : Text) (s : Planner) : Planner → Type 0 where
  creates :
      (r : ScheduleRequest)
      → Step lib browse_root s (handle_create_schedule lib browse_root true r s).0
  updates :
      (id : ℕ) (r : ScheduleRequest)
      → Step lib browse_root s (handle_update_schedule lib browse_root true id r s).0
  deletes : (id : ℕ) → Step lib browse_root s (handle_delete_schedule lib true id s).0
  runs :
      (id scan_id : ℕ)
      → Step lib browse_root s
          (record s { schedules = set_schedule_last_run id scan_id s.schedules })
  starts : Step lib browse_root s (record s { scheduler = start lib true s.schedules s.scheduler })
  stops : Step lib browse_root s (record s { scheduler = stop s.scheduler })

pub data Reach (lib : Lib) (browse_root : Text) (s : Planner) : Planner → Type 0 where
  here : Reach lib browse_root s s
  next :
      {t u : Planner}
      → Reach lib browse_root s t
      → Step lib browse_root t u
      → Reach lib browse_root s u

-- A running scheduler has exactly the enabled schedules whose expression is legal, each on its expression.
pub record Agrees (lib : Lib) (s : Planner) : Type 0 where
  pub sound : IsSound s.schedules
  pub in_step :
      s.scheduler.running ≡ true
      → (id : ℕ) → s.scheduler.entries id ≡ planned lib (Table.find id s.schedules)

module _ (lib : Lib) where
  reload-planned :
      (t : Table Schedule) (s : Scheduler)
      → IsSound t
      → (reload lib true t s).running ≡ true
      → (id : ℕ) → (reload lib true t s).entries id ≡ planned lib (Table.find id t)
  unfolding reload
  reload-planned t s h r id = ground (arith, sync-planned lib t s id h.keyed, r)

  store-Agrees : (t : Table Schedule) (s : Planner) → IsSound t → Agrees lib (store lib true t s)
  store-Agrees t s h = record { sound = h; in_step = reload-planned t s.scheduler h }

  -- A change of the table is stored where the row is found.
  found-Agrees :
      (found : Bool) (t : Table Schedule) (s : Planner) (good bad : Reply)
      → IsSound t
      → Agrees lib s
      → (result : Planner × Reply)
      → result ≡ (if found then (store lib true t s, good) else (s, bad))
      → Agrees lib result.0
  found-Agrees true t s good bad h a result e = rw e (store-Agrees t s h)
  found-Agrees false t s good bad h a result e = rw e a

  create_decoded-Agrees :
      (in' : Option ScheduleInput) (s : Planner)
      → Agrees lib s
      → Agrees lib (create_decoded lib true in' s).0
  unfolding create_decoded create_schedule
  create_decoded-Agrees none s h = h
  create_decoded-Agrees (some in') s h =
      store-Agrees (create_schedule in' s.schedules).0 s (insert-IsSound _ s.schedules h.sound)

  update_decoded-Agrees :
      (id : ℕ) (in' : Option ScheduleInput) (s : Planner)
      → Agrees lib s
      → Agrees lib (update_decoded lib true id in' s).0
  unfolding update_decoded update_schedule
  update_decoded-Agrees id none s h = h
  update_decoded-Agrees id (some in') s h =
      let (t, found) = update_schedule id in' s.schedules in
      found-Agrees found t s ok not_found (update-IsSound id _ s.schedules h.sound) h
        (update_decoded lib true id (some in') s) refl

  delete-Agrees :
      (id : ℕ) (s : Planner) → Agrees lib s → Agrees lib (handle_delete_schedule lib true id s).0
  unfolding handle_delete_schedule delete_schedule
  delete-Agrees id s h =
      let (t, found) = delete_schedule id s.schedules in
      found-Agrees found t s no_content not_found (delete-IsSound id s.schedules h.sound) h
        (handle_delete_schedule lib true id s) refl

  run-Agrees :
      (id scan_id : ℕ) (s : Planner)
      → Agrees lib s
      → Agrees lib (record s { schedules = set_schedule_last_run id scan_id s.schedules })
  unfolding set_schedule_last_run
  run-Agrees id scan_id s h =
      let change = λ (r : Schedule). record r { last_run_id = scan_id } in
      record {
        sound = update-IsSound id change s.schedules h.sound;
        in_step = λ r j. ground (arith, h.in_step r j, find-update j id change s.schedules);
      }

  start-planned :
      (s : Planner)
      → Agrees lib s
      → (id : ℕ)
      → (start lib true s.schedules s.scheduler).entries id
        ≡ planned lib (Table.find id s.schedules)
  unfolding start
  start-planned s h id = elim (Bool-cases s.scheduler.running) [
    | inl r ↦ ground (arith, h.in_step r id, r)
    | inr r ↦ ground (
      arith,
      r,
      sync-planned lib s.schedules (record s.scheduler { running = true }) id h.sound.keyed,
    )
  ]

  stop-running : (s : Scheduler) → (stop s).running ≡ false
  unfolding stop
  stop-running s = ground arith

module _ (lib : Lib) (browse_root : Text) where
  Step-Agrees : {s u : Planner} → Step lib browse_root s u → Agrees lib s → Agrees lib u
  unfolding handle_create_schedule handle_update_schedule
  Step-Agrees {s} (creates r) h = create_decoded-Agrees lib (decode_schedule lib browse_root r) s h
  Step-Agrees {s} (updates id r) h =
      update_decoded-Agrees lib id (decode_schedule lib browse_root r) s h
  Step-Agrees {s} (deletes id) h = delete-Agrees lib id s h
  Step-Agrees {s} (runs id scan_id) h = run-Agrees lib id scan_id s h
  Step-Agrees {s} starts h = record { sound = h.sound; in_step = λ r. start-planned lib s h }
  Step-Agrees {s} stops h = record {
    sound = h.sound;
    in_step = λ r. ground (arith, stop-running lib s.scheduler, r);
  }

  -- While the schedules can be read: after any starts, stops, runs and requests, accepted or refused, a running
  -- scheduler has exactly the enabled schedules whose expression is legal, each on its expression.
  pub Reach-Agrees : (s u : Planner) → Agrees lib s → Reach lib browse_root s u → Agrees lib u
  Reach-Agrees s u h here = h
  Reach-Agrees s u h (next {t} r step) = Step-Agrees step (Reach-Agrees s t h r)
