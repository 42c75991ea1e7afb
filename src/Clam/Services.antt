-- ===== src/Clam/Services.antt =====
-- internal/clamav/services.go (the guard and the actions) and `UpdateSignatures` of freshclam.go. The
-- state of a unit is read as whether it is active, which is false where it cannot be read; the lines
-- that are shown are left out.
pub mod Guarded
use clamav_webui.Prelude.{
  String, Bool, true, false, not, ◌&&◌, ◌||◌, Option, none, some, List, [], ◌∷◌, ◌==◌, string_eq,
  contains, if◌then◌else◌,
}
use clamav_webui.Clam.System.{Trace, System, ask, systemctl, is_active, look_path, run_freshclam}

abbrev pub managed_units : List String
managed_units = "clamav-daemon" ∷ "clamav-freshclam" ∷ "clamav-clamonacc" ∷ []

abbrev pub is_managed : String → Bool
is_managed unit = contains managed_units unit

abbrev pub service_actions : List String
service_actions = "start" ∷ "stop" ∷ "restart" ∷ "enable" ∷ "disable" ∷ []

pub data ServiceError : Type 0 where
  unknown_unit unknown_action action_failed : ServiceError

-- Each action is its own verb.
unfoldable pub service_action : System → String → String → Trace → Option ServiceError × Trace
service_action system unit action t =
    let (done, t₁) = ask system (systemctl action unit) t in
    if not (is_managed unit)
    then (some unknown_unit, t)
    else if not (contains service_actions action)
    then (some unknown_action, t)
    else (if done then none else some action_failed, t₁)

pub data UpdateResult : Type 0 where
  updated not_installed freshclam_failed : UpdateResult

-- The run of freshclam between the stop and the deferred start.
refresh : System → Bool → Trace → UpdateResult × Trace
refresh system was_active t =
    let (done, t₁) = ask system run_freshclam t in
    (
      if done then updated else freshclam_failed,
      if was_active then (service_action system "clamav-freshclam" "start" t₁).1 else t₁,
    )

unfoldable pub update_signatures : System → Trace → UpdateResult × Trace
unfolding refresh
update_signatures system t =
    let (found, t₁) = ask system (look_path "freshclam") t in
    let (was_active, t₂) = ask system (is_active "clamav-freshclam") t₁ in
    let stopped = (service_action system "clamav-freshclam" "stop" t₂).1 in
    if not found
    then (not_installed, t₁)
    else if was_active
    then refresh system true stopped
    else refresh system false t₂
