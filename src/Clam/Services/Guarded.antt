-- ===== src/Clam/Services/Guarded.antt =====
-- Which units are touched, and what becomes of the updater's service.
use clamav_webui.Prelude.{
  String, ◌≡◌, Bool, true, false, ◌&&◌, ◌||◌, [], ◌∷◌, ◌==◌, string_eq, contains, if◌then◌else◌,
  arith,
}
use clamav_webui.Clam.System.{Trace, System, systemctl}
use clamav_webui.Clam.Services.{is_managed, service_actions, service_action, update_signatures}

-- Every systemctl call names a managed unit and an allowed action.
abbrev pub IsConfined : Trace → Type 0
IsConfined [] = Unit
IsConfined ((systemctl verb unit, outcome) ∷ t) =
    (is_managed unit ≡ true) × (contains service_actions verb ≡ true) × IsConfined t
IsConfined (_ ∷ t) = IsConfined t

-- Whatever unit and action a request names: systemctl is only called for one of the three managed units and
-- with one of the five actions.
pub service_action-IsConfined :
    (system : System) (unit action : String) (t : Trace)
    → IsConfined t
    → IsConfined (service_action system unit action t).1
unfolding service_action
service_action-IsConfined system unit action t h = ground (arith, h)

-- The last systemctl call on the unit was its start.
abbrev pub last_started : String → Trace → Bool
last_started unit [] = false
last_started unit ((systemctl verb u, outcome) ∷ t) =
    if u == unit then verb == "start" else last_started unit t
last_started unit (_ ∷ t) = last_started unit t

-- A stop of the unit was asked for.
abbrev pub was_stopped : String → Trace → Bool
was_stopped unit [] = false
was_stopped unit ((systemctl verb u, outcome) ∷ t) =
    (u == unit && verb == "stop") || was_stopped unit t
was_stopped unit (_ ∷ t) = was_stopped unit t

-- The update of the signatures leaves no service stopped behind: if it stopped the updater's service, the
-- last call on this service is a start, also where freshclam or the stop itself failed.
pub update_signatures_restarts :
    (system : System)
    → let t = (update_signatures system []).1 in
      was_stopped "clamav-freshclam" t ≡ last_started "clamav-freshclam" t
unfolding update_signatures service_action
update_signatures_restarts system = ground arith
