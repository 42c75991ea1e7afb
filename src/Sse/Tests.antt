-- ===== src/Sse/Tests.antt =====
-- A run of the bus.
use clamav_webui.Prelude.{ℕ, ◌≡◌, refl, some, List, [], ◌∷◌}
use clamav_webui.Sse
use clamav_webui.Sse.{Event, Bus, new_bus, subscribe, publish, receive}
use clamav_webui.Sse.Delivery.{
  Action, subscribes, publishes, receives, cancels, Follows, run, published, act, received,
  subscriber-Follows,
}

abbrev event : ℕ → Event ℕ
event n = record { kind = "job"; payload = n }

-- Another subscriber joins and leaves; one of two events is taken.
abbrev script : List (Action ℕ)
script = publishes (event 1) ∷ subscribes ∷ publishes (event 2) ∷ receives 0 ∷ cancels 1 ∷ []

script_received :
    let r = run 0 (subscribe (new_bus {D = ℕ})).0 [] script in
    (r.1 ≡ event 1 ∷ []) × (r.0.subs 0 ≡ some (event 2 ∷ []))
unfolding run act received subscribe publish receive new_bus Sse.cancel
script_received = (refl, refl)

subscriber-Follows_example :
    let (c, ch) = subscribe (new_bus {D = ℕ}) in
    Follows ch (run ch c [] script).0 (run ch c [] script).1 (published ch script)
unfolding subscribe new_bus
subscriber-Follows_example = subscriber-Follows new_bus script refl
