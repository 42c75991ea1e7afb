-- ===== src/Monitor/Tests.antt =====
-- Runs of the two background loops.
use clamav_webui.Prelude.{
  ◌+◌, ℕ, ◌≡◌, ◌*◌, refl, true, false, none, some, List, [], ◌∷◌, map, string_eq,
}
use clamav_webui.Prelude.Int.{pos}
use clamav_webui.Auth.Clock.{second}
use clamav_webui.Monitor.Tailer
use clamav_webui.Monitor.Tailer.{follow, run_tailer}
use clamav_webui.Monitor.Tailer.Waits.{run_tailer_spins}
use clamav_webui.Monitor.Freshness
use clamav_webui.Monitor.Freshness.{is_stale, run_freshness}
use clamav_webui.Monitor.Freshness.Spacing.{AreSpaced, run_freshness-AreSpaced}

-- A follow that ends at once
abbrev ended : Tailer.Round
ended = record {
  done_before = false;
  enabled = some true;
  kicked = false;
  done_after = false;
  elapsed = 0;
  woke = true;
}

run_tailer_spins_example :
    run_tailer (ended ∷ ended ∷ ended ∷ []) ≡ map (λ r. follow) (ended ∷ ended ∷ ended ∷ [])
run_tailer_spins_example =
    run_tailer_spins (ended ∷ ended ∷ ended ∷ [])
      ((refl, refl, refl), ((refl, refl, refl), ((refl, refl, refl), tt)))

-- Signatures of eight days at an hour of the clock
abbrev reading : ℕ → Freshness.Round
reading hour = record { now = (hour + 1000) * 3600 * second; days = 7; age = some (pos 691200) }

abbrev readings : List Freshness.Round
readings = reading 0 ∷ reading 12 ∷ reading 24 ∷ reading 25 ∷ []

run_freshness_alerts : run_freshness readings ≡ true ∷ false ∷ false ∷ true ∷ []
unfolding run_freshness Freshness.freshness_round is_stale
run_freshness_alerts = refl

run_freshness-AreSpaced_example : AreSpaced none readings (run_freshness readings)
run_freshness-AreSpaced_example = run_freshness-AreSpaced readings
