-- ===== src/Monitor/Tailer/Waits.antt =====
-- Where the follower of the journal waits, and where it does not.
use clamav_webui.Prelude.{ℕ, ◌≡◌, refl, true, false, some, List, [], ◌∷◌, All, map, arith}
use clamav_webui.Monitor.Tailer.{
  Round, follow, is_enabled, retry_pause, tail_round, tail_from, run_tailer,
}

-- The server goes on, and on-access scanning is on, whatever else happens in the round.
abbrev pub IsFollowing : Round → Type 0
IsFollowing r = (r.done_before ≡ false) × (is_enabled r.enabled ≡ true) × (r.done_after ≡ false)

follow_round :
    (backoff : ℕ) (r : Round) → IsFollowing r → tail_round backoff r ≡ (follow ∷ [], some backoff)
unfolding tail_round
follow_round backoff r h = ground (arith, h)

tail_from-follow :
    (backoff : ℕ) (rs : List Round)
    → All IsFollowing rs
    → tail_from (some backoff) rs ≡ map (λ r. follow) rs
unfolding tail_from
tail_from-follow backoff [] h = refl
tail_from-follow backoff (r ∷ rs) h =
    rw (follow_round backoff r h.0) (rw (tail_from-follow backoff rs h.1) refl)

-- While the server goes on and on-access scanning is on, the journal is followed again at once each time the
-- follow ends, with no pause in between: whether or not a change of the settings interrupted it, and
-- also where it ended within two seconds, however often.
pub run_tailer_spins : (rs : List Round) → All IsFollowing rs → run_tailer rs ≡ map (λ r. follow) rs
unfolding run_tailer
run_tailer_spins rs h = tail_from-follow retry_pause rs h
