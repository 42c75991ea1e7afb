-- ===== src/Monitor/Freshness.antt =====
-- `runFreshnessMonitor` of internal/api/freshness_monitor.go, on 64-bit durations. A signed number
-- is kept as its two's complement.
pub mod Spacing
pub mod Overflow
use clamav_webui.Prelude.{
  ℕ, ◌+◌, ◌-◌, ◌*◌, ◌%◌, ◌^◌, Bool, true, false, not, ◌&&◌, Option, none, some, List, [], ◌∷◌, ltb,
  if◌then◌else◌,
}
use clamav_webui.Prelude.Int.{ℤ, pos, negsuc}
use clamav_webui.Auth.Clock.{second, since}

abbrev pub word : ℕ
word = 18446744073709551616

abbrev pub half_word : ℕ
half_word = 9223372036854775808

-- a > b on int64
abbrev pub exceeds : ℕ → ℕ → Bool
exceeds a b = ltb ((b + half_word) % word) ((a + half_word) % word)

abbrev pub realert_gap : ℕ
realert_gap = 24 * 3600 * second

-- time.Duration(s.notify.StaleDays()) * 24 * time.Hour
abbrev pub stale_after : ℕ → ℕ
stale_after days = days * 86400000000000 % word

-- time.Duration(age) * time.Second
abbrev pub as_duration : ℕ → ℕ
as_duration age = age * 1000000000 % word

-- sig.AgeSeconds >= 0 && … > staleAfter
unfoldable pub is_stale : ℕ → ℤ → Bool
is_stale days (pos age) = exceeds (as_duration age) (stale_after days)
is_stale days (negsuc n) = false

-- A round reads the clock, the threshold, and the age of the signatures (`none` for an error).
pub record Round : Type 0 where
  pub now : ℕ
  pub days : ℕ
  pub age : Option ℤ

-- The time of the last alert, 0 for none, and whether the round raises one.
check_age : ℕ → Round → ℤ → ℕ × Bool
check_age last r age =
    if is_stale r.days age
    then (if ltb realert_gap (since r.now last) then (r.now, true) else (last, false))
    else (0, false)

check_result : ℕ → Round → Option ℤ → ℕ × Bool
check_result last r none = (last, false)
check_result last r (some age) = check_age last r age

unfoldable pub freshness_round : ℕ → Round → ℕ × Bool
unfolding check_result check_age
freshness_round last r = check_result last r r.age

-- The answers of the rounds, one after the other.
freshness_from : ℕ → List Round → List Bool
freshness_from last [] = []
freshness_from last (r ∷ rs) =
    let (next, alert) = freshness_round last r in alert ∷ freshness_from next rs

unfoldable pub run_freshness : List Round → List Bool
unfolding freshness_from
run_freshness rs = freshness_from 0 rs
