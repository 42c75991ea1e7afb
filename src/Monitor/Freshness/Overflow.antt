-- ===== src/Monitor/Freshness/Overflow.antt =====
-- The threshold in days against 64-bit durations.
use clamav_webui.Prelude.{ℕ, ◌*◌, ◌≤◌, ◌≡◌, true, ltb, arith}
use clamav_webui.Prelude.Int.{pos}
use clamav_webui.Monitor.Freshness.{is_stale}

-- Up to 106751 days, and for ages up to the largest duration in seconds, signatures are stale exactly if they are
-- older than the days that are configured.
pub is_stale-eq-ltb :
    (days age : ℕ)
    → days ≤ 106751
    → age ≤ 9223372036
    → is_stale days (pos age) ≡ ltb (days * 86400) age
unfolding is_stale
is_stale-eq-ltb days age h k = ground arith

-- From 106752 days on, up to twice that, the duration has wrapped around, and signatures of this moment are stale.
pub is_stale_overflow : (days : ℕ) → 106752 ≤ days → days ≤ 213503 → is_stale days (pos 0) ≡ true
unfolding is_stale
is_stale_overflow days h k = ground arith
