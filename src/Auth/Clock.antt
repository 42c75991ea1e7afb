-- ===== src/Auth/Clock.antt =====
-- What the program uses of Go's `time`: a `time.Time` is the nanoseconds since its zero value (year
-- 1), which every reading of the clock is well past.
use clamav_webui.Prelude.{ℕ, ◌-◌, ◌^◌, ◌+◌, Bool, ltb, min}

abbrev pub second : ℕ
second = 10 ^ 9

abbrev pub max_duration : ℕ
max_duration = 2 ^ 63 - 1

-- t.Sub(u), which stops at the largest duration. It is below 0 where t is before u; the program
-- only asks whether it is more than some duration, for which 0 serves as well.
abbrev pub since : ℕ → ℕ → ℕ
since t u = min (t - u) max_duration

-- ts.After(t.Add(-d)), with no subtraction that could go below the zero time
abbrev pub after_cut : ℕ → ℕ → ℕ → Bool
after_cut d t ts = ltb t (ts + d)

-- ts.Before(t.Add(-d))
abbrev pub before_cut : ℕ → ℕ → ℕ → Bool
before_cut d t ts = ltb (ts + d) t
