-- ===== src/Monitor/Freshness/Spacing.antt =====
-- How far the alerts on stale signatures are apart.
use clamav_webui.Prelude.{
  sym, refl, inr, ◌⊎◌, inl, Bool-cases, ℕ, ◌+◌, ◌<◌, ◌≡◌, Bool, true, false, not, Option, none,
  some, List, [], ◌∷◌, arith, ltb,
}
use clamav_webui.Prelude.Int.{ℤ}
use clamav_webui.Auth.Clock.{since}
use clamav_webui.Monitor.Freshness.{
  Round, is_stale, realert_gap, check_age, check_result, freshness_round, freshness_from,
  run_freshness,
}

-- A reading without an error of signatures that are not stale
abbrev pub is_fresh : ℕ → Option ℤ → Bool
is_fresh days none = false
is_fresh days (some age) = not (is_stale days age)

-- Each alert comes more than the gap behind the one before it; `since_fresh` holds the earlier alert, and
-- none where there was a fresh reading since.
abbrev pub IsBehind : Option ℕ → ℕ → Type 0
IsBehind none now = Unit
IsBehind (some last) now = last + realert_gap < now

abbrev pub AreSpaced : Option ℕ → List Round → List Bool → Type 0
AreSpaced earlier [] [] = Unit
AreSpaced earlier (r ∷ rs) (true ∷ bs) = IsBehind earlier r.now × AreSpaced (some r.now) rs bs
AreSpaced earlier (r ∷ rs) (false ∷ bs) =
    AreSpaced (elim (is_fresh r.days r.age) [ true ↦ none | false ↦ earlier ]) rs bs
AreSpaced _ _ _ = ⊥

abbrev time_of : Option ℕ → ℕ
time_of none = 0
time_of (some t) = t

IsBehind-of :
    (earlier : Option ℕ) (now : ℕ) → time_of earlier + realert_gap < now → IsBehind earlier now
IsBehind-of none now h = tt
IsBehind-of (some last) now h = h

-- The three ways in which a round ends.
abbrev Ends : ℕ → Round → ℕ × Bool → Type 0
Ends last r out =
    ((is_fresh r.days r.age ≡ true) × (out ≡ (0, false)))
    ⊎ ((is_fresh r.days r.age ≡ false) × (out ≡ (last, false)))
    ⊎ ((last + realert_gap < r.now) × (out ≡ (r.now, true)))

check_age-Ends :
    (last : ℕ) (r : Round) (age : ℤ) → r.age ≡ some age → Ends last r (check_age last r age)
unfolding check_age
check_age-Ends last r age e = elim (Bool-cases (is_stale r.days age)) [
  | inl stale ↦ elim (Bool-cases (ltb realert_gap (since r.now last))) [
    | inl late ↦ inr (inr (ground (arith, late), rw (stale, late) refl))
    | inr soon ↦ inr (inl (rw (e, stale) refl, rw (stale, soon) refl))
  ]
  | inr fresh ↦ inl (rw (e, fresh) refl, rw fresh refl)
]

check_result-Ends :
    (last : ℕ) (r : Round) (age : Option ℤ) → age ≡ r.age → Ends last r (check_result last r age)
unfolding check_result
check_result-Ends last r none e = inr (inl (rw (sym e) refl, refl))
check_result-Ends last r (some age) e = check_age-Ends last r age (sym e)

freshness_round-Ends : (last : ℕ) (r : Round) → Ends last r (freshness_round last r)
unfolding freshness_round
freshness_round-Ends last r = check_result-Ends last r r.age refl

freshness_from-AreSpaced :
    (earlier : Option ℕ) (rs : List Round)
    → AreSpaced earlier rs (freshness_from (time_of earlier) rs)
unfolding freshness_from
freshness_from-AreSpaced earlier [] = tt
freshness_from-AreSpaced earlier (r ∷ rs) = elim (freshness_round-Ends (time_of earlier) r) [
  | inl (fresh, e) ↦ rw (e, fresh) (freshness_from-AreSpaced none rs)
  | inr (inl (stale, e)) ↦ rw (e, stale) (freshness_from-AreSpaced earlier rs)
  | inr (inr (late, e)) ↦
      rw e (IsBehind-of earlier r.now late, freshness_from-AreSpaced (some r.now) rs)
]

-- Between two alerts with no fresh reading in between lie more than 24 hours, whatever the clock, the threshold
-- and the errors of the other rounds are.
pub run_freshness-AreSpaced : (rs : List Round) → AreSpaced none rs (run_freshness rs)
unfolding run_freshness
run_freshness-AreSpaced rs = freshness_from-AreSpaced none rs
