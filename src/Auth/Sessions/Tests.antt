-- ===== src/Auth/Sessions/Tests.antt =====
-- Runs of the session store.
use clamav_webui.Prelude.{
  ◌+◌, String, ◌≡◌, ◌≢◌, refl, true, false, some, List, [], ◌∷◌, arith, eq_iff,
}
use clamav_webui.Auth.Sessions.{session_idle_timeout, create, valid}
use clamav_webui.Auth.Sessions.Liveness.{Call, opened, presented, after, is_live, valid-eq-is_live}

abbrev past : List Call
past =
    presented "b" (5 + session_idle_timeout)
    ∷ presented "a" 9
    ∷ opened (some "b") 2
    ∷ opened (some "a") 1
    ∷ []

-- "a" was used at 9 and is live one timeout later; "b" had been idle for too long.
sessions_at_timeout :
    ((valid "a" (9 + session_idle_timeout) (after past)).1 ≡ true)
    × ((valid "b" (5 + session_idle_timeout) (after past)).1 ≡ false)
unfolding valid after create
sessions_at_timeout = (refl, refl)

a_not_blank : ◌≢◌ {A = String} "a" ""
a_not_blank e = ground (arith, eq_iff "a" "")

valid-eq-is_live_example : (valid "a" 12 (after past)).1 ≡ is_live "a" 12 past
valid-eq-is_live_example = valid-eq-is_live "a" 12 past a_not_blank
