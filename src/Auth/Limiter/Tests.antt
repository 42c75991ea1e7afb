-- ===== src/Auth/Limiter/Tests.antt =====
-- Runs of the login limiter.
use clamav_webui.Prelude.{◌≤◌, ◌≡◌, refl, List, [], ◌∷◌, length, keep, arith}
use clamav_webui.Auth.Limiter.{new_login_limiter, collect, admit, allow, reset}
use clamav_webui.Auth.Limiter.Window.{
  Call, attempt, run, within, granted-within-limit, answers, rule, answers-eq-rule,
}

abbrev burst : List Call
burst = attempt "ip" 100 ∷ attempt "ip" 101 ∷ attempt "ip" 102 ∷ attempt "ip" 111 ∷ []

-- Two attempts a window of ten: the third is refused, the fourth is let through again.
burst_history : (run (new_login_limiter 2 10) (λ _. []) burst).1 "ip" ≡ 100 ∷ 101 ∷ 111 ∷ []
unfolding run allow reset admit collect new_login_limiter
burst_history = refl

answers-eq-rule_example : answers (new_login_limiter 2 10) burst ≡ rule 2 10 (λ _. []) burst
answers-eq-rule_example = answers-eq-rule 2 10 100 burst (omega arith)

granted-within-limit_example :
    length (keep (within 10 105) ((run (new_login_limiter 2 10) (λ _. []) burst).1 "ip")) ≤ 2
granted-within-limit_example = granted-within-limit 2 10 100 burst (omega arith) 105 "ip"
