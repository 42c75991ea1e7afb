-- ===== src/Auth/Limiter/Window.antt =====
-- The bound that the limiter enforces over a whole run.
use clamav_webui.Prelude.{
  Bool-cases, ◌∙◌, ℕ, ◌≤◌, String, ◌≡◌, Bool, true, ◌&&◌, List, [], ◌∷◌, arith, leb, length, keep,
  keep-append, eq_iff, refl, inl, inr, Bool-cases, sym, ap, ◌∙◌, string_eq, length-append,
}
use clamav_webui.Auth.Clock.{after_cut}
use clamav_webui.Auth.Limiter.{new_login_limiter, LoginLimiter, allow, reset}
use clamav_webui.Auth.Limiter.History.{
  reset-Tracks, allow-eq-may_grant, Tracks-new, allow-Tracks, settings-allow, Tracks, History,
  forget, grant, may_grant, record_grant,
}

-- What callers do: an attempt for a key at a time, or a reset after a successful login.
pub data Call : Type 0 where
  attempt : String → ℕ → Call
  succeed : String → Call

-- The limiter and the history of its own answers, after a sequence of calls.
unfoldable pub run : LoginLimiter → History → List Call → LoginLimiter × History
run l log [] = (l, log)
run l log (attempt key t ∷ calls) =
    let (l', granted) = allow key t l in run l' (record_grant granted key t log) calls
run l log (succeed key ∷ calls) = run (reset key l) (forget key log) calls

-- The clock never goes back between two calls.
abbrev pub InOrder : ℕ → List Call → Type 0
InOrder now [] = Unit
InOrder now (attempt key t ∷ calls) = (now ≤ t) × InOrder t calls
InOrder now (succeed key ∷ calls) = InOrder now calls

-- The times of a list that lie within the window that ends at `t`: after t - window, up to t.
abbrev pub within : ℕ → ℕ → ℕ → Bool
within window t ts = after_cut window t ts && leb ts t

abbrev IsBounded : ℕ → ℕ → History → Type 0
IsBounded limit window log =
    (t : ℕ) (key : String) → length (keep (within window t) (log key)) ≤ limit

keep-within-le :
    (w t u : ℕ) (xs : List ℕ)
    → t ≤ u
    → length (keep (within w u) xs) ≤ length (keep (after_cut w t) xs)
keep-within-le w t u [] h = omega arith
keep-within-le w t u (x ∷ xs) h = ground (arith, keep-within-le w t u xs h)

grant-IsBounded :
    (limit window t : ℕ) (key : String) (log : History)
    → IsBounded limit window log
    → may_grant limit window log key t ≡ true
    → IsBounded limit window (grant key t log)
grant-IsBounded limit window t key log h granted u j = ground (
  arith,
  h u j,
  h u key,
  eq_iff key j,
  keep-append (within window u) (log j) (t ∷ []),
  length-append (keep (within window u) (log j)) (t ∷ []),
  length-append (keep (within window u) (log j)) [],
  keep-within-le window t u (log key),
)

forget-IsBounded :
    (limit window : ℕ) (key : String) (log : History)
    → IsBounded limit window log
    → IsBounded limit window (forget key log)
forget-IsBounded limit window key log h u j = ground (arith, h u j)

allow-eq-may_grant_at :
    (limit window now t : ℕ) (key : String) (l : LoginLimiter) (log : History)
    → l.limit ≡ limit
    → l.window ≡ window
    → now ≤ t
    → Tracks now l log
    → (allow key t l).1 ≡ may_grant limit window log key t
allow-eq-may_grant_at limit window now t key l log el ew o h =
    allow-eq-may_grant now t key l log o h
    ∙ ap (λ n. may_grant n l.window log key t) el
    ∙ ap (λ w. may_grant limit w log key t) ew

run-IsBounded :
    (limit window now : ℕ) (l : LoginLimiter) (log : History) (calls : List Call)
    → l.limit ≡ limit
    → l.window ≡ window
    → InOrder now calls
    → Tracks now l log
    → IsBounded limit window log
    → IsBounded limit window (run l log calls).1
unfolding run
run-IsBounded limit window now l log [] el ew o h b = b
run-IsBounded limit window now l log (attempt key t ∷ calls) el ew o h b =
    run-IsBounded limit window t (allow key t l).0 (record_grant (allow key t l).1 key t log) calls
      ((settings-allow key t l).0 ∙ el) ((settings-allow key t l).1 ∙ ew) o.1
      (allow-Tracks now t key l log o.0 h)
      (elim (Bool-cases (allow key t l).1) [
        | inl granted ↦ rw granted (
            grant-IsBounded limit window t key log b
              (sym (allow-eq-may_grant_at limit window now t key l log el ew o.0 h) ∙ granted))
        | inr denied ↦ rw denied b
      ])
run-IsBounded limit window now l log (succeed key ∷ calls) el ew o h b =
    run-IsBounded limit window now (reset key l) (forget key log) calls (unfold reset in el)
      (unfold reset in ew) o (reset-Tracks now key l log h)
      (forget-IsBounded limit window key log b)

-- Where the clock does not go back between calls: whatever the calls, and whenever the sweep happens to run, no window of the configured length holds more
-- than `limit` granted attempts for one key since that key was last reset.
pub granted-within-limit :
    (limit window start : ℕ) (calls : List Call)
    → InOrder start calls
    → (t : ℕ) (key : String)
    → length (keep (within window t) ((run (new_login_limiter limit window) (λ _. []) calls).1 key))
      ≤ limit
granted-within-limit limit window start calls o =
    run-IsBounded limit window start (new_login_limiter limit window) (λ _. []) calls
      (unfold new_login_limiter in refl) (unfold new_login_limiter in refl) o
      (Tracks-new limit window start) (λ t key. omega arith)

-- The answers of a limiter to a sequence of calls
unfoldable pub answers : LoginLimiter → List Call → List Bool
answers l [] = []
answers l (attempt key t ∷ calls) = let (l', granted) = allow key t l in granted ∷ answers l' calls
answers l (succeed key ∷ calls) = answers (reset key l) calls

-- The answers by the rule: an attempt is let through exactly if fewer than `limit` of those of its
-- key were, since its last reset and within the window. No attempt is ever forgotten for its age.
unfoldable pub rule : ℕ → ℕ → History → List Call → List Bool
rule limit window log [] = []
rule limit window log (attempt key t ∷ calls) =
    let granted = may_grant limit window log key t in
    granted ∷ rule limit window (record_grant granted key t log) calls
rule limit window log (succeed key ∷ calls) = rule limit window (forget key log) calls

answers-eq-rule_from :
    (limit window now : ℕ) (l : LoginLimiter) (log : History) (calls : List Call)
    → l.limit ≡ limit
    → l.window ≡ window
    → InOrder now calls
    → Tracks now l log
    → answers l calls ≡ rule limit window log calls
unfolding answers rule
answers-eq-rule_from limit window now l log [] el ew o h = refl
answers-eq-rule_from limit window now l log (attempt key t ∷ calls) el ew o h =
    let same = allow-eq-may_grant_at limit window now t key l log el ew o.0 h in
    let kept = settings-allow key t l in
    let tracks = allow-Tracks now t key l log o.0 h in
    let rest =
      answers-eq-rule_from limit window t (allow key t l).0
        (record_grant (allow key t l).1 key t log) calls (kept.0 ∙ el) (kept.1 ∙ ew) o.1 tracks in
    rw (← same) (ap (λ (xs : List Bool). (allow key t l).1 ∷ xs) rest)
answers-eq-rule_from limit window now l log (succeed key ∷ calls) el ew o h =
    answers-eq-rule_from limit window now (reset key l) (forget key log) calls (unfold reset in el)
      (unfold reset in ew) o (reset-Tracks now key l log h)

-- Whatever the calls of one limiter, in the order of its clock: it answers each as the rule on the full history of its own
-- answers does. The sweep and the trimming of the stored lists never change an answer.
pub answers-eq-rule :
    (limit window now : ℕ) (calls : List Call)
    → InOrder now calls
    → answers (new_login_limiter limit window) calls ≡ rule limit window (λ key. []) calls
answers-eq-rule limit window now calls o =
    answers-eq-rule_from limit window now (new_login_limiter limit window) (λ key. []) calls
      (unfold new_login_limiter in refl) (unfold new_login_limiter in refl) o
      (Tracks-new limit window now)
