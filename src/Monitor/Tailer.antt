-- ===== src/Monitor/Tailer.antt =====
-- `runOnAccessTailer` of internal/api/onaccess_tailer.go: one round of its loop on what it meets.
pub mod Waits
use clamav_webui.Prelude.{
  ℕ, ◌*◌, Bool, true, false, not, ◌&&◌, ◌||◌, Option, none, some, List, [], ◌∷◌, ◌++◌, ltb,
  if◌then◌else◌,
}
use clamav_webui.Auth.Clock.{second}

abbrev pub retry_pause : ℕ
retry_pause = 5 * second

abbrev pub status_pause : ℕ
status_pause = 30 * second

abbrev max_pause : ℕ
max_pause = 300 * second

-- What a round meets: whether the server's context is done when it begins, the status of on-access
-- scanning (`none` for an error), whether a change of the settings interrupts the follow, whether
-- the context is done behind it, how long it ran, and whether a sleep ends before the context does.
pub record Round : Type 0 where
  pub done_before : Bool
  pub enabled : Option Bool
  pub kicked : Bool
  pub done_after : Bool
  pub elapsed : ℕ
  pub woke : Bool

pub data Action : Type 0 where
  follow : Action
  sleep : ℕ → Action

abbrev pub is_enabled : Option Bool → Bool
is_enabled none = false
is_enabled (some b) = b

-- `Err` of a context that `context.WithCancel` made: of its parent, of a cancel so far.
abbrev context_err : Bool → Bool → Bool
context_err parent_done canceled = parent_done || canceled

-- The part behind the follow, whose `cancel()` comes before the test of `followCtx.Err()`. The
-- result is the pause for the next round, or `none` where the loop returns.
behind_follow : ℕ → Round → List Action × Option ℕ
behind_follow backoff r =
    let canceled = r.kicked || true in
    if context_err r.done_after canceled && not r.done_after
    then (follow ∷ [], some backoff)
    else if ltb r.elapsed (2 * second)
    then (
      follow ∷ sleep backoff ∷ [],
      if r.woke then some (if ltb backoff max_pause then backoff * 2 else backoff) else none,
    )
    else (follow ∷ sleep retry_pause ∷ [], if r.woke then some retry_pause else none)

unfoldable pub tail_round : ℕ → Round → List Action × Option ℕ
unfolding behind_follow
tail_round backoff r =
    if r.done_before
    then ([], none)
    else if not (is_enabled r.enabled)
    then (sleep status_pause ∷ [], if r.woke then some backoff else none)
    else behind_follow backoff r

-- The actions of the loop, round by round.
tail_from : Option ℕ → List Round → List Action
tail_from none rs = []
tail_from (some backoff) [] = []
tail_from (some backoff) (r ∷ rs) =
    let (actions, next) = tail_round backoff r in actions ++ tail_from next rs

unfoldable pub run_tailer : List Round → List Action
unfolding tail_from
run_tailer rs = tail_from (some retry_pause) rs
