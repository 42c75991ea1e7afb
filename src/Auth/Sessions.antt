-- ===== src/Auth/Sessions.antt =====
-- internal/auth/session.go. Each method is one critical section, so a run is a sequence of calls.
pub mod Liveness
mod Tests
use clamav_webui.Prelude.{
  ℕ, ◌*◌, String, Bool, true, false, Option, none, some, ◌==◌, string_eq, ltb, if◌then◌else◌,
}
use clamav_webui.Prelude.Map
use clamav_webui.Prelude.Map.{Map, insert, delete}
use clamav_webui.Auth.Clock.{second, since}

abbrev pub session_idle_timeout : ℕ
session_idle_timeout = 12 * 3600 * second

pub record SessionEntry : Type 0 where
  pub created : ℕ
  pub last_seen : ℕ

abbrev pub SessionManager : Type 0
SessionManager = Map String SessionEntry

abbrev pub new_session_manager : SessionManager
new_session_manager = Map.empty

-- `drawn` is the id encoded from the random bytes, `none` where reading them fails. The result is
-- the id, or `none` for the error.
unfoldable pub create : Option String → ℕ → SessionManager → SessionManager × Option String
create none t m = (m, none)
create (some id) t m = (insert id (record { created = t; last_seen = t }) m, some id)

-- `Valid` behind the test for an empty id, on `m.sessions[id]`
check_entry : Option SessionEntry → String → ℕ → SessionManager → SessionManager × Bool
check_entry none id t m = (m, false)
check_entry (some e) id t m =
    if ltb session_idle_timeout (since t e.last_seen)
    then (delete id m, false)
    else (insert id (record e { last_seen = t }) m, true)

unfoldable pub valid : String → ℕ → SessionManager → SessionManager × Bool
unfolding check_entry
valid id t m = if id == "" then (m, false) else check_entry (m id) id t m

unfoldable pub destroy : String → SessionManager → SessionManager
destroy id m = delete id m

unfoldable pub destroy_all : SessionManager → SessionManager
destroy_all m = Map.empty
