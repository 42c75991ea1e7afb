-- ===== src/Auth/Requests.antt =====
-- internal/api/auth.go, auth_handlers.go and password.go: the guards of the routes and the requests
-- that set, check and change the admin password. Each is one step on the settings, the sessions and
-- the login limiter. Argon2, the random bytes and the clock are parameters.
pub mod Passwords
pub mod Access
mod Tests
use clamav_webui.Prelude.{
  ℕ, String, Bool, true, false, not, ◌&&◌, ◌||◌, Option, none, some, ◌==◌, string_eq, ltb,
  if◌then◌else◌,
}
use clamav_webui.Auth.Limiter.{LoginLimiter, allow, reset}
use clamav_webui.Auth.Sessions.{SessionManager, create, valid, destroy, destroy_all}

-- The columns of the settings row that these requests use.
pub record Settings : Type 0 where
  pub setup_complete : Bool
  pub admin_password_hash : String

unfoldable pub set_admin_password : String → Settings → Settings
set_admin_password hash s = record s { admin_password_hash = hash; setup_complete = true }

pub record AuthState : Type 0 where
  pub settings : Settings
  pub sessions : SessionManager
  pub logins : LoginLimiter

-- `hash_password` draws its salt: `none` is an error. `verify_password` on a hash and a password is
-- `none` for a malformed hash. `rune_count` is the number of runes without surrounding space.
pub record PasswordLib : Type 0 where
  pub hash_password : String → Option String
  pub verify_password : String → String → Option Bool
  pub rune_count : String → ℕ

abbrev pub min_password_len : ℕ
min_password_len = 8

pub data Reply : Type 0 where
  no_content unauthorized forbidden too_many conflict bad_request internal_error : Reply

-- What a request draws and reads of its surroundings: random bytes for the session id and for the CSRF
-- token (`none` where that fails), the time, and whether the settings can be stored.
pub record Draw : Type 0 where
  pub session : Option String
  pub token : Option String
  pub now : ℕ
  pub stored : Bool

abbrev is_drawn : Option String → Option String → Bool
is_drawn (some id) (some token) = true
is_drawn id token = false

-- `startSession`: whether there is no error. A session that was created stays where the token fails.
unfoldable pub start_session : Draw → SessionManager → SessionManager × Bool
start_session d m = ((create d.session d.now m).0, is_drawn d.session d.token)

unfoldable pub end_session : Option String → SessionManager → SessionManager
end_session none m = m
end_session (some id) m = destroy id m

-- `requireAuth`: whether the request goes on
unfoldable pub require_auth : Option String → ℕ → SessionManager → SessionManager × Bool
require_auth none t m = (m, false)
require_auth (some id) t m = valid id t m

pub data Method : Type 0 where
  get_method head_method options_method other_method : Method

abbrev pub is_safe : Method → Bool
is_safe other_method = false
is_safe _ = true

-- the cookie against the header, which is empty where it is missing
abbrev pub tokens_match : Option String → String → Bool
tokens_match none header = false
tokens_match (some cookie) header = not (cookie == "") && not (header == "") && cookie == header

unfoldable pub csrf_guard : Method → Option String → String → Bool
csrf_guard method cookie header = if is_safe method then true else tokens_match cookie header

abbrev pub is_right : Option Bool → Bool
is_right none = false
is_right (some b) = b

begin_session : Draw → AuthState → AuthState × Reply
begin_session d s =
    let (m, started) = start_session d s.sessions in
    (record s { sessions = m }, if started then no_content else internal_error)

-- `SetAdminPassword` on a hash that was made
store_first : Draw → Option String → AuthState → AuthState × Reply
store_first d none s = (s, internal_error)
store_first d (some hash) s =
    if d.stored
    then begin_session d (record s { settings = set_admin_password hash s.settings })
    else (s, internal_error)

-- `handleSetup`; the body is `none` where it cannot be decoded
unfoldable pub handle_setup : PasswordLib → Draw → Option String → AuthState → AuthState × Reply
unfolding store_first begin_session
handle_setup lib d none s = (s, if s.settings.setup_complete then conflict else bad_request)
handle_setup lib d (some password) s =
    if s.settings.setup_complete
    then (s, conflict)
    else if ltb (lib.rune_count password) min_password_len
    then (s, bad_request)
    else store_first d (lib.hash_password password) s

-- `handleLogin` behind the limiter
check_login : PasswordLib → Draw → String → Option String → AuthState → AuthState × Reply
check_login lib d ip none s = (s, if s.settings.setup_complete then bad_request else conflict)
check_login lib d ip (some password) s =
    if not s.settings.setup_complete
    then (s, conflict)
    else if is_right (lib.verify_password s.settings.admin_password_hash password)
    then begin_session d (record s { logins = reset ip s.logins })
    else (s, unauthorized)

unfoldable pub handle_login :
    PasswordLib → Draw → String → Option String → AuthState → AuthState × Reply
unfolding check_login begin_session
handle_login lib d ip body s =
    let (logins', allowed) = allow ip d.now s.logins in
    if allowed
    then check_login lib d ip body (record s { logins = logins' })
    else (record s { logins = logins' }, too_many)

unfoldable pub handle_logout : Option String → AuthState → AuthState × Reply
handle_logout cookie s = (record s { sessions = end_session cookie s.sessions }, no_content)

store_next : Draw → Option String → Option String → AuthState → AuthState × Reply
store_next d cookie none s = (s, internal_error)
store_next d cookie (some hash) s =
    if d.stored
    then (
      record s {
        settings = set_admin_password hash s.settings;
        sessions = end_session cookie (destroy_all s.sessions);
      },
      no_content,
    )
    else (s, internal_error)

-- `handleChangePassword` on the current and the new password
unfoldable pub handle_change_password :
    PasswordLib → Draw → Option String → Option (String × String) → AuthState → AuthState × Reply
unfolding store_next
handle_change_password lib d cookie none s = (s, bad_request)
handle_change_password lib d cookie (some (current, next)) s =
    if not (is_right (lib.verify_password s.settings.admin_password_hash current))
    then (s, unauthorized)
    else if ltb (lib.rune_count next) min_password_len
    then (s, bad_request)
    else store_next d cookie (lib.hash_password next) s
