-- ===== src/Auth/Requests/Passwords.antt =====
-- Which password opens a session after a setup or a change, and which sessions a change ends.
use clamav_webui.Prelude.{ℕ, String, ◌≡◌, ◌≢◌, true, false, Option, some, string_eq, eq_iff, arith}
use clamav_webui.Auth.Sessions.{SessionManager, create, valid, destroy, destroy_all}
use clamav_webui.Auth.Limiter.{allow}
use clamav_webui.Auth.Requests.{
  PasswordLib, AuthState, Draw, no_content, handle_setup, handle_login, handle_change_password,
  start_session, set_admin_password, end_session,
}

start_session-valid :
    (d : Draw) (id token : String) (m : SessionManager)
    → d.session ≡ some id
    → d.token ≡ some token
    → id ≢ ""
    → ((start_session d m).1 ≡ true) × ((valid id d.now (start_session d m).0).1 ≡ true)
unfolding start_session create valid
start_session-valid d id token m e e' n = ground (arith, e, e', n, eq_iff id "", eq_iff id id)

-- A login at an allowed time, against a hash that the password matches.
abbrev pub LogsIn : PasswordLib → Draw → String → String → String → AuthState → Type 0
LogsIn lib d ip id password s =
    let (u, reply) = handle_login lib d ip (some password) s in
    (reply ≡ no_content) × ((valid id d.now u.sessions).1 ≡ true)

login_with_match :
    (lib : PasswordLib) (d : Draw) (ip id token password : String) (s : AuthState)
    → s.settings.setup_complete ≡ true
    → lib.verify_password s.settings.admin_password_hash password ≡ some true
    → (allow ip d.now s.logins).1 ≡ true
    → d.session ≡ some id
    → d.token ≡ some token
    → id ≢ ""
    → LogsIn lib d ip id password s
unfolding handle_login
login_with_match lib d ip id token password s e v a es et n =
    let started = start_session-valid d id token s.sessions es et n in
    ground (arith, e, v, a, started)

setup_stores :
    (lib : PasswordLib) (d : Draw) (password hash : String) (s : AuthState)
    → lib.hash_password password ≡ some hash
    → (handle_setup lib d (some password) s).1 ≡ no_content
    → let u = (handle_setup lib d (some password) s).0 in
      (u.settings.setup_complete ≡ true) × (u.settings.admin_password_hash ≡ hash)
unfolding handle_setup set_admin_password
setup_stores lib d password hash s h r = (ground (arith, h, r), ground (arith, h, r))

-- After a setup that succeeded, a login with the same password from an address that the limiter allows opens
-- a session that is valid: on any state before the setup, if what was hashed verifies and a session
-- id and a token can be drawn.
pub setup_then_login :
    (lib : PasswordLib) (d d' : Draw) (ip id token password hash : String) (s : AuthState)
    → lib.hash_password password ≡ some hash
    → lib.verify_password hash password ≡ some true
    → (handle_setup lib d (some password) s).1 ≡ no_content
    → (allow ip d'.now (handle_setup lib d (some password) s).0.logins).1 ≡ true
    → d'.session ≡ some id
    → d'.token ≡ some token
    → id ≢ ""
    → LogsIn lib d' ip id password (handle_setup lib d (some password) s).0
setup_then_login lib d d' ip id token password hash s h v r a es et n =
    let u = (handle_setup lib d (some password) s).0 in
    let kept = setup_stores lib d password hash s h r in
    login_with_match lib d' ip id token password u kept.0 (rw kept.1 v) a es et n

-- A change of the password is accepted only with the current password, and then no session is valid any
-- more, whatever its id, and the settings hold the hash of the new password.
pub change_ends_sessions :
    (lib : PasswordLib) (d : Draw) (cookie : Option String) (current next : String) (s : AuthState)
    (id : String) (t : ℕ)
    → let (u, reply) = handle_change_password lib d cookie (some (current, next)) s in
      reply ≡ no_content
      → (lib.verify_password s.settings.admin_password_hash current ≡ some true)
        × (lib.hash_password next ≡ some u.settings.admin_password_hash)
        × ((valid id t u.sessions).1 ≡ false)
unfolding handle_change_password end_session destroy destroy_all valid set_admin_password
change_ends_sessions lib d cookie current next s id t r = ground (arith, r)
