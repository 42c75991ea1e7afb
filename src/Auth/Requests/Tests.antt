-- ===== src/Auth/Requests/Tests.antt =====
-- Runs of the password requests.
use Prim.Native.String
use clamav_webui.Prelude.{
  String, ◌≡◌, ◌≢◌, refl, true, false, none, some, [], ◌∷◌, ◌==◌, string_eq, arith, eq_iff,
}
use clamav_webui.Auth.Sessions.{new_session_manager, valid, create}
use clamav_webui.Auth.Limiter.{new_login_limiter, allow, admit, collect}
use clamav_webui.Auth.Requests.{
  PasswordLib, AuthState, Draw, handle_setup, handle_change_password, start_session,
  set_admin_password,
}
use clamav_webui.Auth.Requests.Passwords.{LogsIn, setup_then_login, change_ends_sessions}
use clamav_webui.Auth.Requests.Access.{setup, change, answer_all, settings_are_guarded}

-- A hash that only marks the password.
abbrev lib : PasswordLib
lib = record {
  hash_password = λ p. some (String.◌++◌ "#" p);
  verify_password = λ h p. some (h == String.◌++◌ "#" p);
  rune_count = λ p. 8;
}

abbrev blank : AuthState
blank = record {
  settings = record { setup_complete = false; admin_password_hash = "" };
  sessions = new_session_manager;
  logins = new_login_limiter 10 60;
}

abbrev ready : AuthState
ready = record blank {
  settings = record { setup_complete = true; admin_password_hash = "#secret" };
}

abbrev draw : Draw
draw = record { session = some "id"; token = some "tok"; now = 100; stored = true }

id_not_blank : ◌≢◌ {A = String} "id" ""
id_not_blank e = ground (arith, eq_iff "id" "")

setup_then_login_example :
    LogsIn lib draw "ip" "id" "secret" (handle_setup lib draw (some "secret") blank).0
unfolding handle_setup start_session create set_admin_password allow admit collect new_login_limiter
setup_then_login_example =
    setup_then_login lib draw draw "ip" "id" "tok" "secret" "#secret" blank refl refl refl refl refl
      refl id_not_blank

change_ends_sessions_example :
    let u = (handle_change_password lib draw (some "id") (some ("secret", "next")) ready).0 in
    (lib.verify_password "#secret" "secret" ≡ some true)
    × (some "#next" ≡ some u.settings.admin_password_hash)
    × ((valid "id" 101 u.sessions).1 ≡ false)
unfolding handle_change_password
change_ends_sessions_example =
    change_ends_sessions lib draw (some "id") "secret" "next" ready "id" 101 refl

settings_are_guarded_example :
    (answer_all lib
      ((draw, setup (some "mine")) ∷ (draw, change none (some ("guess", "mine"))) ∷ [])
      ready).settings
    ≡ ready.settings
settings_are_guarded_example =
    settings_are_guarded lib
      ((draw, setup (some "mine")) ∷ (draw, change none (some ("guess", "mine"))) ∷ []) ready refl
      refl
