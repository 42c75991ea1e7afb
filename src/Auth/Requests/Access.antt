-- ===== src/Auth/Requests/Access.antt =====
-- What requests can do without the current password.
use clamav_webui.Prelude.{
  String, ◌≡◌, refl, Bool, true, false, Option, none, some, List, [], ◌∷◌, any, arith,
}
use clamav_webui.Auth.Requests.{
  PasswordLib, AuthState, Draw, Reply, handle_setup, handle_login, handle_logout,
  handle_change_password, is_right,
}

pub data Request : Type 0 where
  setup : Option String → Request
  login : String → Option String → Request
  logout : Option String → Request
  change : Option String → Option (String × String) → Request

unfoldable pub answer : PasswordLib → Draw → Request → AuthState → AuthState × Reply
answer lib d (setup body) s = handle_setup lib d body s
answer lib d (login ip body) s = handle_login lib d ip body s
answer lib d (logout cookie) s = handle_logout cookie s
answer lib d (change cookie body) s = handle_change_password lib d cookie body s

-- Any requests, one after the other.
unfoldable pub answer_all : PasswordLib → List (Draw × Request) → AuthState → AuthState
answer_all lib [] s = s
answer_all lib ((d, r) ∷ rs) s = answer_all lib rs (answer lib d r s).0

-- The password that a request offers matches the hash.
abbrev pub is_match : PasswordLib → String → Option String → Bool
is_match lib hash none = false
is_match lib hash (some password) = is_right (lib.verify_password hash password)

-- A request to change the password with the right current password.
abbrev pub changes : PasswordLib → String → Draw × Request → Bool
changes lib hash (d, change cookie (some (current, next))) = is_match lib hash (some current)
changes lib hash (d, r) = false

setup_keeps :
    (lib : PasswordLib) (d : Draw) (body : Option String) (s : AuthState)
    → s.settings.setup_complete ≡ true
    → (handle_setup lib d body s).0 ≡ s
unfolding handle_setup
setup_keeps lib d body s h = ground (arith, h)

login_keeps :
    (lib : PasswordLib) (d : Draw) (ip : String) (body : Option String) (s : AuthState)
    → (handle_login lib d ip body s).0.settings ≡ s.settings
unfolding handle_login
login_keeps lib d ip body s = ground arith

change_keeps :
    (lib : PasswordLib) (d : Draw) (cookie : Option String) (body : Option (String × String))
    (s : AuthState)
    → changes lib s.settings.admin_password_hash (d, change cookie body) ≡ false
    → (handle_change_password lib d cookie body s).0 ≡ s
unfolding handle_change_password
change_keeps lib d cookie body s h = ground (arith, h)

answer_keeps :
    (lib : PasswordLib) (d : Draw) (r : Request) (s : AuthState)
    → s.settings.setup_complete ≡ true
    → changes lib s.settings.admin_password_hash (d, r) ≡ false
    → (answer lib d r s).0.settings ≡ s.settings
unfolding answer handle_logout
answer_keeps lib d (setup body) s h n = rw (setup_keeps lib d body s h) refl
answer_keeps lib d (login ip body) s h n = login_keeps lib d ip body s
answer_keeps lib d (logout cookie) s h n = refl
answer_keeps lib d (change cookie body) s h n = rw (change_keeps lib d cookie body s n) refl

-- Once the setup is complete, no sequence of requests changes the admin password, unless one of them is a
-- change of the password that comes with the current one.
pub settings_are_guarded :
    (lib : PasswordLib) (rs : List (Draw × Request)) (s : AuthState)
    → s.settings.setup_complete ≡ true
    → any (changes lib s.settings.admin_password_hash) rs ≡ false
    → (answer_all lib rs s).settings ≡ s.settings
unfolding answer_all
settings_are_guarded lib [] s h n = refl
settings_are_guarded lib ((d, r) ∷ rs) s h n =
    let u = (answer lib d r s).0 in
    let same = answer_keeps lib d r s h (ground (arith, n)) in
    ground (
      arith,
      same,
      settings_are_guarded lib rs u (ground (arith, same, h)) (ground (arith, same, n)),
    )

-- A login whose password does not match the stored hash opens no session, whatever the limiter says.
pub failed_login_opens_nothing :
    (lib : PasswordLib) (d : Draw) (ip : String) (body : Option String) (s : AuthState)
    → is_match lib s.settings.admin_password_hash body ≡ false
    → (handle_login lib d ip body s).0.sessions ≡ s.sessions
unfolding handle_login
failed_login_opens_nothing lib d ip body s h = ground (arith, h)
