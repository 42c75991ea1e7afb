-- ===== src/Clam/OnAccess/Tests.antt =====
-- Changes of on-access scanning, of which the restart of the daemon fails in one.
use Prim.Native.String
use clamav_webui.Prelude.{
  List, String, ◌≡◌, refl, true, false, none, some, [], ◌∷◌, ◌==◌, string_eq, if◌then◌else◌,
}
use clamav_webui.Clam.System.{System, systemctl}
use clamav_webui.Clam.Services.{service_action}
use clamav_webui.Clam.Conf.{
  ConfLib, clamd_keys, write_conf, clean_all, clean_values, new_lines, rewrite, append_missing,
}
use clamav_webui.Clam.OnAccess.{
  OnAccessConfig, Answers, ClamState, apply_on_access, restore_conf_backup, restart_failed,
}
use clamav_webui.Clam.OnAccess.Rollback.{IsSettled, apply_on_access-IsSettled}

abbrev with_breaks : List String → String
with_breaks [] = ""
with_breaks (line ∷ lines) = String.◌++◌ line (String.◌++◌ "\n" (with_breaks lines))

abbrev lib : ConfLib
lib = record {
  lines = λ s. s ∷ [];
  body = with_breaks;
  strip = λ s. s;
  trim = λ s. s;
  first_field = λ s. if s == "User clamav" then "User" else s;
  other_fields =
      λ s. if s == "LogTime yes" then some "yes" else if s == "LogTime no" then some "no" else none;
  is_comment = λ s. false;
  is_absolute = λ s. true;
  is_int = λ s. true;
  is_size = λ s. true;
  is_true = λ s. s == "yes";
}

abbrev fine : System
fine t c = true

abbrev no_restart : System
no_restart t (systemctl verb unit) = if verb == "restart" then false else true
no_restart t c = true

abbrev answers : Answers
answers = record {
  daemon = some true;
  readable = true;
  backed_up = true;
  replaced = true;
  restored = true;
}

abbrev watch_home : OnAccessConfig
watch_home = record {
  enabled = true;
  paths = "/home" ∷ [];
  exclude_paths = [];
  exclude_unames = [];
  prevention = false;
}

abbrev before : ClamState
before = record { clamd = record { current = "User clamav"; backup = none }; trace = [] }

watched :
    (apply_on_access lib clamd_keys fine answers watch_home before).0.clamd.current
    ≡ "User clamav\nOnAccessIncludePath /home\nOnAccessExcludeUname clamav\nOnAccessPrevention no\n"
unfolding apply_on_access service_action restore_conf_backup write_conf clean_all clean_values
    new_lines rewrite append_missing
watched = refl

rolled_back :
    let (s, failure) = apply_on_access lib clamd_keys no_restart answers watch_home before in
    (s.clamd ≡ record before.clamd { backup = none }) × (failure ≡ some restart_failed)
unfolding apply_on_access service_action restore_conf_backup write_conf clean_all clean_values
    new_lines rewrite append_missing
rolled_back = (refl, refl)

apply_on_access-IsSettled_example :
    IsSettled lib clamd_keys watch_home "User clamav"
      (apply_on_access lib clamd_keys no_restart answers watch_home before).0
apply_on_access-IsSettled_example =
    apply_on_access-IsSettled lib clamd_keys no_restart answers watch_home before refl
