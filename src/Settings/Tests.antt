-- ===== src/Settings/Tests.antt =====
-- Requests to change the settings of clamd.
use clamav_webui.Prelude.{
  ◌≡◌, refl, true, false, none, some, [], ◌∷◌, ◌==◌, string_eq, if◌then◌else◌,
}
use clamav_webui.Clam.System.{System}
use clamav_webui.Clam.Services.{service_action}
use clamav_webui.Clam.Conf.{ConfLib, write_conf, clean_all, clean_values}
use clamav_webui.Settings.{
  ConfFiles, Answers, ConfigUpdate, conf_keys_for, file_of, put_file, bad_request,
  handle_put_config,
}
use clamav_webui.Settings.Puts.{Outcome, handle_put_config-Outcome}

abbrev lib : ConfLib
lib = record {
  lines = λ s. s ∷ [];
  body = λ xs. elim xs [ [] ↦ "" | x ∷ rest ↦ x ];
  strip = λ s. s;
  trim = λ s. s;
  first_field = λ s. if s == "LogTime no" then "LogTime" else s;
  other_fields = λ s. if s == "LogTime no" then some "no" else none;
  is_comment = λ s. false;
  is_absolute = λ s. true;
  is_int = λ s. true;
  is_size = λ s. true;
  is_true = λ s. s == "yes";
}

abbrev fine : System
fine t c = true

abbrev answers : Answers
answers = record { readable = true; backed_up = true; replaced = true; readable_after = true }

abbrev before : ConfFiles
before = record {
  clamd = record { current = "LogTime no"; backup = none };
  freshclam = record { current = ""; backup = none };
  trace = [];
  published = [];
}

abbrev log_time : ConfigUpdate
log_time = record { updates = ("LogTime", "yes" ∷ []) ∷ []; restart = true }

refused :
    (handle_put_config lib fine answers "clamd"
      (record { updates = ("User", "root" ∷ []) ∷ []; restart = true })
      before).1
    ≡ bad_request
unfolding handle_put_config conf_keys_for file_of put_file write_conf clean_all
refused = refl

restarted_on :
    (handle_put_config lib fine answers "clamd" log_time before).0.published ≡ "clamav-daemon" ∷ []
unfolding handle_put_config conf_keys_for file_of put_file write_conf clean_all clean_values
    service_action
restarted_on = refl

handle_put_config-Outcome_example :
    Outcome lib fine answers "clamd" log_time before
      (handle_put_config lib fine answers "clamd" log_time before)
handle_put_config-Outcome_example =
    handle_put_config-Outcome lib fine answers "clamd" log_time before
