-- ===== src/Notify/Tests.antt =====
-- Runs of the notification dispatcher and of the SMTP exchange.
use clamav_webui.Prelude.{
  String, ◌≡◌, ◌≢◌, refl, true, false, none, some, List, [], ◌∷◌, ◌++◌, ◌≤◌, arith, length, eq_iff,
}
use clamav_webui.Prelude.Int.{pos}
use clamav_webui.Prelude.Channel.{Subsequence}
use clamav_webui.Notify.{
  Config, SmtpConfig, NtfyConfig, Sender, new, redacted, set_config, dispatch, work, send,
  queue_cap,
}
use clamav_webui.Notify.Secrets.{set_config-redacted, redacted_alike, with_secrets}
use clamav_webui.Notify.Delivery.{Action, alert, work_once, run, wanted, run-Subsequence}
use clamav_webui.Notify.Smtp.{
  send_smtp, refused_credentials, dial, new_client, split_list, IsGuarded,
}
use clamav_webui.Notify.Smtp.Credentials.{send_smtp-IsGuarded}

abbrev mail_config : SmtpConfig
mail_config = record {
  host = "mx";
  port = pos 25;
  username = "u";
  password = "pw";
  from = "f@x";
  to = "a@x, b@x";
  starttls = false;
}

abbrev ntfy_config : NtfyConfig
ntfy_config = record { base_url = ""; topic = "t"; token = "tk" }

abbrev config : Config
config = record {
  enabled = true;
  events = "scan-failure" ∷ [];
  stale_days = pos 0;
  smtp = some mail_config;
  webhook = none;
  ntfy = some ntfy_config;
}

set_config-redacted_example : set_config (redacted (new config).cfg) (new config) ≡ new config
set_config-redacted_example = set_config-redacted (new config)

not_blank_pw : ◌≢◌ {A = String} "pw" ""
not_blank_pw e = ground (arith, eq_iff "pw" "")

not_blank_other : ◌≢◌ {A = String} "other" ""
not_blank_other e = ground (arith, eq_iff "other" "")

redacted_alike_example :
    redacted (with_secrets "pw" "pw" config) ≡ redacted (with_secrets "other" "other" config)
redacted_alike_example =
    redacted_alike config "pw" "other" "pw" "other" not_blank_pw not_blank_other not_blank_pw
      not_blank_other

abbrev silent : Sender
silent c kind message = none

abbrev actions : List Action
actions =
    alert "scan-failure" "one" ∷ alert "other" "two" ∷ work_once ∷ alert "scan-failure" "three" ∷ []

run_takes_listed :
    (run silent (new config) [] actions).1 ≡ record { kind = "scan-failure"; message = "one" } ∷ []
unfolding run new dispatch work send
run_takes_listed = refl

run-Subsequence_example :
    Subsequence
      ((run silent (new config) [] actions).1 ++ (run silent (new config) [] actions).0.queue)
      (wanted (new config) actions)
    × (length (run silent (new config) [] actions).0.queue ≤ queue_cap)
run-Subsequence_example = run-Subsequence silent config actions

-- A server that accepts everything is never told the password in clear.
refuses_clear :
    send_smtp (λ ex c. true) mail_config "k" "m"
    ≡ (refused_credentials, (new_client, true) ∷ (dial "mx" (pos 25), true) ∷ [])
unfolding send_smtp
refuses_clear = refl

split_recipients : split_list "a@x, b@x;" ≡ "a@x" ∷ "b@x" ∷ []
unfolding split_list
split_recipients = refl

send_smtp-IsGuarded_example : IsGuarded "mx" (send_smtp (λ ex c. true) mail_config "k" "m").1
send_smtp-IsGuarded_example = send_smtp-IsGuarded (λ ex c. true) mail_config "k" "m"
