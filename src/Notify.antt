-- ===== src/Notify.antt =====
-- internal/notify/notify.go: the configuration with its secrets, the queue and the choice of
-- channels. The SMTP session is in `Notify.Smtp`. A pointer to a sub-configuration is an `Option`;
-- `Redacted` and `SetConfig` never write through a pointer that the stored configuration shares.
pub mod Smtp
pub mod Secrets
pub mod Delivery
mod Tests
use Prim.Native.String
use clamav_webui.Prelude.{
  ◌++◌, zero, suc, ℕ, String, Bool, true, false, not, ◌&&◌, ◌||◌, Option, none, some, List, [], ◌∷◌,
  ◌==◌, string_eq, contains, if◌then◌else◌,
}
use clamav_webui.Prelude.Int.{ℤ, pos, negsuc}
use clamav_webui.Prelude.Channel.{offer}

pub record SmtpConfig : Type 0 where
  pub host : String
  pub port : ℤ
  pub username : String
  pub password : String
  pub from : String
  pub to : String
  pub starttls : Bool

pub record WebhookConfig : Type 0 where
  pub url : String

pub record NtfyConfig : Type 0 where
  pub base_url : String
  pub topic : String
  pub token : String

pub record Config : Type 0 where
  pub enabled : Bool
  pub events : List String
  pub stale_days : ℤ
  pub smtp : Option SmtpConfig
  pub webhook : Option WebhookConfig
  pub ntfy : Option NtfyConfig

abbrev pub mask : String
mask = "********"

abbrev pub redact : String → String
redact secret = if secret == "" then secret else mask

redact_smtp : Option SmtpConfig → Option SmtpConfig
redact_smtp none = none
redact_smtp (some c) = some (record c { password = redact c.password })

redact_ntfy : Option NtfyConfig → Option NtfyConfig
redact_ntfy none = none
redact_ntfy (some c) = some (record c { token = redact c.token })

unfoldable pub redacted : Config → Config
unfolding redact_smtp redact_ntfy
redacted c = record c { smtp = redact_smtp c.smtp; ntfy = redact_ntfy c.ntfy }

-- A secret that was left blank or that is the mask keeps what was stored before.
abbrev pub keep_secret : String → String → String
keep_secret next stored = if next == "" || next == mask then stored else next

merge_smtp : Option SmtpConfig → Option SmtpConfig → Option SmtpConfig
merge_smtp none stored = stored
merge_smtp (some next) none = some next
merge_smtp (some next) (some stored) =
    some (record next { password = keep_secret next.password stored.password })

merge_webhook : Option WebhookConfig → Option WebhookConfig → Option WebhookConfig
merge_webhook none stored = stored
merge_webhook (some next) stored = some next

merge_ntfy : Option NtfyConfig → Option NtfyConfig → Option NtfyConfig
merge_ntfy none stored = stored
merge_ntfy (some next) none = some next
merge_ntfy (some next) (some stored) =
    some (record next { token = keep_secret next.token stored.token })

pub record Queued : Type 0 where
  pub kind : String
  pub message : String

pub record Dispatcher : Type 0 where
  pub cfg : Config
  pub queue : List Queued

unfoldable pub new : Config → Dispatcher
new cfg = record { cfg = cfg; queue = [] }

unfoldable pub set_config : Config → Dispatcher → Dispatcher
unfolding merge_smtp merge_webhook merge_ntfy
set_config next d = record d {
  cfg = record next {
    smtp = merge_smtp next.smtp d.cfg.smtp;
    webhook = merge_webhook next.webhook d.cfg.webhook;
    ntfy = merge_ntfy next.ntfy d.cfg.ntfy;
  };
}

-- n if n >= 1, else 7
abbrev at_least_one : ℤ → ℕ
at_least_one (pos zero) = 7
at_least_one (pos (suc n)) = suc n
at_least_one (negsuc n) = 7

unfoldable pub stale_days : Dispatcher → ℕ
stale_days d = at_least_one d.cfg.stale_days

abbrev pub queue_cap : ℕ
queue_cap = 256

-- len(cfg.Events) > 0 && !contains(cfg.Events, kind)
abbrev pub filtered_out : List String → String → Bool
filtered_out [] kind = false
filtered_out (e ∷ events) kind = not (contains (e ∷ events) kind)

unfoldable pub dispatch : String → String → Dispatcher → Dispatcher
dispatch kind message d =
    if not d.cfg.enabled then d else if filtered_out d.cfg.events kind then d else record d {
      queue = (offer queue_cap (record { kind = kind; message = message }) d.queue).0;
    }

-- One configured way to deliver, with what its sender is called with.
pub data Channel : Type 0 where
  smtp_channel : SmtpConfig → Channel
  webhook_channel : String → Channel
  ntfy_channel : NtfyConfig → Channel

-- The calls that reach the network: for each the text of its error, or `none`.
abbrev pub Sender : Type 0
Sender = Channel → String → String → Option String

-- errs = append(errs, name+": "+err.Error())
abbrev pub report : String → Option String → List String
report name none = []
report name (some text) = String.◌++◌ name text ∷ []

send_to_smtp : Sender → Option SmtpConfig → String → String → List String
send_to_smtp deliver none kind message = []
send_to_smtp deliver (some c) kind message =
    if c.host == "" then [] else report "smtp: " (deliver (smtp_channel c) kind message)

send_to_webhook : Sender → Option WebhookConfig → String → String → List String
send_to_webhook deliver none kind message = []
send_to_webhook deliver (some c) kind message =
    if c.url == "" then [] else report "webhook: " (deliver (webhook_channel c.url) kind message)

send_to_ntfy : Sender → Option NtfyConfig → String → String → List String
send_to_ntfy deliver none kind message = []
send_to_ntfy deliver (some c) kind message =
    if c.topic == "" then [] else report "ntfy: " (deliver (ntfy_channel c) kind message)

-- The errors that `send` joins by "; "; none of them is success. A channel that fails does not keep
-- the later ones from being tried.
unfoldable pub send : Sender → Config → String → String → List String
unfolding send_to_smtp send_to_webhook send_to_ntfy
send deliver c kind message =
    send_to_smtp deliver c.smtp kind message
    ++ (send_to_webhook deliver c.webhook kind message ++ send_to_ntfy deliver c.ntfy kind message)

has_smtp : Option SmtpConfig → Bool
has_smtp none = false
has_smtp (some c) = not (c.host == "")

has_webhook : Option WebhookConfig → Bool
has_webhook none = false
has_webhook (some c) = not (c.url == "")

has_ntfy : Option NtfyConfig → Bool
has_ntfy none = false
has_ntfy (some c) = not (c.topic == "")

unfoldable pub has_channel : Config → Bool
unfolding has_smtp has_webhook has_ntfy
has_channel c = has_smtp c.smtp || has_webhook c.webhook || has_ntfy c.ntfy

abbrev pub test_message : String
test_message = "ClamAV WebUI test notification — if you see this, alerts are working."

unfoldable pub test : Sender → Dispatcher → List String
test deliver d =
    if not (has_channel d.cfg)
    then "no notification channel is configured" ∷ []
    else send deliver d.cfg "test" test_message

work_on : Sender → Dispatcher → List Queued → Dispatcher × List String
work_on deliver d [] = (d, [])
work_on deliver d (q ∷ rest) = (record d { queue = rest }, send deliver d.cfg q.kind q.message)

-- one round of `worker`: takes the oldest message and sends it by the configuration of that moment
unfoldable pub work : Sender → Dispatcher → Dispatcher × List String
unfolding work_on
work deliver d = work_on deliver d d.queue
