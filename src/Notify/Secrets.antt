-- ===== src/Notify/Secrets.antt =====
-- The secrets of the notification configuration across a GET and a PUT.
use clamav_webui.Prelude.{
  Option-cases, sym, ◌∙◌, String, ◌≡◌, ◌≢◌, refl, ap, Bool-cases, inl, inr, ◌==◌, string_eq, Option,
  none, some, arith, eq_iff,
}
use clamav_webui.Notify.{
  Config, keep_secret, redact, Dispatcher, SmtpConfig, NtfyConfig, WebhookConfig, mask, redacted,
  redact_smtp, redact_ntfy, merge_smtp, merge_ntfy, merge_webhook, set_config,
}

keep_secret-redact : (s : String) → keep_secret (redact s) s ≡ s
keep_secret-redact s = elim (Bool-cases (s == "")) [
  | inl blank ↦ rw blank (rw blank refl)
  | inr given ↦ rw given
]

merge-redact_smtp : (c : Option SmtpConfig) → merge_smtp (redact_smtp c) c ≡ c
unfolding merge_smtp redact_smtp
merge-redact_smtp none = refl
merge-redact_smtp (some c) =
    ap (λ p. some (record c { password = p })) (keep_secret-redact c.password)

merge-redact_ntfy : (c : Option NtfyConfig) → merge_ntfy (redact_ntfy c) c ≡ c
unfolding merge_ntfy redact_ntfy
merge-redact_ntfy none = refl
merge-redact_ntfy (some c) = ap (λ t. some (record c { token = t })) (keep_secret-redact c.token)

merge_webhook_self : (c : Option WebhookConfig) → merge_webhook c c ≡ c
unfolding merge_webhook
merge_webhook_self none = refl
merge_webhook_self (some c) = refl

-- Storing the redacted configuration that a GET returned changes nothing, whatever the stored secrets are.
pub set_config-redacted : (d : Dispatcher) → set_config (redacted d.cfg) d ≡ d
unfolding set_config redacted
set_config-redacted d = ground (
  arith,
  merge-redact_smtp d.cfg.smtp,
  merge-redact_ntfy d.cfg.ntfy,
  merge_webhook_self d.cfg.webhook,
)

redact_ne_blank : (s : String) → s ≢ "" → redact s ≡ mask
redact_ne_blank s h = ground (arith, eq_iff s "")

-- A configuration with another password and another token in the channels that it has
abbrev pub with_secrets : String → String → Config → Config
with_secrets p t c = record c {
  smtp = elim c.smtp [ none ↦ none | some s ↦ some (record s { password = p }) ];
  ntfy = elim c.ntfy [ none ↦ none | some n ↦ some (record n { token = t }) ];
}

-- A redacted configuration tells nothing of a secret but whether there is one: two configurations
-- that differ only in secrets that are not blank are redacted to the same, whichever channels they
-- have.
pub redacted_alike :
    (c : Config) (p q t u : String)
    → p ≢ ""
    → q ≢ ""
    → t ≢ ""
    → u ≢ ""
    → redacted (with_secrets p t c) ≡ redacted (with_secrets q u c)
unfolding redacted redact_smtp redact_ntfy
redacted_alike c p q t u hp hq ht hu =
    let same_p : redact p ≡ redact q = redact_ne_blank p hp ∙ sym (redact_ne_blank q hq) in
    let same_t : redact t ≡ redact u = redact_ne_blank t ht ∙ sym (redact_ne_blank u hu) in
    elim (Option-cases c.smtp) [
      | inl e ↦ elim (Option-cases c.ntfy) [
        | inl f ↦ rw e (rw f refl)
        | inr (n, f) ↦ rw e (rw f (rw same_t refl))
      ]
      | inr (s, e) ↦ elim (Option-cases c.ntfy) [
        | inl f ↦ rw e (rw f (rw same_p refl))
        | inr (n, f) ↦ rw e (rw f (rw same_p (rw same_t refl)))
      ]
    ]
