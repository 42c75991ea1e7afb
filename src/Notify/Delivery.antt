-- ===== src/Notify/Delivery.antt =====
-- What the queue hands to the worker.
use clamav_webui.Prelude.{
  eq_iff, ◌↔◌, ◌≢◌, append_assoc, sym, inr, append-nil, inl, refl, Bool-cases, arith, ◌≡◌, ◌≤◌,
  String, Bool, not, ◌&&◌, List, [], ◌∷◌, ◌++◌, length, string_eq, if◌then◌else◌,
}
use clamav_webui.Prelude.Channel.{nil, length-offer, Subsequence-offer, Subsequence}
use clamav_webui.Notify.{
  Option, send_to_webhook, send_to_smtp, send_to_ntfy, offer, ntfy_channel, NtfyConfig,
  webhook_channel, WebhookConfig, none, smtp_channel, some, work_on, send, new, SmtpConfig, Config,
  Dispatcher, Queued, Sender, queue_cap, filtered_out, dispatch, work, set_config,
}

pub data Action : Type 0 where
  alert : String → String → Action
  work_once : Action
  configure : Config → Action

abbrev pub head_of : List Queued → List Queued
head_of [] = []
head_of (q ∷ rest) = q ∷ []

-- The dispatcher, and the messages that the worker has taken, oldest first.
unfoldable pub run : Sender → Dispatcher → List Queued → List Action → Dispatcher × List Queued
run deliver d taken [] = (d, taken)
run deliver d taken (alert kind message ∷ actions) =
    run deliver (dispatch kind message d) taken actions
run deliver d taken (work_once ∷ actions) =
    run deliver (work deliver d).0 (taken ++ head_of d.queue) actions
run deliver d taken (configure next ∷ actions) = run deliver (set_config next d) taken actions

abbrev pub wants : Config → String → Bool
wants cfg kind = cfg.enabled && not (filtered_out cfg.events kind)

-- The alerts that the configuration of their moment asks for, oldest first.
unfoldable pub wanted : Dispatcher → List Action → List Queued
wanted d [] = []
wanted d (alert kind message ∷ actions) =
    (if wants d.cfg kind then record { kind = kind; message = message } ∷ [] else [])
    ++ wanted d actions
wanted d (work_once ∷ actions) = wanted d actions
wanted d (configure next ∷ actions) = wanted (set_config next d) actions

wanted-cfg :
    (d e : Dispatcher) (actions : List Action) → d.cfg ≡ e.cfg → wanted d actions ≡ wanted e actions
unfolding wanted set_config
wanted-cfg d e [] h = refl
wanted-cfg d e (alert kind message ∷ actions) h = ground (arith, wanted-cfg d e actions h)
wanted-cfg d e (work_once ∷ actions) h = wanted-cfg d e actions h
wanted-cfg d e (configure next ∷ actions) h =
    wanted-cfg (set_config next d) (set_config next e) actions (ground (arith, h))

cfg-dispatch : (kind message : String) (d : Dispatcher) → (dispatch kind message d).cfg ≡ d.cfg
unfolding dispatch
cfg-dispatch kind message d = ground arith

cfg-work : (deliver : Sender) (d : Dispatcher) → (work deliver d).0.cfg ≡ d.cfg
unfolding work
cfg-work deliver d = ground arith

-- Everything that was taken or waits was sent, in that order, and the queue is within its bound.
record Flows (taken : List Queued) (d : Dispatcher) (sent : List Queued) : Type 0 where
  arrives : Subsequence (taken ++ d.queue) sent
  fits : length d.queue ≤ queue_cap

dispatch_lem :
    (kind message : String) (d : Dispatcher)
    → dispatch kind message d ≡ (
        if wants d.cfg kind
        then record d {
          queue = (offer queue_cap (record { kind = kind; message = message }) d.queue).0;
        }
        else d)
unfolding dispatch
dispatch_lem kind message d = ground arith

dispatch-Flows :
    (kind message : String) (taken : List Queued) (d : Dispatcher) (sent : List Queued)
    → Flows taken d sent
    → Flows taken
        (dispatch kind message d)
        (sent ++ (if wants d.cfg kind then record { kind = kind; message = message } ∷ [] else []))
dispatch-Flows kind message taken d sent h =
    let q : Queued = record { kind = kind; message = message } in
    rw dispatch_lem (elim (Bool-cases (wants d.cfg kind)) [
      | inl on ↦ rw on (record {
        arrives = Subsequence-offer queue_cap q taken d.queue sent h.arrives;
        fits = length-offer queue_cap q d.queue h.fits;
      })
      | inr off ↦ rw off (rw append-nil h)
    ])

work_on-Flows :
    (deliver : Sender) (taken : List Queued) (d : Dispatcher) (queue sent : List Queued)
    → d.queue ≡ queue
    → Flows taken (record d { queue = queue }) sent
    → Flows (taken ++ head_of queue) (work_on deliver d queue).0 sent
unfolding work_on
work_on-Flows deliver taken d [] sent e h = record {
  arrives = rw (append-nil taken) (rw e h.arrives);
  fits = rw e h.fits;
}
work_on-Flows deliver taken d (q ∷ rest) sent e h = record {
  arrives = rw append_assoc h.arrives;
  fits = ground (arith, h.fits);
}

run-Flows :
    (deliver : Sender) (d : Dispatcher) (taken sent : List Queued) (actions : List Action)
    → Flows taken d sent
    → Flows
        (run deliver d taken actions).1
        (run deliver d taken actions).0
        (sent ++ wanted d actions)
unfolding run wanted
run-Flows deliver d taken sent [] h = rw append-nil h
run-Flows deliver d taken sent (alert kind message ∷ actions) h =
    rw (wanted-cfg d (dispatch kind message d) actions (sym (cfg-dispatch kind message d))) (
      rw (← append_assoc) (
        run-Flows deliver (dispatch kind message d) taken _ actions
          (dispatch-Flows kind message taken d sent h)))
run-Flows deliver d taken sent (work_once ∷ actions) h =
    rw (wanted-cfg d (work deliver d).0 actions (sym (cfg-work deliver d))) (
      run-Flows deliver (work deliver d).0 (taken ++ head_of d.queue) sent actions
        (unfold work in work_on-Flows deliver taken d d.queue sent refl h))
run-Flows deliver d taken sent (configure next ∷ actions) h =
    run-Flows deliver (set_config next d) taken sent actions
      (record { arrives = unfold set_config in h.arrives; fits = unfold set_config in h.fits })

-- Through any sequence of alerts, deliveries and changes of the configuration, what the worker
-- takes and what still waits are, in this order, a subsequence of the alerts that the configuration
-- of their moment asked for, and at most 256 alerts wait.
pub run-Subsequence :
    (deliver : Sender) (cfg : Config) (actions : List Action)
    → Subsequence
        ((run deliver (new cfg) [] actions).1 ++ (run deliver (new cfg) [] actions).0.queue)
        (wanted (new cfg) actions)
      × (length (run deliver (new cfg) [] actions).0.queue ≤ queue_cap)
run-Subsequence deliver cfg actions =
    let h =
      run-Flows deliver (new cfg) [] [] actions
        (record { arrives = unfold new in nil; fits = unfold new in omega arith }) in
    (h.arrives, h.fits)

module _ (deliver : Sender) (kind message : String) where
  -- Each channel that is configured delivers.
  abbrev pub Delivers : Config → Type 0
  Delivers cfg =
      ((c : SmtpConfig)
        → cfg.smtp ≡ some c
        → c.host ≢ ""
        → deliver (smtp_channel c) kind message ≡ none)
      × ((c : WebhookConfig)
          → cfg.webhook ≡ some c
          → c.url ≢ ""
          → deliver (webhook_channel c.url) kind message ≡ none)
      × ((c : NtfyConfig)
          → cfg.ntfy ≡ some c
          → c.topic ≢ ""
          → deliver (ntfy_channel c) kind message ≡ none)

  smtp-eq-nil :
      (o : Option SmtpConfig)
      → (send_to_smtp deliver o kind message ≡ []) ↔ (
          (c : SmtpConfig)
          → o ≡ some c
          → c.host ≢ ""
          → deliver (smtp_channel c) kind message ≡ none)
  unfolding send_to_smtp
  smtp-eq-nil none = (λ _ c e. cc, λ _. refl)
  smtp-eq-nil (some a) = (
    λ h c e n. ground (arith, eq_iff a.host "", eq_iff c.host ""),
    λ h. ground (arith, eq_iff a.host "", h a refl),
  )

  webhook-eq-nil :
      (o : Option WebhookConfig)
      → (send_to_webhook deliver o kind message ≡ []) ↔ (
          (c : WebhookConfig)
          → o ≡ some c
          → c.url ≢ ""
          → deliver (webhook_channel c.url) kind message ≡ none)
  unfolding send_to_webhook
  webhook-eq-nil none = (λ _ c e. cc, λ _. refl)
  webhook-eq-nil (some a) = (
    λ h c e n. ground (arith, eq_iff a.url "", eq_iff c.url ""),
    λ h. ground (arith, eq_iff a.url "", h a refl),
  )

  ntfy-eq-nil :
      (o : Option NtfyConfig)
      → (send_to_ntfy deliver o kind message ≡ []) ↔ (
          (c : NtfyConfig)
          → o ≡ some c
          → c.topic ≢ ""
          → deliver (ntfy_channel c) kind message ≡ none)
  unfolding send_to_ntfy
  ntfy-eq-nil none = (λ _ c e. cc, λ _. refl)
  ntfy-eq-nil (some a) = (
    λ h c e n. ground (arith, eq_iff a.topic "", eq_iff c.topic ""),
    λ h. ground (arith, eq_iff a.topic "", h a refl),
  )

  append-eq-nil :
      (xs ys zs : List String) → (xs ++ (ys ++ zs)) ≡ [] → (xs ≡ []) × (ys ≡ []) × (zs ≡ [])
  append-eq-nil [] [] zs h = (refl, refl, h)
  append-eq-nil [] (y ∷ ys) zs h = cc
  append-eq-nil (x ∷ xs) ys zs h = cc

  -- A send reports no error exactly where each configured channel delivers: a channel that fails
  -- neither hides another's error nor is hidden by another's success.
  pub send-eq-nil_iff : (cfg : Config) → (send deliver cfg kind message ≡ []) ↔ Delivers cfg
  unfolding send
  send-eq-nil_iff cfg = (
    λ h.
        let parts =
          append-eq-nil (send_to_smtp deliver cfg.smtp kind message)
            (send_to_webhook deliver cfg.webhook kind message)
            (send_to_ntfy deliver cfg.ntfy kind message) h in
        (
          (smtp-eq-nil cfg.smtp).0 parts.0,
          (webhook-eq-nil cfg.webhook).0 parts.1,
          (ntfy-eq-nil cfg.ntfy).0 parts.2,
        ),
    λ d. rw (
      (smtp-eq-nil cfg.smtp).1 d.0,
      (webhook-eq-nil cfg.webhook).1 d.1,
      (ntfy-eq-nil cfg.ntfy).1 d.2,
    ),
  )
