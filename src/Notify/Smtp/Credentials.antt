-- ===== src/Notify/Smtp/Credentials.antt =====
-- Where `sendSMTP` sends the user's name and password.
use clamav_webui.Prelude.{String, ◌≡◌, refl, Bool, true, false, ◌||◌, List, [], ◌∷◌, arith}
use clamav_webui.Notify.{SmtpConfig}
use clamav_webui.Notify.Smtp.{
  no_starttls, refused_credentials, rcpt, continue, failed, continue, Exchange, Server, Outcome,
  sent, Action, Command, call, ◌then_do◌, is_port, port_of, connect, upgrade, authenticate,
  recipients, transmit, send_smtp, is_encrypted, IsGuarded, new_client, mail, begin_data, write,
  close, quit, split_list, message_text,
}

abbrev Post : String → (Exchange → Type 0) → Outcome × Exchange → Type 0
Post host Q (o, ex) = IsGuarded host ex × (o ≡ sent → Q ex)

record Ensures (host : String) (P : Exchange → Type 0) (m : Action) (Q : Exchange → Type 0)
    : Type 0 where
  at : (ex : Exchange) → IsGuarded host ex → P ex → Post host Q (m ex)

continue-Post :
    {host : String} (Q R : Exchange → Type 0) (n : Action) (r : Outcome × Exchange)
    → Ensures host Q n R
    → Post host Q r
    → Post host R (continue r.0 n r.1)
continue-Post Q R n (sent, ex) hn p = hn.at ex p.0 (p.1 refl)
continue-Post Q R n (failed c, ex) hn p = (p.0, λ e. cc)
continue-Post Q R n (no_starttls, ex) hn p = (p.0, λ e. cc)
continue-Post Q R n (refused_credentials, ex) hn p = (p.0, λ e. cc)

Ensures-then :
    {host : String} {P Q R : Exchange → Type 0} (m n : Action)
    → Ensures host P m Q
    → Ensures host Q n R
    → Ensures host P (m then_do n) R
Ensures-then {Q} {R} m n hm hn = record {
  at = λ ex g p. continue-Post Q R n (m ex) hn (hm.at ex g p);
}

abbrev Always : Exchange → Type 0
Always ex = Unit

-- Encrypted, if the flag says that the connection must be.
abbrev Sealed : Bool → Exchange → Type 0
Sealed flag ex = flag ≡ true → is_encrypted ex ≡ true

module _ (server : Server) (c : SmtpConfig) where
  abbrev implicit_tls : Bool
  implicit_tls = is_port (port_of c) 465

  connect-Ensures : Ensures c.host Always (connect server c) (Sealed implicit_tls)
  unfolding connect
  connect-Ensures = record { at = λ ex g p. ground arith }

  client-Ensures :
      Ensures c.host (Sealed implicit_tls) (call server new_client) (Sealed implicit_tls)
  client-Ensures = record { at = λ ex g p. ground arith }

  upgrade-Ensures :
      Ensures c.host (Sealed implicit_tls) (upgrade server c) (Sealed (implicit_tls || c.starttls))
  unfolding upgrade
  upgrade-Ensures = record { at = λ ex g p. ground arith }

  authenticate-Ensures :
      Ensures c.host (Sealed (implicit_tls || c.starttls)) (authenticate server c) Always
  unfolding authenticate
  authenticate-Ensures = record { at = λ ex g p. ground arith }

  recipients-Ensures : (rs : List String) → Ensures c.host Always (recipients server rs) Always
  unfolding recipients
  recipients-Ensures [] = record { at = λ ex g p. (g, λ _. tt) }
  recipients-Ensures (r ∷ rs) =
      let rest = recipients-Ensures rs in
      record { at = λ ex g p. ground (arith, rest.at ((rcpt r, true) ∷ ex) g tt) }

  call-Ensures :
      (cmd : Command)
      → ((ex : Exchange) (b : Bool) → IsGuarded c.host ex → IsGuarded c.host ((cmd, b) ∷ ex))
      → Ensures c.host Always (call server cmd) Always
  call-Ensures cmd h = record { at = λ ex g p. ground (arith, h ex true g, h ex false g) }

  transmit-Ensures : (text : String) → Ensures c.host Always (transmit server text) Always
  unfolding transmit
  transmit-Ensures text = Ensures-then _ _ (call-Ensures begin_data (λ ex b g. g)) (
      Ensures-then _ _ (call-Ensures (write text) (λ ex b g. g))
        (Ensures-then _ _ (call-Ensures close (λ ex b g. g)) (call-Ensures quit (λ ex b g. g))))

  -- Whatever the server answers, a user's name and password only ever go over a connection that
  -- was dialled with TLS or upgraded by STARTTLS, unless the server is the local host.
  pub send_smtp-IsGuarded :
      (kind message : String) → IsGuarded c.host (send_smtp server c kind message).1
  unfolding send_smtp
  send_smtp-IsGuarded kind message =
      ((Ensures-then _ _ connect-Ensures (
          Ensures-then _ _ client-Ensures (
            Ensures-then _ _ upgrade-Ensures (
              Ensures-then _ _ authenticate-Ensures (
                Ensures-then _ _ (call-Ensures (mail c.from) (λ ex b g. g)) (
                  Ensures-then _ _ (recipients-Ensures (split_list c.to))
                    (transmit-Ensures (message_text c kind message)))))))).at
        [] tt tt).0
