-- ===== src/Notify/Smtp.antt =====
-- `sendSMTP` and `splitList` of internal/notify/notify.go, as the exchange with the server.
pub mod Credentials
use Prim.Native.Char.{Char, code}
use Prim.Native.String
use Prim.Native.String.{◌∷◌ as string_cons, [] as string_nil}
use clamav_webui.Prelude.{
  ℕ, String, ◌≡◌, Bool, true, false, not, ◌&&◌, ◌||◌, List, [], ◌∷◌, ◌==◌, string_eq, nat_beq,
  if◌then◌else◌,
}
use clamav_webui.Prelude.Int.{ℤ, pos, negsuc}
use clamav_webui.Notify.{SmtpConfig}

-- What is asked of the network and of the server. Each call succeeds or fails.
pub data Command : Type 0 where
  dial_tls dial : String → ℤ → Command
  new_client : Command
  offers_starttls : Command
  start_tls : Command
  auth : String → String → Command
  mail : String → Command
  rcpt : String → Command
  begin_data : Command
  write : String → Command
  close : Command
  quit : Command

-- The exchange so far, the latest call first, each with its outcome.
abbrev pub Exchange : Type 0
Exchange = List (Command × Bool)

-- Whether the next call succeeds, from the exchange so far.
abbrev pub Server : Type 0
Server = Exchange → Command → Bool

pub data Outcome : Type 0 where
  sent : Outcome
  failed : Command → Outcome
  no_starttls : Outcome
  refused_credentials : Outcome

-- An action ends with `sent` or goes no further.
abbrev pub Action : Type 0
Action = Exchange → Outcome × Exchange

-- A call whose error is returned at once.
abbrev pub call : Server → Command → Action
call server c ex = if server ex c then (sent, (c, true) ∷ ex) else (failed c, (c, false) ∷ ex)

abbrev continue : Outcome → Action → Action
continue sent next ex = next ex
continue other next ex = (other, ex)

infixr 5 ◌then_do◌
abbrev pub ◌then_do◌ : Action → Action → Action
◌then_do◌ first next ex = let (o, ex') = first ex in continue o next ex'

abbrev is_separator : Char → Bool
is_separator c = nat_beq (code c) b',' || nat_beq (code c) b' ' || nat_beq (code c) b';'

abbrev push_field : String → List String → List String
push_field field rest = if field == "" then rest else field ∷ rest

-- `splitList`, with the field read so far
split_from : String → String → List String
split_from field String.[] = push_field field []
split_from field (String.◌∷◌ c s) =
    if is_separator c
    then push_field field (split_from "" s)
    else split_from (String.◌++◌ field (String.◌∷◌ c "")) s

unfoldable pub split_list : String → List String
unfolding split_from
split_list s = split_from "" s

abbrev pub submission : ℤ
submission = pos 587

abbrev pub is_port : ℤ → ℕ → Bool
is_port (pos n) m = nat_beq n m
is_port (negsuc n) m = false

-- port := c.Port; if port == 0 { port = 587 }
abbrev pub port_of : SmtpConfig → ℤ
port_of c = if is_port c.port 0 then submission else c.port

abbrev pub is_local : String → Bool
is_local host = host == "localhost" || host == "127.0.0.1"

connect : Server → SmtpConfig → Action
connect server c =
    if is_port (port_of c) 465
    then call server (dial_tls c.host (port_of c))
    else call server (dial c.host (port_of c))

upgrade : Server → SmtpConfig → Action
upgrade server c ex =
    if not (is_port (port_of c) 465) && c.starttls
    then (if server ex offers_starttls
        then call server start_tls ((offers_starttls, true) ∷ ex)
        else (no_starttls, (offers_starttls, false) ∷ ex))
    else (sent, ex)

authenticate : Server → SmtpConfig → Action
authenticate server c ex =
    if not (c.username == "") && ((is_port (port_of c) 465 || c.starttls) || is_local c.host)
    then call server (auth c.username c.password) ex
    else if not (c.username == "")
    then (refused_credentials, ex)
    else (sent, ex)

recipients : Server → List String → Action
recipients server [] ex = (sent, ex)
recipients server (r ∷ rs) ex = elim (server ex (rcpt r)) [
  | true ↦ recipients server rs ((rcpt r, true) ∷ ex)
  | false ↦ (failed (rcpt r), (rcpt r, false) ∷ ex)
]

transmit : Server → String → Action
transmit server text =
    call server begin_data
    then_do call server (write text)
    then_do call server close
    then_do call server quit

infixr 65 ◌+++◌
abbrev ◌+++◌ : String → String → String
a +++ b = String.◌++◌ a b

-- the message with its header lines
unfoldable pub message_text : SmtpConfig → String → String → String
message_text c kind message =
    "To: " +++ c.to +++ "\r\nFrom: " +++ c.from +++ "\r\nSubject: [ClamAV WebUI] " +++ kind
    +++ "\r\n\r\n" +++ message +++ "\r\n"

unfoldable pub send_smtp : Server → SmtpConfig → String → String → Outcome × Exchange
unfolding connect upgrade authenticate recipients transmit
send_smtp server c kind message =
    (connect server c
        then_do call server new_client
        then_do upgrade server c
        then_do authenticate server c
        then_do call server (mail c.from)
        then_do recipients server (split_list c.to)
        then_do transmit server (message_text c kind message))
      []

-- A connection that was dialled with TLS or upgraded, at this point of the exchange.
abbrev pub is_encrypted : Exchange → Bool
is_encrypted [] = false
is_encrypted ((dial_tls host port, true) ∷ ex) = true
is_encrypted ((start_tls, true) ∷ ex) = true
is_encrypted (_ ∷ ex) = is_encrypted ex

-- Credentials were only ever sent over an encrypted connection, or to the local host.
abbrev pub IsGuarded : String → Exchange → Type 0
IsGuarded host [] = Unit
IsGuarded host ((auth user password, outcome) ∷ ex) =
    ((is_encrypted ex || is_local host) ≡ true) × IsGuarded host ex
IsGuarded host (_ ∷ ex) = IsGuarded host ex
