-- ===== src/Smtp/Server.antt =====
-- app/proxies/smtp/server.py: the command loop of a connection.
pub mod Sound
pub mod Safe
pub mod Fuel
pub mod Capture
use mind_wall.Prelude.{
  ℕ, zero, suc, ◌+◌, Bool, true, false, Option, none, some, List, [], ◌∷◌, ◌++◌, length,
  if◌then◌else◌,
}
use mind_wall.Wire.{Text, codes, text_eq, one_of, is_empty}
use mind_wall.Imap.Auth.{ProxySession}
use mind_wall.Smtp.Lines.{Input, readline, parse_command, extract_address}
use mind_wall.Smtp.Commands.{
  SmtpState, greeting, ehlo, auth, mail, rcpt, data_, Conn, Server, send, idle_state,
  reset_envelope, Outcome, cmd_auth, cmd_data,
}

pub data Command : Type 0 where
  quit noop say_ehlo say_helo with_auth reset mail_from rcpt_to with_data unknown : Command

-- The tests of `handle` on the command.
unfoldable pub command_of : Text → Command
command_of t =
    if text_eq t (codes "QUIT")
    then quit
    else if text_eq t (codes "NOOP")
    then noop
    else if text_eq t (codes "EHLO")
    then say_ehlo
    else if text_eq t (codes "HELO")
    then say_helo
    else if text_eq t (codes "AUTH")
    then with_auth
    else if text_eq t (codes "RSET")
    then reset
    else if text_eq t (codes "MAIL")
    then mail_from
    else if text_eq t (codes "RCPT")
    then rcpt_to
    else if text_eq t (codes "DATA")
    then with_data
    else unknown

abbrev pub is_greeting : SmtpState → Bool
is_greeting greeting = true
is_greeting ehlo = false
is_greeting auth = false
is_greeting mail = false
is_greeting rcpt = false
is_greeting data_ = false

-- What ends the loop, what goes on with the lines that are left, and a failed `assert`.
pub data Next : Type 0 where
  finished : Conn → Next
  going_on : Conn → List Input → Next
  assertion_error : Next

abbrev pub next_of : Outcome → Next
next_of none = assertion_error
next_of (some (c, rest)) = going_on c rest

abbrev pub reply : Conn → List Input → Text → Next
reply c inputs t = going_on (send c t) inputs

-- EHLO and HELO, with the lines of the answer.
unfoldable pub greet : Text → List Text → Conn → Conn
greet args lines c = record c {
  ehlo_domain = some (if is_empty args then codes "unknown" else args);
  sent = c.sent ++ lines;
  state = idle_state c.proxy_session;
}

-- MAIL, after a login.
unfoldable pub cmd_mail : Server → Text → Conn → SmtpState → Conn
unfolding extract_address
cmd_mail v args c greeting = send c (codes "503 5.5.1 Bad sequence of commands")
cmd_mail v args c mail = send c (codes "503 5.5.1 Bad sequence of commands")
cmd_mail v args c rcpt = send c (codes "503 5.5.1 Bad sequence of commands")
cmd_mail v args c data_ = send c (codes "503 5.5.1 Bad sequence of commands")
cmd_mail v args c ehlo =
    send (record c { envelope_from = some (extract_address args); envelope_to = []; state = mail })
      (codes "250 2.1.0 OK sender " ++ v.repr (extract_address args) ++ codes " accepted")
cmd_mail v args c auth =
    send (record c { envelope_from = some (extract_address args); envelope_to = []; state = mail })
      (codes "250 2.1.0 OK sender " ++ v.repr (extract_address args) ++ codes " accepted")

abbrev pub add_recipient : Server → Text → Conn → Conn
add_recipient v args c =
    send (record c { envelope_to = c.envelope_to ++ extract_address args ∷ []; state = rcpt })
      (codes "250 2.1.5 OK recipient " ++ v.repr (extract_address args) ++ codes " accepted")

-- RCPT, after a login.
unfoldable pub cmd_rcpt : Server → Text → Conn → SmtpState → Conn
unfolding extract_address
cmd_rcpt v args c greeting = send c (codes "503 5.5.1 MAIL FROM required first")
cmd_rcpt v args c ehlo = send c (codes "503 5.5.1 MAIL FROM required first")
cmd_rcpt v args c auth = send c (codes "503 5.5.1 MAIL FROM required first")
cmd_rcpt v args c data_ = send c (codes "503 5.5.1 MAIL FROM required first")
cmd_rcpt v args c mail = add_recipient v args c
cmd_rcpt v args c rcpt = add_recipient v args c

abbrev pub early_data : Conn → Outcome → List Input → SmtpState → Outcome
early_data c taken inputs rcpt = taken
early_data c taken inputs greeting =
    some (send c (codes "503 5.5.1 RCPT TO required first"), inputs)
early_data c taken inputs ehlo = some (send c (codes "503 5.5.1 RCPT TO required first"), inputs)
early_data c taken inputs auth = some (send c (codes "503 5.5.1 RCPT TO required first"), inputs)
early_data c taken inputs mail = some (send c (codes "503 5.5.1 RCPT TO required first"), inputs)
early_data c taken inputs data_ = some (send c (codes "503 5.5.1 RCPT TO required first"), inputs)

-- The commands that need a login, with its session.
unfoldable pub run_authenticated :
    Server → Text → Text → Conn → List Input → ProxySession → Command → Next
unfolding cmd_mail cmd_rcpt cmd_data reset_envelope
run_authenticated v name args c inputs s reset =
    reply (reset_envelope c) inputs (codes "250 2.0.0 Reset OK")
run_authenticated v name args c inputs s mail_from = going_on (cmd_mail v args c c.state) inputs
run_authenticated v name args c inputs s rcpt_to = going_on (cmd_rcpt v args c c.state) inputs
run_authenticated v name args c inputs s with_data =
    next_of (early_data c (cmd_data v c s inputs) inputs c.state)
run_authenticated v name args c inputs s _ =
    reply c inputs (codes "502 5.5.1 Command " ++ v.repr name ++ codes " not implemented")

unfoldable pub when_authenticated :
    Server → Text → Text → Conn → List Input → Command → Option ProxySession → Next
unfolding run_authenticated
when_authenticated v name args c inputs command none =
    reply c inputs (codes "530 5.7.0 Authentication required")
when_authenticated v name args c inputs command (some s) =
    run_authenticated v name args c inputs s command

-- AUTH, with the state and the session of the connection.
unfoldable pub run_auth : Server → Text → Conn → List Input → SmtpState → Option ProxySession → Next
unfolding cmd_auth
run_auth v args c inputs st (some s) =
    if is_greeting st
    then reply c inputs (codes "503 5.5.1 Send EHLO first")
    else reply c inputs (codes "503 5.5.1 Already authenticated")
run_auth v args c inputs st none =
    let (c', rest) = cmd_auth v c args inputs in
    if is_greeting st then reply c inputs (codes "503 5.5.1 Send EHLO first") else going_on c' rest

-- The branches of the loop.
unfoldable pub run_command : Server → Text → Text → Conn → List Input → Command → Next
unfolding greet run_auth when_authenticated
run_command v name args c inputs quit = finished (send c (codes "221 2.0.0 Bye"))
run_command v name args c inputs noop = reply c inputs (codes "250 2.0.0 OK")
run_command v name args c inputs say_ehlo =
    going_on
      (greet args
        (codes "250-Mindwall"
          ∷ codes "250-8BITMIME"
          ∷ codes "250-PIPELINING"
          ∷ codes "250-AUTH PLAIN LOGIN"
          ∷ codes "250 SMTPUTF8"
          ∷ [])
        c)
      inputs
run_command v name args c inputs say_helo =
    going_on (greet args (codes "250 Mindwall SMTP proxy" ∷ []) c) inputs
run_command v name args c inputs with_auth = run_auth v args c inputs c.state c.proxy_session
run_command v name args c inputs reset =
    when_authenticated v name args c inputs reset c.proxy_session
run_command v name args c inputs mail_from =
    when_authenticated v name args c inputs mail_from c.proxy_session
run_command v name args c inputs rcpt_to =
    when_authenticated v name args c inputs rcpt_to c.proxy_session
run_command v name args c inputs with_data =
    when_authenticated v name args c inputs with_data c.proxy_session
run_command v name args c inputs unknown =
    when_authenticated v name args c inputs unknown c.proxy_session

-- One round of the loop.
unfoldable pub round : Server → Conn → Option Text × List Input → Next
unfolding parse_command run_command command_of
round v c (none, inputs) = finished c
round v c (some line, inputs) =
    let (name, args) = parse_command line in run_command v name args c inputs (command_of name)

-- The loop of `handle`, on fuel: each round reads a line at least.
unfoldable pub serve : Server → ℕ → List Input → Conn → Next
unfolding round readline
serve v zero inputs c = going_on c inputs
serve v (suc f) inputs c = elim (round v c (readline v.decode_utf8 inputs)) [
  | finished c' ↦ finished c'
  | going_on c' rest ↦ serve v f rest c'
  | assertion_error ↦ assertion_error
]

-- The connection as it is accepted, with the greeting.
abbrev pub greeted : Conn
greeted = record {
  state = greeting;
  proxy_session = none;
  ehlo_domain = none;
  envelope_from = none;
  envelope_to = [];
  sent = codes "220 Mindwall SMTP submission proxy ready" ∷ [];
  outbound = [];
}

-- `handle`: the lines read are as many as there are, and the end of the stream ends it.
unfoldable pub handle : Server → List Input → Next
unfolding serve
handle v inputs = serve v (length inputs + 1) inputs greeted
