-- ===== src/Smtp/Commands.antt =====
-- app/proxies/smtp/server.py: the state of a connection and its commands.
use mind_wall.Prelude.{
  ℕ, Bool, true, false, Option, none, some, List, [], ◌∷◌, ◌++◌, length, if◌then◌else◌,
}
use mind_wall.Wire.{Text, codes, text_eq, is_empty, strip, upper}
use mind_wall.Wire.Splitting.{split_once, split_all}
use mind_wall.Wire.Numerals.{show}
use mind_wall.Models.Session.{NewId}
use mind_wall.Models.Mailboxes.{MailboxProfile}
use mind_wall.Imap.Auth.{ProxySession, CheckPassword, authenticate_proxy_credentials}
use mind_wall.Smtp.Delivery.{
  SmtpDeliveryStatus, pending, captured, relayed, failed, OutboundMessage, mode_value, Outside,
  deliver_outbound,
}
use mind_wall.Smtp.Lines.{Input, readline, collect_data}

pub data SmtpState : Type 0 where
  greeting ehlo auth mail rcpt data_ : SmtpState

pub record Conn : Type 0 where
  pub state : SmtpState
  pub proxy_session : Option ProxySession
  pub ehlo_domain : Option Text
  pub envelope_from : Option Text
  pub envelope_to : List Text
  pub sent : List Text
  pub outbound : List OutboundMessage

-- What a connection works with: its settings; the profiles, which do not change while it lasts;
-- `base64.b64decode` (`none` where it raises), UTF-8, `repr`, the clock (by the number of the rows).
pub record Server : Type 0 where
  pub delivery_mode : Text
  pub max_message_bytes : ℕ
  pub profiles : List MailboxProfile
  pub check : CheckPassword
  pub b64decode : Text → Option Text
  pub decode_utf8 : Text → Text
  pub repr : Text → Text
  pub outside : Outside
  pub new_id : NewId
  pub now : ℕ → ℕ

abbrev pub send : Conn → Text → Conn
send c t = record c { sent = c.sent ++ t ∷ [] }

-- The state of a connection between two transactions.
abbrev pub idle_state : Option ProxySession → SmtpState
idle_state none = ehlo
idle_state (some s) = auth

-- `_reset_envelope`.
unfoldable pub reset_envelope : Conn → Conn
reset_envelope c = record c {
  envelope_from = none;
  envelope_to = [];
  state = idle_state c.proxy_session;
}

-- A handler leaves the connection and the lines still to be read; a failed `assert` is `none`.
abbrev pub Outcome : Type 0
Outcome = Option (Conn × List Input)

-- The last two of three fields at least.
unfoldable pub last_two : List Text → Option (Text × Text)
last_two [] = none
last_two (a ∷ []) = none
last_two (a ∷ b ∷ []) = none
last_two (a ∷ b ∷ d ∷ []) = some (b, d)
last_two (a ∷ b ∷ d ∷ e ∷ more) = last_two (b ∷ d ∷ e ∷ more)

abbrev pub rows_of : Option OutboundMessage → List OutboundMessage
rows_of none = []
rows_of (some row) = row ∷ []

abbrev pub and_rest : Option Conn → List Input → Outcome
and_rest none rest = none
and_rest (some c) rest = some (c, rest)

module _ (v : Server) where
  -- `authenticate_smtp_credentials` (app/proxies/smtp/session.py).
  unfoldable pub authenticate_smtp_credentials : Text → Text → Option ProxySession
  unfolding authenticate_proxy_credentials
  authenticate_smtp_credentials name word =
      authenticate_proxy_credentials v.check v.profiles name word

  unfoldable pub plain_credentials : Text → Option ProxySession
  unfolding authenticate_smtp_credentials last_two split_all
  plain_credentials b64 = elim (v.b64decode b64) [
    | none ↦ none
    | some decoded ↦ elim (last_two (split_all 0 decoded)) [
      | none ↦ none
      | some (name, word) ↦ authenticate_smtp_credentials (v.decode_utf8 name) (v.decode_utf8 word)
    ]
  ]

  -- An attempt to log in: the connection with the challenges that it has sent, the session that it
  -- gives, and what is left to read.
  abbrev pub Attempt : Type 0
  Attempt = Conn × Option ProxySession × List Input

  -- `_handle_auth_plain`.
  unfoldable pub handle_auth_plain : Conn → Text → List Input → Attempt
  unfolding plain_credentials readline strip
  handle_auth_plain c initial inputs =
      let (line, rest) = readline v.decode_utf8 inputs in
      if is_empty initial
      then (
        send c (codes "334 "),
        elim line [ none ↦ none | some b64 ↦ plain_credentials (strip b64) ],
        rest,
      )
      else (c, plain_credentials initial, inputs)

  abbrev pub decoded_line : Option Text → Option Text
  decoded_line none = none
  decoded_line (some line) = elim (v.b64decode (strip line)) [
    | none ↦ none
    | some bytes ↦ some (v.decode_utf8 bytes)
  ]

  -- `_handle_auth_login`.
  unfoldable pub handle_auth_login : Conn → List Input → Attempt
  unfolding authenticate_smtp_credentials readline strip
  handle_auth_login c inputs =
      let (first, rest) = readline v.decode_utf8 inputs in
      let asked = send c (codes "334 VXNlcm5hbWU6") in
      elim (decoded_line first) [
        | none ↦ (asked, none, rest)
        | some name ↦
            let (second, rest') = readline v.decode_utf8 rest in
            (
              send asked (codes "334 UGFzc3dvcmQ6"),
              elim (decoded_line second) [
                | none ↦ none
                | some word ↦ authenticate_smtp_credentials name word
              ],
              rest',
            )
      ]

  -- What AUTH does with an attempt.
  unfoldable pub authenticated : Attempt → Conn × List Input
  authenticated (c, none, rest) =
      (send c (codes "535 5.7.8 Authentication credentials invalid"), rest)
  authenticated (c, some s, rest) = (
    send (record c { proxy_session = some s; state = auth })
        (codes "235 2.7.0 Authentication successful, logged in as " ++ s.proxy_username),
    rest,
  )

  -- The two parts of `args.partition(" ")` that count.
  abbrev pub partition : Text → Text × Text
  partition args = elim (split_once 32 args) [ none ↦ (args, []) | some parts ↦ parts ]

  -- AUTH, before a login.
  unfoldable pub cmd_auth : Conn → Text → List Input → Conn × List Input
  unfolding handle_auth_plain handle_auth_login authenticated split_once upper
  cmd_auth c args inputs =
      let (word, initial) = partition args in
      let method = upper word in
      if text_eq method (codes "PLAIN")
      then authenticated (handle_auth_plain c initial inputs)
      else if text_eq method (codes "LOGIN")
      then authenticated (handle_auth_login c inputs)
      else (send c (codes "504 5.5.4 Unrecognised AUTH mechanism"), inputs)

  abbrev is_failed : SmtpDeliveryStatus → Bool
  is_failed failed = true
  is_failed pending = false
  is_failed captured = false
  is_failed relayed = false

  abbrev error_text : Option Text → Text
  error_text none = codes "Delivery failed"
  error_text (some []) = codes "Delivery failed"
  error_text (some (a ∷ t)) = a ∷ t

  -- The answer to a delivery; `none` is an exception.
  unfoldable pub delivery_answer : Option OutboundMessage → Text
  unfolding show
  delivery_answer none = codes "451 4.3.0 Internal error during delivery"
  delivery_answer (some row) =
      if is_failed row.delivery_status
      then codes "550 5.0.0 " ++ error_text row.relay_error
      else codes "250 2.0.0 Message accepted (id="
        ++ show row.id
        ++ codes " mode="
        ++ mode_value row.delivery_mode
        ++ codes ")"

  -- The delivery of a message: no profile and no encryptor are passed.
  unfoldable pub submit : Conn → ProxySession → Text → Text → Conn
  unfolding deliver_outbound delivery_answer reset_envelope
  submit c s sender raw =
      let result =
        deliver_outbound v.outside none v.new_id (v.now (length c.outbound)) v.delivery_mode s
          (sender, c.envelope_to, raw) c.outbound in
      reset_envelope
        (send (record c { outbound = c.outbound ++ rows_of result }) (delivery_answer result))

  -- What DATA does with what was collected.
  unfoldable pub collected : Conn → ProxySession → Option Text → Option Text → Option Conn
  unfolding submit reset_envelope
  collected c s sender none =
      some (reset_envelope (send c (codes "552 5.3.4 Message too large or connection lost")))
  collected c s none (some raw) = none
  collected c s (some sender) (some raw) = some (submit c s sender raw)

  -- DATA after RCPT.
  unfoldable pub cmd_data : Conn → ProxySession → List Input → Outcome
  unfolding collect_data collected
  cmd_data c s inputs =
      let asked = send c (codes "354 Start mail input; end with <CRLF>.<CRLF>") in
      let (raw, rest) = collect_data v.max_message_bytes 0 inputs in
      and_rest (collected asked s asked.envelope_from raw) rest
