-- ===== src/Examples/Submitting.antt =====
-- The SMTP proxy.
use mind_wall.Prelude.{◌++◌, length, ◌≡◌, refl, arith, true, none, some, List, [], ◌∷◌}
use mind_wall.Wire.{Text, codes}
use mind_wall.Smtp.Delivery.{captured, OutboundMessage, Outside}
use mind_wall.Smtp.Lines.{Input, received, timed_out, collect_data}
use mind_wall.Smtp.Lines.Stuffing.{stuffed, join, collect_data-stuffed}
use mind_wall.Smtp.Commands.{rcpt, auth, Conn, Server}
use mind_wall.Smtp.Server.{finished, handle}
use mind_wall.Smtp.Server.Sound.{IsSound}
use mind_wall.Imap.Auth.{ProxySession, session_of}
use mind_wall.Smtp.Server.{with_data, going_on, run_command}
use mind_wall.Smtp.Server.Capture.{data_captured}
use mind_wall.Smtp.Server.Fuel.{handle-finished}
use mind_wall.Examples.Concrete.{anna, same_text, after_all}

abbrev outside : Outside
outside = record {
  sha256 = λ t. codes "00";
  write_eml = λ t. true;
  subject_header = λ t. none;
  dumps = λ ts. codes "[]";
}

-- A server that captures, of which base64 is the identity.
abbrev server : Server
server = record {
  delivery_mode = codes "capture";
  max_message_bytes = 100;
  profiles = anna ∷ [];
  check = same_text;
  b64decode = λ t. some t;
  decode_utf8 = λ t. t;
  repr = λ t. t;
  outside = outside;
  new_id = after_all;
  now = λ n. n;
}

abbrev submission : List Input
submission =
    received (codes "EHLO me\r\n")
    ∷ received (codes "AUTH LOGIN\r\n")
    ∷ received (codes "mw_anna\r\n")
    ∷ received (codes "secret\r\n")
    ∷ received (codes "MAIL FROM:<a@b>\r\n")
    ∷ received (codes "RCPT TO:<c@d>\r\n")
    ∷ received (codes "DATA\r\n")
    ∷ received (codes "..hello\r\n")
    ∷ received (codes ".\r\n")
    ∷ received (codes "QUIT\r\n")
    ∷ []

handle-finished_example : (c : Conn) × (handle server submission ≡ finished c) × IsSound server c
handle-finished_example = handle-finished server submission

abbrev lines : List Text
lines = codes "Subject: x\r\n" ∷ codes "\r\n" ∷ codes ".\r\n" ∷ codes "..two\r\n" ∷ []

collect_data-stuffed_example :
    collect_data 100 0 (stuffed lines (timed_out ∷ [])) ≡ (some (join lines), timed_out ∷ [])
collect_data-stuffed_example =
    collect_data-stuffed 100 0 lines (timed_out ∷ []) (refl, (refl, (refl, (refl, tt))))
      (ground arith)

abbrev anna_session : ProxySession
anna_session = session_of (codes "mw_anna") anna

-- A connection after RCPT.
abbrev ready : Conn
ready = record {
  state = rcpt;
  proxy_session = some anna_session;
  ehlo_domain = none;
  envelope_from = some (codes "a@b");
  envelope_to = codes "c@d" ∷ [];
  sent = [];
  outbound = [];
}

data_captured_example :
    (c' : Conn) × (row : OutboundMessage) × (run_command server
        (codes "DATA")
        []
        ready
        (stuffed lines [])
        with_data
      ≡ going_on c' [])
    × (c'.outbound ≡ [] ++ row ∷ [])
    × (row.delivery_status ≡ captured)
    × (row.mailbox_profile_id ≡ anna.id)
    × (row.envelope_from ≡ codes "a@b")
    × (row.envelope_to_json ≡ codes "[]")
    × (row.raw_size_bytes ≡ length (join lines))
    × (c'.state ≡ auth)
    × (c'.proxy_session ≡ some anna_session)
    × (c'.envelope_to ≡ [])
data_captured_example =
    data_captured server refl (codes "DATA") [] ready anna_session (codes "a@b") lines [] refl refl
      refl (refl, (refl, (refl, (refl, tt)))) (ground arith) refl
