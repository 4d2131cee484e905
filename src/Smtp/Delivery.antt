-- ===== src/Smtp/Delivery.antt =====
-- app/proxies/smtp/delivery.py and models.py: what is kept of a message that is submitted.
use mind_wall.Prelude.{ℕ, Bool, Option, none, some, List, ◌++◌, map, take, length, if◌then◌else◌}
use mind_wall.Wire.{Text, codes, text_eq, is_empty}
use mind_wall.Models.Session.{NewId}
use mind_wall.Imap.Auth.{ProxySession}

pub data SmtpDeliveryMode : Type 0 where
  capture relay : SmtpDeliveryMode

pub data SmtpDeliveryStatus : Type 0 where
  pending captured relayed failed : SmtpDeliveryStatus

pub record OutboundMessage : Type 0 where
  pub id : ℕ
  pub mailbox_profile_id : ℕ
  pub proxy_username : Text
  pub envelope_from : Text
  pub envelope_to_json : Text
  pub subject : Option Text
  pub raw_size_bytes : ℕ
  pub raw_sha256 : Text
  pub raw_storage_path : Option Text
  pub delivery_mode : SmtpDeliveryMode
  pub delivery_status : SmtpDeliveryStatus
  pub relay_error : Option Text
  pub submitted_at : ℕ

-- `SmtpDeliveryMode(delivery_mode)`; `none` is its ValueError.
unfoldable pub mode_of : Text → Option SmtpDeliveryMode
mode_of t =
    if text_eq t (codes "capture")
    then some capture
    else if text_eq t (codes "relay")
    then some relay
    else none

abbrev pub mode_value : SmtpDeliveryMode → Text
mode_value capture = codes "capture"
mode_value relay = codes "relay"

-- What the outbound store, `hashlib`, `email` and `json` give: the digest of the bytes, whether the
-- file could be written, the Subject header (`none` where it is absent or cannot be read), and
-- `json.dumps`.
pub record Outside : Type 0 where
  pub sha256 : Text → Text
  pub write_eml : Text → Bool
  pub subject_header : Text → Option Text
  pub dumps : List Text → Text

-- `relay_message` with a profile and an encryptor: `some error` is its SmtpRelayError.
abbrev pub Relay : Type 0
Relay = Text → List Text → Text → Option Text

-- `_write_outbound_eml`; `none` is an OSError.
unfoldable pub write_outbound_eml : Outside → Text → Option (Text × Text)
write_outbound_eml o raw =
    let digest = o.sha256 raw in
    if o.write_eml raw
    then some (digest, take 2 digest ++ codes "/" ++ digest ++ codes ".eml")
    else none

-- `_extract_subject`.
unfoldable pub extract_subject : Outside → Text → Option Text
extract_subject o raw = elim (o.subject_header raw) [
  | none ↦ none
  | some subject ↦ if is_empty subject then none else some (take 998 subject)
]

-- What the relay says, as a status and an error.
unfoldable pub relay_outcome : Option Text → SmtpDeliveryStatus × Option Text
relay_outcome none = (relayed, none)
relay_outcome (some error) = (failed, some (take 500 error))

-- The last step of `deliver_outbound`. The relay is `none` where the profile or the encryptor is.
unfoldable pub delivered :
    SmtpDeliveryMode → Option Relay → Text → List Text → Text → SmtpDeliveryStatus × Option Text
unfolding relay_outcome
delivered capture r sender recipients raw = (captured, none)
delivered relay none sender recipients raw =
    (failed, some (codes "Relay mode requested but profile/encryptor not provided."))
delivered relay (some send_it) sender recipients raw = relay_outcome (send_it sender recipients raw)

abbrev pub Submission : Type 0
Submission = Text × List Text × Text

-- The row, with the id and the time that it gets, and the digest and path of its file.
unfoldable pub outbound_row :
    Outside
    → Option Relay
    → SmtpDeliveryMode
    → ProxySession
    → Submission
    → ℕ
    → ℕ
    → Text × Text
    → OutboundMessage
unfolding delivered extract_subject
outbound_row o r mode session (sender, recipients, raw) id now (digest, path) =
    let (status, error) = delivered mode r sender recipients raw in
    record {
      id = id;
      mailbox_profile_id = session.mailbox_profile_id;
      proxy_username = session.proxy_username;
      envelope_from = sender;
      envelope_to_json = o.dumps recipients;
      subject = extract_subject o raw;
      raw_size_bytes = length raw;
      raw_sha256 = digest;
      raw_storage_path = some path;
      delivery_mode = mode;
      delivery_status = status;
      relay_error = error;
      submitted_at = now;
    }

-- `deliver_outbound`: the row that it adds to the table and commits, or none where it raises.
unfoldable pub deliver_outbound :
    Outside
    → Option Relay
    → NewId
    → ℕ
    → Text
    → ProxySession
    → Submission
    → List OutboundMessage
    → Option OutboundMessage
unfolding write_outbound_eml mode_of outbound_row
deliver_outbound o r new_id now delivery_mode session (sender, recipients, raw) rows =
    elim (write_outbound_eml o raw) [
      | none ↦ none
      | some file ↦ elim (mode_of delivery_mode) [
        | none ↦ none
        | some mode ↦ some (
            outbound_row o r mode session (sender, recipients, raw)
              (new_id (map (λ (x : OutboundMessage). x.id) rows)) now file)
      ]
    ]
