-- ===== src/Mailboxes/Connectivity.antt =====
-- app/mailboxes/service.py, `test_mailbox_connectivity`. The two probes of the network are parameters.
use mind_wall.Prelude.{
  ℕ, Bool, not, ◌&&◌, Option, none, some, List, [], ◌∷◌, ◌++◌, take, if◌then◌else◌, Result, ok, err,
}
use mind_wall.Wire.{Text, codes}
use mind_wall.Models.Mailboxes.{ConnectionSecurity, active, connection_error, MailboxProfile}
use mind_wall.Analysis.Checks.{is_given, or_empty, join}
use mind_wall.Mailboxes.Profiles.{Encryptor, ProfileError, decryption_failed, replace_profile}

pub record ConnectivityResult : Type 0 where
  pub success : Bool
  pub error_message : Option Text

-- The arguments of a probe.
pub record Upstream : Type 0 where
  pub host : Text
  pub port : ℕ
  pub security : ConnectionSecurity
  pub username : Text
  pub password : Text
  pub timeout : ℕ

abbrev pub Probe : Type 0
Probe = Upstream → ConnectivityResult

unfoldable pub imap_upstream : MailboxProfile → Text → ℕ → Upstream
imap_upstream p password timeout = record {
  host = p.imap_host;
  port = p.imap_port;
  security = p.imap_security;
  username = p.imap_username;
  password = password;
  timeout = timeout;
}

unfoldable pub smtp_upstream : MailboxProfile → Text → ℕ → Upstream
smtp_upstream p password timeout = record {
  host = p.smtp_host;
  port = p.smtp_port;
  security = p.smtp_security;
  username = p.smtp_username;
  password = password;
  timeout = timeout;
}

abbrev error_part : Text → ConnectivityResult → List Text
error_part label r =
    if not r.success && is_given r.error_message
    then (label ++ or_empty r.error_message) ∷ []
    else []

-- The text that is kept of a failed test.
unfoldable pub error_text : ConnectivityResult → ConnectivityResult → Text
error_text imap_result smtp_result = take 500 (
    join (codes " | ")
      (error_part (codes "IMAP: ") imap_result ++ error_part (codes "SMTP: ") smtp_result))

-- The object after a test.
unfoldable pub tested_profile :
    ℕ → ConnectivityResult → ConnectivityResult → MailboxProfile → MailboxProfile
unfolding error_text
tested_profile now imap_result smtp_result p =
    if imap_result.success && smtp_result.success
    then record p {
      last_connection_check_at = some now;
      status = active;
      last_connection_error = none;
    }
    else record p {
      last_connection_check_at = some now;
      status = connection_error;
      last_connection_error = some (error_text imap_result smtp_result);
    }

-- The probes and the writes, with the passwords in the clear.
unfoldable pub probe_profile :
    Probe
    → Probe
    → ℕ
    → ℕ
    → MailboxProfile
    → Text
    → Text
    → List MailboxProfile
    → (ConnectivityResult × ConnectivityResult) × List MailboxProfile
unfolding imap_upstream smtp_upstream tested_profile
probe_profile test_imap test_smtp now timeout p imap_password smtp_password profiles =
    let imap_result = test_imap (imap_upstream p imap_password timeout) in
    let smtp_result = test_smtp (smtp_upstream p smtp_password timeout) in
    (
      (imap_result, smtp_result),
      replace_profile (tested_profile now imap_result smtp_result p) profiles,
    )

-- `test_mailbox_connectivity`: nothing is probed or written where a password does not decrypt.
unfoldable pub test_mailbox_connectivity :
    Encryptor
    → Probe
    → Probe
    → ℕ
    → ℕ
    → MailboxProfile
    → List MailboxProfile
    → Result ProfileError (ConnectivityResult × ConnectivityResult) × List MailboxProfile
unfolding probe_profile
test_mailbox_connectivity enc test_imap test_smtp now timeout p profiles =
    elim (enc.decrypt p.imap_password_enc) [
      | none ↦ (err decryption_failed, profiles)
      | some imap_password ↦ elim (enc.decrypt p.smtp_password_enc) [
        | none ↦ (err decryption_failed, profiles)
        | some smtp_password ↦
            (let (results, profiles') =
                probe_profile test_imap test_smtp now timeout p imap_password smtp_password
                  profiles in
              (ok results, profiles'))
      ]
    ]
