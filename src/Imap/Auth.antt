-- ===== src/Imap/Auth.antt =====
-- app/proxies/imap/session.py: who may open a mailbox through the proxy.
pub mod Genuine
use mind_wall.Prelude.{ℕ, Bool, true, false, Option, none, some, List, find, if◌then◌else◌}
use mind_wall.Wire.{Text, text_eq}
use mind_wall.Models.Mailboxes.{
  MailboxStatus, active, inactive, pending, connection_error, MailboxProfile,
}

pub record ProxySession : Type 0 where
  pub mailbox_profile_id : ℕ
  pub owner_user_id : ℕ
  pub proxy_username : Text
  pub email_address : Text

-- `bcrypt.checkpw(password, hash)`; `none` where it raises.
abbrev pub CheckPassword : Type 0
CheckPassword = Text → Text → Option Bool

abbrev pub has_username : Text → MailboxProfile → Bool
has_username name p = elim p.proxy_username [ none ↦ false | some u ↦ text_eq u name ]

-- `status in (ACTIVE, PENDING)`.
abbrev pub may_log_in : MailboxStatus → Bool
may_log_in active = true
may_log_in pending = true
may_log_in inactive = false
may_log_in connection_error = false

abbrev pub session_of : Text → MailboxProfile → ProxySession
session_of proxy_username profile = record {
  mailbox_profile_id = profile.id;
  owner_user_id = profile.owner_id;
  proxy_username = proxy_username;
  email_address = profile.email_address;
}

-- What a check of the password says, then the status.
unfoldable pub admit : Text → MailboxProfile → Option Bool → Option ProxySession
admit proxy_username profile none = none
admit proxy_username profile (some false) = none
admit proxy_username profile (some true) =
    if may_log_in profile.status then some (session_of proxy_username profile) else none

unfoldable pub authenticate_profile :
    CheckPassword → Text → Text → Option MailboxProfile → Option ProxySession
unfolding admit
authenticate_profile check proxy_username proxy_password none = none
authenticate_profile check proxy_username proxy_password (some profile) =
    elim profile.proxy_password_hash [
      | none ↦ none
      | some hash ↦ admit proxy_username profile (check proxy_password hash)
    ]

-- `proxy_username` is unique, so the query has one row at most. The dummy check for an unknown name
-- has no result.
unfoldable pub authenticate_proxy_credentials :
    CheckPassword → List MailboxProfile → Text → Text → Option ProxySession
unfolding authenticate_profile
authenticate_proxy_credentials check profiles proxy_username proxy_password =
    authenticate_profile check proxy_username proxy_password
      (find (has_username proxy_username) profiles)
