-- ===== src/Models/Mailboxes.antt =====
-- app/mailboxes/models.py, app/mailboxes/sync_models.py and the columns of app/messages/models.py
-- that the proxies and the sync read.
use mind_wall.Prelude.{ℕ, Option, List}
use mind_wall.Wire.{Text}

pub data MailboxStatus : Type 0 where
  active inactive pending connection_error : MailboxStatus

-- `ImapSecurity` and `SmtpSecurity`, which have the same members.
pub data ConnectionSecurity : Type 0 where
  ssl_tls starttls unencrypted : ConnectionSecurity

pub record MailboxProfile : Type 0 where
  pub id : ℕ
  pub owner_id : ℕ
  pub display_name : Text
  pub email_address : Text
  pub imap_host : Text
  pub imap_port : ℕ
  pub imap_username : Text
  pub imap_password_enc : Text
  pub imap_security : ConnectionSecurity
  pub smtp_host : Text
  pub smtp_port : ℕ
  pub smtp_username : Text
  pub smtp_password_enc : Text
  pub smtp_security : ConnectionSecurity
  pub status : MailboxStatus
  pub proxy_username : Option Text
  pub proxy_password_hash : Option Text
  pub last_connection_check_at : Option ℕ
  pub last_connection_error : Option Text
  pub created_at : ℕ

pub data SyncStatus : Type 0 where
  idle syncing error partial : SyncStatus

pub data ItemVisibility : Type 0 where
  visible quarantined hidden ingestion_error waiting : ItemVisibility

pub record MailboxSyncState : Type 0 where
  pub mailbox_profile_id : ℕ
  pub folder_name : Text
  pub uid_validity : Option ℕ
  pub last_seen_uid : Option ℕ
  pub last_sync_at : Option ℕ
  pub last_successful_sync_at : Option ℕ
  pub sync_status : SyncStatus
  pub last_error : Option Text
  pub last_sync_count : Option ℕ

pub record MailboxItem : Type 0 where
  pub id : ℕ
  pub mailbox_profile_id : ℕ
  pub folder_name : Text
  pub upstream_uid : ℕ
  pub uid_validity : Option ℕ
  pub message_id : Option ℕ
  pub rfc_message_id : Option Text
  pub visibility : ItemVisibility
  pub mindwall_uid : Option ℕ
  pub ingestion_error_note : Option Text

pub record Message : Type 0 where
  pub id : ℕ
  pub message_id : Option Text
  pub subject : Option Text
  pub from_address : Option Text
  pub date : Option ℕ
  pub text_plain : Option Text
  pub text_html_safe : Option Text
  pub raw_storage_path : Option Text

-- The tables that the IMAP proxy reads.
pub record MailTables : Type 0 where
  pub mailbox_profiles : List MailboxProfile
  pub mailbox_items : List MailboxItem
  pub messages : List Message
