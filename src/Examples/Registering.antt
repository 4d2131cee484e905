-- ===== src/Examples/Registering.antt =====
-- The profiles of mailboxes and their views.
use mathlib.Core.List.{Perm}
use mind_wall.Prelude.{
  ℕ, ◌+◌, ◌≡◌, ◌⊎◌, refl, arith, true, false, none, some, List, [], ◌∷◌, select, length, ◌==◌, ok,
  err,
}
use mind_wall.Wire.{Text, codes}
use mind_wall.Wire.Splitting.{split_all}
use mind_wall.Models.Mailboxes.{
  ssl_tls, starttls, ItemVisibility, visible, quarantined, hidden, ingestion_error, waiting,
  MailboxItem, MailboxProfile, MailTables,
}
use mind_wall.Models.Session.{empty_session}
use mind_wall.Imap.Auth.{authenticate_proxy_credentials, session_of}
use mind_wall.Imap.Folders.{inbox, quarantine_folder, load_items}
use mind_wall.Mailboxes.Profiles.{
  MailboxFormData, Encryptor, Secrets, decryption_failed, generate_proxy_username, new_profile,
  create_mailbox, with_password, reset_proxy_password, get_mailbox_by_id,
}
use mind_wall.Mailboxes.Profiles.Login.{created_logs_in, reset_proxy_password_lem}
use mind_wall.Mailboxes.Ownership.{others, here, next, reset, others_kept}
use mind_wall.Mailboxes.Connectivity.{Probe, test_mailbox_connectivity}
use mind_wall.Mailboxes.Outcome.{IsOutcome, probed, test_mailbox_connectivity_exact}
use mind_wall.Mailboxes.Views.{
  get_visible_inbox, get_quarantine_inbox, get_pending_items, get_mailbox_item_counts,
}
use mind_wall.Mailboxes.Views.Folders.{shown_items, same_items}
use mind_wall.Mailboxes.Views.Counts.{or_zero, counts_add_up}
use mind_wall.Examples.Concrete.{after_all, after_all-IsFresh, anna, same_text}

-- An encryption that puts a mark in front.
abbrev marked : Encryptor
marked = record { encrypt = λ t. 1 ∷ t; decrypt = λ t. elim t [ [] ↦ none | _ ∷ rest ↦ some rest ] }

-- Drawn secrets, with a hash that is the password itself.
abbrev drawn : Secrets
drawn = record {
  token_hex = codes "a1b2c3";
  token_urlsafe = codes "letmein";
  hash_password = λ t. t;
}

abbrev unchanged : Text → Text
unchanged t = t

abbrev form : MailboxFormData
form = record {
  display_name = codes "Bob";
  email_address = codes "bob@example.com";
  imap_host = codes "imap.example.com";
  imap_port = 993;
  imap_username = codes "bob";
  imap_password = codes "upstream";
  imap_security = ssl_tls;
  smtp_host = codes "smtp.example.com";
  smtp_port = 587;
  smtp_username = codes "bob";
  smtp_password = codes "upstream";
  smtp_security = starttls;
}

abbrev bob : MailboxProfile
bob = new_profile unchanged marked drawn 8 5 4 form

abbrev both_rows : List MailboxProfile
both_rows = anna ∷ bob ∷ []

abbrev bobs_name : Text
bobs_name = codes "mw_bob_a1b2c3"

created_logs_in_example :
    (bob.owner_id ≡ 4)
    × (bob.proxy_username ≡ some bobs_name)
    × (authenticate_proxy_credentials same_text both_rows bobs_name (codes "letmein")
        ≡ some (session_of bobs_name bob))
unfolding create_mailbox new_profile generate_proxy_username split_all
created_logs_in_example =
    created_logs_in same_text unchanged marked drawn after_all 5 4 form (anna ∷ []) refl refl

reset_proxy_password_lem_example :
    (authenticate_proxy_credentials same_text
        (reset_proxy_password drawn anna both_rows).1
        (codes "mw_anna")
        (codes "letmein")
      ≡ some (session_of (codes "mw_anna") (with_password drawn anna)))
    × ((old : Text)
        → same_text old (codes "letmein") ≡ some false
        → authenticate_proxy_credentials same_text
            (reset_proxy_password drawn anna both_rows).1
            (codes "mw_anna")
            old
          ≡ none)
unfolding new_profile reset_proxy_password
reset_proxy_password_lem_example =
    reset_proxy_password_lem same_text drawn (codes "mw_anna") anna both_rows refl refl

others_kept_example : others 4 (reset_proxy_password drawn bob both_rows).1 ≡ anna ∷ []
unfolding new_profile get_mailbox_by_id
others_kept_example =
    others_kept unchanged marked after_all after_all-IsFresh 4 both_rows
      (reset_proxy_password drawn bob both_rows).1 (((λ e. omega (arith, e)), tt), (tt, tt))
      (next here (reset 8 drawn refl))

abbrev answers : Probe
answers u = record { success = true; error_message = none }

abbrev times_out : Probe
times_out u = record { success = false; error_message = some (codes "SMTP connection timed out.") }

test_mailbox_connectivity_exact_example :
    ((word : Text) × (word' : Text) × (marked.decrypt bob.imap_password_enc ≡ some word)
      × (marked.decrypt bob.smtp_password_enc ≡ some word')
      × ((test_mailbox_connectivity marked answers times_out 6 10 bob both_rows).0
          ≡ ok (probed marked answers times_out 6 10 bob both_rows word word'))
      × IsOutcome marked answers times_out 6 10 bob both_rows same_text bobs_name
          (test_mailbox_connectivity marked answers times_out 6 10 bob both_rows).1
          (probed marked answers times_out 6 10 bob both_rows word word'))
    ⊎ (((marked.decrypt bob.imap_password_enc ≡ none)
          ⊎ (marked.decrypt bob.smtp_password_enc ≡ none))
        × ((test_mailbox_connectivity marked answers times_out 6 10 bob both_rows).0
            ≡ err decryption_failed)
        × ((test_mailbox_connectivity marked answers times_out 6 10 bob both_rows).1 ≡ both_rows))
unfolding new_profile generate_proxy_username split_all
test_mailbox_connectivity_exact_example =
    test_mailbox_connectivity_exact marked answers times_out 6 10 bob both_rows same_text bobs_name
      refl

abbrev item : ℕ → ItemVisibility → MailboxItem
item id v = record {
  id = id;
  mailbox_profile_id = 8;
  folder_name = codes "INBOX";
  upstream_uid = id;
  uid_validity = none;
  message_id = some id;
  rfc_message_id = none;
  visibility = v;
  mindwall_uid = some id;
  ingestion_error_note = none;
}

abbrev synced : MailTables
synced = record {
  mailbox_profiles = both_rows;
  mailbox_items = item 1 visible ∷ item 2 quarantined ∷ item 3 visible ∷ item 4 hidden ∷ [];
  messages = [];
}

same_items_example :
    Perm
      (shown_items (get_visible_inbox synced empty_session 8 none 100))
      (load_items synced 8 inbox)
    × Perm
        (shown_items (get_quarantine_inbox synced empty_session 8 none 100))
        (load_items synced 8 quarantine_folder)
same_items_example = same_items synced empty_session 8 100 (omega arith)

counts_add_up_example :
    (or_zero (get_mailbox_item_counts synced 8 visible)
      ≡ length (get_visible_inbox synced empty_session 8 none 100))
    × (or_zero (get_mailbox_item_counts synced 8 quarantined)
          + or_zero (get_mailbox_item_counts synced 8 hidden)
        ≡ length (get_quarantine_inbox synced empty_session 8 none 100))
    × (or_zero (get_mailbox_item_counts synced 8 waiting)
        ≡ length (get_pending_items synced empty_session 8 100))
    × (or_zero (get_mailbox_item_counts synced 8 visible)
          + or_zero (get_mailbox_item_counts synced 8 quarantined)
          + or_zero (get_mailbox_item_counts synced 8 hidden)
          + or_zero (get_mailbox_item_counts synced 8 ingestion_error)
          + or_zero (get_mailbox_item_counts synced 8 waiting)
        ≡ length (select (λ (i : MailboxItem). i.mailbox_profile_id == 8) synced.mailbox_items))
counts_add_up_example = counts_add_up synced empty_session 8 100 (omega arith)
