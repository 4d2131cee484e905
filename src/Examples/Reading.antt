-- ===== src/Examples/Reading.antt =====
-- The IMAP proxy.
use mathlib.Core.List.{Perm}
use mind_wall.Prelude.{
  ℕ, ◌≡◌, ◌<◌, ◌↔◌, refl, arith, none, some, List, [], ◌∷◌, ◌++◌, map, select, All,
}
use mind_wall.Wire.{Text, codes, is_space, strip}
use mind_wall.Models.Mailboxes.{visible, quarantined, MailboxItem, MailTables}
use mind_wall.Imap.Folders.{
  inbox, quarantine_folder, ImapMessage, ImapMailbox, exists, uid_next, normalize_folder,
  select_mailbox,
}
use mind_wall.Imap.Folders.Filter.{
  uids, seqs, count_from, client_uid, belongs, select_mailbox_exact,
}
use mind_wall.Imap.Folders.Uids.{lt-uid_next, folder_uid_validity_injective}
use mind_wall.Imap.Fetch.{extract_headers, extract_body}
use mind_wall.Imap.Fetch.Sections.{extract_headers-append-extract_body}
use mind_wall.Imap.Server.{Event, received, disconnected, greeted, dispatch}
use mind_wall.Imap.Server.Sound.{IsFine}
use mind_wall.Imap.Server.Safe.{dispatch-IsFine}
use mind_wall.Wire.Numerals.{pos, int_of}
use mind_wall.Wire.Splitting.{split_all, split_once}
use mind_wall.Imap.Auth.{ProxySession, session_of, authenticate_proxy_credentials}
use mind_wall.Imap.Auth.Genuine.{IsGenuine, authenticate_proxy_credentials_lem}
use mind_wall.Imap.Sets.{parse_seq_set}
use mind_wall.Imap.Server.Login.{login_line, welcome, dispatch-login}
use mind_wall.Imap.Sets.Range.{IsSeq, parse_seq_set-IsSeq}
use mind_wall.Examples.Concrete.{ascii, anna, same_text}

abbrev item_of : ℕ → ℕ → ℕ → MailboxItem
item_of id profile uid = record {
  id = id;
  mailbox_profile_id = profile;
  folder_name = codes "INBOX";
  upstream_uid = id;
  uid_validity = none;
  message_id = none;
  rfc_message_id = none;
  visibility = visible;
  mindwall_uid = some uid;
  ingestion_error_note = none;
}

-- Two items of the profile 7 in the inbox, one that is held, and one of another profile.
abbrev tables : MailTables
tables = record {
  mailbox_profiles = anna ∷ [];
  mailbox_items =
      item_of 1 7 2
      ∷ item_of 2 7 1
      ∷ record (item_of 3 7 3) { visibility = quarantined }
      ∷ item_of 4 8 1
      ∷ [];
  messages = [];
}

abbrev opened : ImapMailbox
opened = elim (select_mailbox ascii tables 7 (codes "inbox")) [
  | none ↦ record { name = quarantine_folder; uid_validity = 0; messages = [] }
  | some m ↦ m
]

select_mailbox_exact_example :
    Perm
      (uids opened.messages)
      (map client_uid (select (belongs 7 opened.name) tables.mailbox_items))
    × (seqs opened.messages ≡ count_from 1 (exists opened))
    × (normalize_folder (codes "inbox") ≡ some opened.name)
unfolding select_mailbox normalize_folder
select_mailbox_exact_example = select_mailbox_exact ascii tables 7 (codes "inbox") opened refl

lt-uid_next_example : All (λ (x : ImapMessage). x.uid < uid_next opened) opened.messages
lt-uid_next_example = lt-uid_next opened

folder_uid_validity_injective_example : (anna.id ≡ anna.id) × (inbox ≡ inbox)
folder_uid_validity_injective_example =
    folder_uid_validity_injective anna.id anna.id inbox inbox (ground arith) (ground arith) refl

abbrev letter : Text
letter = codes "Subject: hi\r\n\r\nhello"

extract_headers-append-extract_body_example : extract_headers letter ++ extract_body letter ≡ letter
extract_headers-append-extract_body_example = extract_headers-append-extract_body letter

-- The tables do not change.
abbrev Unchanged : MailTables → Type 0
Unchanged db = db ≡ tables

dispatch-IsFine_example :
    IsFine ascii same_text Unchanged
      (dispatch ascii same_text tables (codes "a LOGIN mw_anna secret") greeted)
dispatch-IsFine_example =
    dispatch-IsFine ascii same_text Unchanged tables refl (codes "a LOGIN mw_anna secret") greeted
      (tt, (refl, tt), tt)

abbrev talk : List (MailTables × Event)
talk =
    (tables, received (codes "a LOGIN mw_anna secret"))
    ∷ (tables, received (codes "b SELECT inbox"))
    ∷ (tables, received (codes "c UID FETCH 1:* (FLAGS)"))
    ∷ (tables, disconnected)
    ∷ []

abbrev session_of_anna : ProxySession
session_of_anna = session_of (codes "mw_anna") anna

authenticate_proxy_credentials_lem_example :
    (authenticate_proxy_credentials same_text (anna ∷ []) (codes "mw_anna") (codes "secret")
      ≡ some session_of_anna)
    ↔ IsGenuine same_text (anna ∷ []) (codes "mw_anna") (codes "secret") session_of_anna
authenticate_proxy_credentials_lem_example =
    authenticate_proxy_credentials_lem same_text (anna ∷ []) (codes "mw_anna") (codes "secret")
      session_of_anna

abbrev two_messages : ImapMailbox
two_messages = record opened { messages = message 1 ∷ message 2 ∷ [] }
  where
    message : ℕ → ImapMessage
    message n = record {
      uid = n;
      seq = n;
      size = 0;
      flags = [];
      raw_bytes = [];
      subject = none;
      from_address = none;
      date_str = none;
    }

parse_seq_set-IsSeq_example : All (IsSeq (exists two_messages)) (pos 1 ∷ pos 2 ∷ pos 2 ∷ [])
unfolding parse_seq_set exists split_all split_once strip int_of
parse_seq_set-IsSeq_example = parse_seq_set-IsSeq (codes "0:9,x,2") two_messages refl

dispatch-login_example :
    dispatch ascii same_text tables
      (login_line (codes "a1") (codes "mw_anna") (codes "secret"))
      greeted
    ≡ welcome (codes "a1") (codes "mw_anna") session_of_anna greeted
unfolding is_space authenticate_proxy_credentials
dispatch-login_example =
    dispatch-login ascii same_text tables greeted (codes "a1") (codes "mw_anna") (codes "secret")
      refl (refl, (refl, tt)) refl
