-- ===== src/Imap/Folders.antt =====
-- app/proxies/imap/mailbox.py: the two virtual folders and what they hold.
pub mod Filter
pub mod Uids
use mind_wall.Prelude.{
  ℕ, zero, suc, ◌+◌, ◌*◌, ◌^◌, ◌%◌, Bool, true, false, ◌&&◌, Option, none, some, List, [], ◌∷◌,
  ◌++◌, map, ◌==◌, leb, ltb, if◌then◌else◌, length, select, find, take, get_elem?,
}
use mind_wall.Prelude.Sorting.{sort}
use mind_wall.Wire.{Text, codes, text_eq, upper}
use mind_wall.Models.Mailboxes.{
  ItemVisibility, visible, quarantined, hidden, ingestion_error, waiting, MailboxItem, Message,
  MailTables,
}

pub data Folder : Type 0 where
  inbox quarantine_folder : Folder

abbrev pub folder_name : Folder → Text
folder_name inbox = codes "INBOX"
folder_name quarantine_folder = codes "Mindwall/Quarantine"

abbrev pub in_folder : Folder → ItemVisibility → Bool
in_folder inbox visible = true
in_folder inbox _ = false
in_folder quarantine_folder quarantined = true
in_folder quarantine_folder hidden = true
in_folder quarantine_folder _ = false

pub record ImapMessage : Type 0 where
  pub uid : ℕ
  pub seq : ℕ
  pub size : ℕ
  pub flags : List Text
  pub raw_bytes : Text
  pub subject : Option Text
  pub from_address : Option Text
  pub date_str : Option Text

pub record ImapMailbox : Type 0 where
  pub name : Folder
  pub uid_validity : ℕ
  pub messages : List ImapMessage

unfoldable pub exists : ImapMailbox → ℕ
exists m = length m.messages

abbrev pub max_of : ℕ → List ℕ → ℕ
max_of m [] = m
max_of m (x ∷ xs) = max_of (if ltb m x then x else m) xs

-- `max(m.uid for m in messages)`, of a list that is not empty.
abbrev pub max_uid : List ImapMessage → ℕ
max_uid [] = 0
max_uid (m ∷ ms) = max_of m.uid (map (λ (x : ImapMessage). x.uid) ms)

abbrev pub next_of : List ImapMessage → ℕ
next_of [] = 1
next_of (m ∷ ms) = max_uid (m ∷ ms) + 1

unfoldable pub uid_next : ImapMailbox → ℕ
uid_next m = next_of m.messages

unfoldable pub by_uid : ℕ → ImapMailbox → Option ImapMessage
by_uid uid m = find (λ (x : ImapMessage). x.uid == uid) m.messages

-- `by_seq`: sequence numbers count from 1.
unfoldable pub by_seq : ℕ → ImapMailbox → Option ImapMessage
by_seq zero m = none
by_seq (suc i) m = get_elem? m.messages i

-- `_normalize_folder`.
unfoldable pub normalize_folder : Text → Option Folder
unfolding upper
normalize_folder name =
    if text_eq (upper name) (codes "INBOX")
    then some inbox
    else if text_eq (upper name) (upper (codes "Mindwall/Quarantine"))
    then some quarantine_folder
    else none

-- `_folder_uid_validity`; `& 0x7FFFFFFF` is the remainder by 2 ^ 31.
unfoldable pub folder_uid_validity : ℕ → Folder → ℕ
folder_uid_validity mailbox_profile_id inbox = (0x4D574C30 + mailbox_profile_id * 2) % 2 ^ 31
folder_uid_validity mailbox_profile_id quarantine_folder =
    (0x4D574C30 + mailbox_profile_id * 2 + 1) % 2 ^ 31

-- ORDER BY mindwall_uid ASC NULLS LAST, id ASC.
abbrev pub uid_order : MailboxItem → MailboxItem → Bool
uid_order a b = elim a.mindwall_uid [
  | none ↦ elim b.mindwall_uid [ none ↦ leb a.id b.id | some v ↦ false ]
  | some u ↦ elim b.mindwall_uid [
    | none ↦ true
    | some v ↦ if u == v then leb a.id b.id else ltb u v
  ]
]

-- `_load_items`.
unfoldable pub load_items : MailTables → ℕ → Folder → List MailboxItem
load_items db mailbox_profile_id folder = sort uid_order (
    select
      (λ (i : MailboxItem).
        i.mailbox_profile_id == mailbox_profile_id && in_folder folder i.visibility)
      db.mailbox_items)

-- What the platform and the message store give: reading a file of the store under the root (`none`
-- where it is missing or cannot be read), UTF-8, and the rendering of a date.
pub record Platform : Type 0 where
  pub read_raw : Option (Text → Option Text)
  pub encode_utf8 : Text → Text
  pub decode_utf8 : Text → Text
  pub format_date : ℕ → Text

-- A column that is set and not empty.
abbrev pub filled : Option Text → Bool
filled none = false
filled (some []) = false
filled (some (c ∷ s)) = true

abbrev pub or_empty : Option Text → Text
or_empty none = []
or_empty (some t) = t

abbrev pub crlf : Text
crlf = 13 ∷ 10 ∷ []

-- `"\r\n".join(lines)`.
abbrev pub join_lines : List Text → Text
join_lines [] = []
join_lines (l ∷ []) = l
join_lines (l ∷ m ∷ ls) = l ++ crlf ++ join_lines (m ∷ ls)

abbrev header_line : Text → Option Text → List Text
header_line name value = if filled value then (name ++ or_empty value) ∷ [] else []

-- `_synthesise_message`.
unfoldable pub synthesise_message : Platform → Option Message → Text
synthesise_message p none =
    p.encode_utf8
      (join_lines (codes "Subject: [Unavailable]" ∷ [] ∷ codes "(Message data not available)" ∷ []))
synthesise_message p (some m) =
    let body = if filled m.text_plain then or_empty m.text_plain else or_empty m.text_html_safe in
    p.encode_utf8 (
      join_lines (
        header_line (codes "From: ") m.from_address
        ++ header_line (codes "Subject: ") m.subject
        ++ elim m.date [ none ↦ [] | some d ↦ (codes "Date: " ++ p.format_date d) ∷ [] ]
        ++ header_line (codes "Message-ID: ") m.message_id
        ++ [] ∷ take 4096 body ∷ []))

-- `_load_raw_bytes`.
unfoldable pub load_raw_bytes : Platform → Option Message → Text
unfolding synthesise_message
load_raw_bytes p none = synthesise_message p none
load_raw_bytes p (some m) =
    if filled m.raw_storage_path
    then elim p.read_raw [
      | none ↦ synthesise_message p (some m)
      | some read ↦ elim (read (or_empty m.raw_storage_path)) [
        | none ↦ synthesise_message p (some m)
        | some bytes ↦ bytes
      ]
    ]
    else synthesise_message p (some m)

-- `messages_by_id.get(item.message_id) if item.message_id else None`.
unfoldable pub message_of : MailTables → MailboxItem → Option Message
message_of db item = elim item.message_id [
  | none ↦ none
  | some id ↦ if id == 0 then none else find (λ (m : Message). m.id == id) db.messages
]

unfoldable pub imap_message : Platform → MailTables → ℕ → MailboxItem → ImapMessage
unfolding load_raw_bytes message_of
imap_message p db seq item =
    let message = message_of db item in
    let raw = load_raw_bytes p message in
    record {
      uid = elim item.mindwall_uid [ none ↦ item.id | some u ↦ u ];
      seq = seq;
      size = length raw;
      flags = codes "\\Seen" ∷ [];
      raw_bytes = raw;
      subject = elim message [ none ↦ none | some m ↦ m.subject ];
      from_address = elim message [ none ↦ none | some m ↦ m.from_address ];
      date_str = elim message [
        | none ↦ none
        | some m ↦ elim m.date [ none ↦ none | some d ↦ some (p.format_date d) ]
      ];
    }

-- The loop of `_build_imap_messages`, from a sequence number on.
unfoldable pub build_imap_messages : Platform → MailTables → ℕ → List MailboxItem → List ImapMessage
unfolding imap_message
build_imap_messages p db seq [] = []
build_imap_messages p db seq (item ∷ items) =
    imap_message p db seq item ∷ build_imap_messages p db (suc seq) items

-- `select_mailbox`.
unfoldable pub select_mailbox : Platform → MailTables → ℕ → Text → Option ImapMailbox
unfolding normalize_folder load_items build_imap_messages folder_uid_validity
select_mailbox p db mailbox_profile_id name = elim (normalize_folder name) [
  | none ↦ none
  | some folder ↦ some (record {
    name = folder;
    uid_validity = folder_uid_validity mailbox_profile_id folder;
    messages = build_imap_messages p db 1 (load_items db mailbox_profile_id folder);
  })
]
