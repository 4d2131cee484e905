-- ===== src/Sync.antt =====
-- app/mailboxes/sync_service.py: pulling new messages of a folder.
pub mod Uids
pub mod Counts
pub mod Rows
use mind_wall.Prelude.{
  ℕ, zero, suc, ◌+◌, ◌-◌, Bool, true, false, not, ◌&&◌, ◌||◌, Option, none, some, List, [], ◌∷◌,
  ◌++◌, ◌==◌, ltb, length, take, drop, select, find, is_some, Result, ok, err, if◌then◌else◌,
}
use mind_wall.Wire.{Text, codes, text_eq, contains}
use mind_wall.Wire.Numerals.{show}
use mind_wall.Models.Verdicts
use mind_wall.Models.Verdicts.{Verdict}
use mind_wall.Models.Mailboxes.{
  SyncStatus, idle, syncing, error, partial, ItemVisibility, visible, quarantined, hidden,
  ingestion_error, waiting, MailboxSyncState, MailboxItem,
}
use mind_wall.Quarantine.{should_quarantine}

pub record SyncResult : Type 0 where
  pub new_messages : ℕ
  pub skipped : ℕ
  pub errors : ℕ
  pub quarantined_messages : ℕ
  pub failed_auth : Bool
  pub failed_connection : Bool
  pub error_summary : Option Text
  pub per_message_errors : List Text

-- The tables that the sync reads and writes.
pub record SyncTables : Type 0 where
  pub states : List MailboxSyncState
  pub items : List MailboxItem

-- Where the loop may meet an exception that it does not name: the lookup of the UID, the fetch of the
-- message, the row of a UID that failed, and the row of a message with its Mindwall UID.
pub data Point : Type 0 where
  at_lookup at_fetch at_failed_row at_row : Point

-- What a run asks of the rest: the decryption of the password, the upstream server (an error is the
-- text of its UpstreamImapError), the ingestion of a message (its id and its Message-ID, or the name of
-- an exception), the analysis (`none` where it raises), whether an exception that the loop does not name
-- is raised at a point for a UID, and lower case.
pub record Upstream : Type 0 where
  pub decrypts : Bool
  pub connect : Option Text
  pub select_folder : Result Text (ℕ × List ℕ)
  pub fetch_uids_in_range : ℕ → Result Text (List ℕ)
  pub fetch_raw_message : ℕ → Result Text Text
  pub ingest : Text → Result Text (ℕ × Option Text)
  pub analyse : ℕ → Option Verdict
  pub breaks : ℕ → Point → Bool
  pub lower : Text → Text

-- The arguments of a run, and the id that the next row gets.
pub record Job : Type 0 where
  pub profile_id : ℕ
  pub folder : Text
  pub batch_size : ℕ
  pub quarantine_soft_hold : Bool
  pub now : ℕ
  pub next_id : List MailboxItem → ℕ

abbrev pub of_folder : ℕ → Text → MailboxSyncState → Bool
of_folder profile_id folder s = s.mailbox_profile_id == profile_id && text_eq s.folder_name folder

abbrev pub new_state : ℕ → Text → MailboxSyncState
new_state profile_id folder = record {
  mailbox_profile_id = profile_id;
  folder_name = folder;
  uid_validity = none;
  last_seen_uid = none;
  last_sync_at = none;
  last_successful_sync_at = none;
  sync_status = idle;
  last_error = none;
  last_sync_count = none;
}

-- `get_sync_state`: the row, and the table with it.
unfoldable pub get_sync_state :
    ℕ → Text → List MailboxSyncState → MailboxSyncState × List MailboxSyncState
get_sync_state profile_id folder states = elim (find (of_folder profile_id folder) states) [
  | some s ↦ (s, states)
  | none ↦ (new_state profile_id folder, states ++ new_state profile_id folder ∷ [])
]

-- The object of the session is the row of its folder.
abbrev pub put_state : MailboxSyncState → List MailboxSyncState → List MailboxSyncState
put_state s [] = []
put_state s (x ∷ xs) =
    let rest = put_state s xs in
    if of_folder s.mailbox_profile_id s.folder_name x then s ∷ rest else x ∷ rest

abbrev pub of_uid : ℕ → Text → ℕ → MailboxItem → Bool
of_uid profile_id folder uid i =
    i.mailbox_profile_id == profile_id && text_eq i.folder_name folder && i.upstream_uid == uid

-- `_uid_already_mapped`; a pair of rows for the UID, which `scalar_one_or_none` refuses, is ruled out by
-- the table's unique constraint.
unfoldable pub uid_already_mapped : ℕ → Text → ℕ → List MailboxItem → Bool
uid_already_mapped profile_id folder uid items = is_some (find (of_uid profile_id folder uid) items)

abbrev pub larger : ℕ → ℕ → ℕ
larger a b = if ltb a b then b else a

abbrev pub uid_of : MailboxItem → ℕ
uid_of i = elim i.mindwall_uid [ none ↦ 0 | some u ↦ u ]

-- max(mindwall_uid) of the profile's rows, 0 where there is none.
abbrev pub max_mindwall_uid : ℕ → List MailboxItem → ℕ
max_mindwall_uid profile_id [] = 0
max_mindwall_uid profile_id (i ∷ is) =
    let rest = max_mindwall_uid profile_id is in
    if i.mailbox_profile_id == profile_id then larger (uid_of i) rest else rest

-- `_allocate_mindwall_uid`.
unfoldable pub allocate_mindwall_uid : ℕ → List MailboxItem → ℕ
allocate_mindwall_uid profile_id items = max_mindwall_uid profile_id items + 1

abbrev is_soft_hold : Verdict → Bool
is_soft_hold Verdicts.soft_hold = true
is_soft_hold Verdicts.allow = false
is_soft_hold Verdicts.allow_with_banner = false
is_soft_hold Verdicts.quarantine = false
is_soft_hold Verdicts.reject = false
is_soft_hold Verdicts.escalate_to_admin = false

-- `_verdict_to_visibility`.
unfoldable pub verdict_to_visibility : Verdict → Bool → ItemVisibility
unfolding should_quarantine
verdict_to_visibility verdict quarantine_soft_hold =
    if should_quarantine verdict quarantine_soft_hold
    then quarantined
    else if is_soft_hold verdict
    then hidden
    else visible

-- `_abort_sync`.
unfoldable pub abort_sync :
    Text → Bool → MailboxSyncState × SyncResult → MailboxSyncState × SyncResult
abort_sync message is_auth_failure (state, result) = (
  record state { sync_status = error; last_error = some (take 500 message) },
  record result {
    error_summary = some message;
    failed_auth = is_auth_failure || result.failed_auth;
    failed_connection = not is_auth_failure || result.failed_connection;
  },
)

-- The rows, the summary and the highest UID so far.
pub record Progress : Type 0 where
  pub items : List MailboxItem
  pub result : SyncResult
  pub highest : ℕ

abbrev pub verdict_or_allow : Option Verdict → Verdict
verdict_or_allow none = Verdicts.allow
verdict_or_allow (some v) = v

abbrev pub is_quarantined : ItemVisibility → ℕ
is_quarantined quarantined = 1
is_quarantined visible = 0
is_quarantined hidden = 0
is_quarantined ingestion_error = 0
is_quarantined waiting = 0

module _ (u : Upstream) (job : Job) where
  -- The row of a UID; its id and its Mindwall UID are those of the next row.
  unfoldable pub new_item :
      ℕ → ℕ → Option ℕ → Option Text → ItemVisibility → Option Text → List MailboxItem → MailboxItem
  unfolding allocate_mindwall_uid
  new_item uid uid_validity message_id rfc_message_id visibility note items = record {
    id = job.next_id items;
    mailbox_profile_id = job.profile_id;
    folder_name = job.folder;
    upstream_uid = uid;
    uid_validity = some uid_validity;
    message_id = message_id;
    rfc_message_id = rfc_message_id;
    visibility = visibility;
    mindwall_uid = some (allocate_mindwall_uid job.profile_id items);
    ingestion_error_note = note;
  }

  -- The catch-all of the loop: the UID is counted as failed, and has no row.
  unfoldable pub unexpected_uid : ℕ → Progress → Progress
  unfolding show
  unexpected_uid uid p = record p {
    result = record p.result {
      errors = p.result.errors + 1;
      per_message_errors =
          p.result.per_message_errors
          ++ (codes "UID " ++ show uid ++ codes ": unexpected error") ∷ [];
    };
  }

  -- `_record_failed_item` and the counts of a UID that failed.
  unfoldable pub recorded_uid : ℕ → ℕ → Text → Text → Progress → Progress
  unfolding new_item show
  recorded_uid uid_validity uid note line p = record p {
    items =
        p.items
        ++ new_item uid uid_validity none none ingestion_error (some (take 1000 note)) p.items ∷ [];
    result = record p.result {
      errors = p.result.errors + 1;
      per_message_errors =
          p.result.per_message_errors ++ (codes "UID " ++ show uid ++ codes ": " ++ line) ∷ [];
    };
  }

  unfoldable pub failed_uid : ℕ → ℕ → Text → Text → Progress → Progress
  unfolding unexpected_uid recorded_uid
  failed_uid uid_validity uid note line p =
      if u.breaks uid at_failed_row
      then unexpected_uid uid p
      else recorded_uid uid_validity uid note line p

  -- The count of a quarantined message, which comes before its row.
  unfoldable pub count_quarantined : ItemVisibility → Progress → Progress
  count_quarantined visibility p = record p {
    result = record p.result {
      quarantined_messages = p.result.quarantined_messages + is_quarantined visibility;
    };
  }

  -- The row of a message, its count and the checkpoint.
  unfoldable pub added_uid : ℕ → ℕ → ℕ × Option Text → ItemVisibility → Progress → Progress
  unfolding new_item
  added_uid uid_validity uid (message_id, rfc_message_id) visibility p = record p {
    items =
        p.items
        ++ new_item uid uid_validity (some message_id) rfc_message_id visibility none p.items ∷ [];
    result = record p.result { new_messages = p.result.new_messages + 1 };
    highest = larger p.highest uid;
  }

  -- A message that was ingested: the analysis, then the counts and the row.
  unfoldable pub mapped_uid : ℕ → ℕ → ℕ × Option Text → Progress → Progress
  unfolding verdict_to_visibility count_quarantined added_uid unexpected_uid
  mapped_uid uid_validity uid (message_id, rfc_message_id) p =
      let visibility =
        verdict_to_visibility (verdict_or_allow (u.analyse message_id)) job.quarantine_soft_hold in
      let counted = count_quarantined visibility p in
      if u.breaks uid at_row
      then unexpected_uid uid counted
      else added_uid uid_validity uid (message_id, rfc_message_id) visibility counted

  -- The fetch and the ingestion.
  unfoldable pub ingested_uid : ℕ → ℕ → Result Text (ℕ × Option Text) → Progress → Progress
  unfolding failed_uid mapped_uid
  ingested_uid uid_validity uid (ok message) p = mapped_uid uid_validity uid message p
  ingested_uid uid_validity uid (err name) p =
      failed_uid uid_validity uid (codes "Ingestion failed: " ++ name) (codes "ingestion error") p

  unfoldable pub fetched_uid : ℕ → ℕ → Result Text Text → Progress → Progress
  unfolding failed_uid ingested_uid
  fetched_uid uid_validity uid (ok raw) p = ingested_uid uid_validity uid (u.ingest raw) p
  fetched_uid uid_validity uid (err message) p = failed_uid uid_validity uid message message p

  -- The body of the loop for a UID that has no row.
  unfoldable pub new_uid : ℕ → ℕ → Progress → Progress
  unfolding fetched_uid unexpected_uid
  new_uid uid_validity uid p =
      if u.breaks uid at_fetch
      then unexpected_uid uid p
      else fetched_uid uid_validity uid (u.fetch_raw_message uid) p

  unfoldable pub known_uid : ℕ → Progress → Progress
  known_uid uid p = record p {
    result = record p.result { skipped = p.result.skipped + 1 };
    highest = larger p.highest uid;
  }

  -- The body of the loop.
  unfoldable pub sync_uid : ℕ → ℕ → Progress → Progress
  unfolding new_uid known_uid unexpected_uid uid_already_mapped
  sync_uid uid_validity uid p =
      if u.breaks uid at_lookup
      then unexpected_uid uid p
      else if uid_already_mapped job.profile_id job.folder uid p.items
      then known_uid uid p
      else new_uid uid_validity uid p

  -- The loop over the new UIDs.
  unfoldable pub sync_uids : ℕ → List ℕ → Progress → Progress
  unfolding sync_uid
  sync_uids uid_validity [] p = p
  sync_uids uid_validity (uid ∷ uids) p = sync_uids uid_validity uids (sync_uid uid_validity uid p)

  abbrev pub or_zero : Option ℕ → ℕ
  or_zero none = 0
  or_zero (some n) = n

  abbrev join_errors : List Text → Text
  join_errors [] = []
  join_errors (e ∷ []) = e
  join_errors (e ∷ f ∷ es) = e ++ codes "; " ++ join_errors (f ∷ es)

  -- The checkpoint and the status at the end.
  unfoldable pub finish_state : ℕ → Progress → MailboxSyncState → MailboxSyncState
  unfolding show
  finish_state last_seen p s =
      let r = p.result in
      let seen = record s {
        last_seen_uid = if ltb last_seen p.highest then some p.highest else s.last_seen_uid;
        last_sync_count = some r.new_messages;
      } in
      if ltb 0 r.errors && r.new_messages == 0
      then record seen {
        sync_status = error;
        last_error = some (join_errors (take 3 r.per_message_errors));
      }
      else if ltb 0 r.errors
      then record seen {
        sync_status = partial;
        last_error = some (show r.errors ++ codes " message(s) failed");
      }
      else record seen {
        sync_status = idle;
        last_error = none;
        last_successful_sync_at = some job.now;
      }

  -- The state of the folder with the UIDVALIDITY of the server; another one than before forgets the
  -- checkpoint.
  unfoldable pub with_validity : ℕ → MailboxSyncState → MailboxSyncState
  with_validity uid_validity s = record s {
    last_seen_uid = elim s.uid_validity [
      | none ↦ s.last_seen_uid
      | some old ↦ if old == uid_validity then s.last_seen_uid else none
    ];
    uid_validity = some uid_validity;
  }

  -- The UIDs of the run: the last ones of the folder at first, then those after the checkpoint.
  unfoldable pub new_uids : ℕ → List ℕ → Result Text (List ℕ)
  new_uids zero all_uids =
      ok
        (if job.batch_size == 0 then all_uids else drop (length all_uids - job.batch_size) all_uids)
  new_uids (suc last) all_uids = elim (u.fetch_uids_in_range (suc last + 1)) [
    | err message ↦ err message
    | ok uids ↦ ok (take job.batch_size uids)
  ]

  abbrev pub empty_result : SyncResult
  empty_result = record {
    new_messages = 0;
    skipped = 0;
    errors = 0;
    quarantined_messages = 0;
    failed_auth = false;
    failed_connection = false;
    error_summary = none;
    per_message_errors = [];
  }

  abbrev aborted : Text → Bool → MailboxSyncState → SyncTables → SyncResult × SyncTables
  aborted message is_auth s db =
      let (s', r) = abort_sync message is_auth (s, empty_result) in
      (r, record db { states = put_state s' db.states })

  -- From step 5 on.
  unfoldable pub sync_selected :
      ℕ → List ℕ → MailboxSyncState → SyncTables → SyncResult × SyncTables
  unfolding new_uids sync_uids finish_state abort_sync
  sync_selected uid_validity all_uids s db =
      let last_seen = or_zero s.last_seen_uid in
      elim (new_uids last_seen all_uids) [
        | err message ↦ aborted message false s db
        | ok uids ↦
            let p =
              sync_uids uid_validity uids
                (record { items = db.items; result = empty_result; highest = last_seen }) in
            (
              p.result,
              record { states = put_state (finish_state last_seen p s) db.states; items = p.items },
            )
      ]

  -- From step 2 on, with the state of the folder.
  unfoldable pub sync_with : MailboxSyncState → SyncTables → SyncResult × SyncTables
  unfolding sync_selected with_validity abort_sync contains
  sync_with s db =
      if not u.decrypts
      then aborted (codes "Failed to decrypt IMAP credentials.") true s db
      else elim u.connect [
        | some message ↦ aborted message (contains (codes "authentication") (u.lower message)) s db
        | none ↦ elim u.select_folder [
          | err message ↦ aborted message false s db
          | ok (uid_validity, all_uids) ↦
              sync_selected uid_validity all_uids (with_validity uid_validity s) db
        ]
      ]

  -- `sync_mailbox_folder`.
  unfoldable pub sync_mailbox_folder : SyncTables → SyncResult × SyncTables
  unfolding get_sync_state sync_with
  sync_mailbox_folder db =
      let (s, states) = get_sync_state job.profile_id job.folder db.states in
      let s' = record s { sync_status = syncing; last_sync_at = some job.now } in
      sync_with s' (record db { states = put_state s' states })
