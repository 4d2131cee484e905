-- ===== src/Examples/Syncing.antt =====
-- The sync.
use mind_wall.Prelude.{
  ◌+◌, ◌≡◌, refl, true, false, none, [], ◌∷◌, length, ok, err, ◌==◌, if◌then◌else◌,
}
use mind_wall.Wire.{codes}
use mind_wall.Sync.{
  SyncTables, Upstream, Job, Progress, empty_result, sync_uids, sync_mailbox_folder,
}
use mind_wall.Sync.Uids.{IsMapping, sync_mailbox_folder-IsMapping}
use mind_wall.Sync.Counts.{Counted, sync_uids-Counted}
use mind_wall.Sync.Rows.{sync_mailbox_folder-length}

-- A server with three messages, of which the second cannot be fetched; the analysis fails.
abbrev upstream : Upstream
upstream = record {
  decrypts = true;
  connect = none;
  select_folder = ok (9, 4 ∷ 5 ∷ 6 ∷ []);
  fetch_uids_in_range = λ n. ok [];
  fetch_raw_message = λ uid. if uid == 5 then err (codes "gone") else ok (codes "text");
  ingest = λ raw. ok (1, none);
  analyse = λ id. none;
  breaks = λ uid point. false;
  lower = λ t. t;
}

abbrev job : Job
job = record {
  profile_id = 7;
  folder = codes "INBOX";
  batch_size = 50;
  quarantine_soft_hold = false;
  now = 1;
  next_id = λ items. length items + 1;
}

abbrev no_rows : SyncTables
no_rows = record { states = []; items = [] }

sync_mailbox_folder-IsMapping_example : IsMapping (sync_mailbox_folder upstream job no_rows).1.items
sync_mailbox_folder-IsMapping_example = sync_mailbox_folder-IsMapping upstream job no_rows tt

sync_mailbox_folder-length_example :
    let (r, after) = sync_mailbox_folder upstream job no_rows in
    length after.items ≡ 0 + r.new_messages + r.errors
sync_mailbox_folder-length_example =
    sync_mailbox_folder-length upstream job (λ uid point. refl) no_rows

abbrev start : Progress
start = record { items = []; result = empty_result upstream job; highest = 3 }

-- An exception is raised when the last UID is looked up.
abbrev shaky : Upstream
shaky = record upstream { breaks = λ uid point. uid == 6 }

sync_uids-Counted_example : Counted 3 start (sync_uids shaky job 9 (4 ∷ 5 ∷ 6 ∷ []) start)
sync_uids-Counted_example = sync_uids-Counted shaky job 9 (4 ∷ 5 ∷ 6 ∷ []) start
