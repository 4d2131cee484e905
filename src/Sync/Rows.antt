-- ===== src/Sync/Rows.antt =====
-- app/mailboxes/sync_service.py: the rows that a run adds.
use mind_wall.Prelude.{
  ℕ, ◌+◌, ◌≡◌, Option, none, some, List, [], ◌∷◌, ◌++◌, Bool-cases, Option-cases, inl, inr, arith,
  Result, Result-cases, ok, err, length, length-append, take, false,
}
use mind_wall.Wire.{Text, codes}
use mind_wall.Models.Mailboxes.{MailboxSyncState, ingestion_error, syncing}
use mind_wall.Sync.{
  SyncTables, SyncResult, Upstream, Job, Progress, uid_already_mapped, new_item, failed_uid,
  mapped_uid, ingested_uid, fetched_uid, sync_uid, Point, at_lookup, at_fetch, at_failed_row,
  at_row, recorded_uid, count_quarantined, added_uid, new_uid, known_uid, sync_uids, new_uids,
  sync_selected, sync_with, sync_mailbox_folder, with_validity, or_zero, empty_result, abort_sync,
  put_state, get_sync_state, verdict_to_visibility, verdict_or_allow,
}

module _ (u : Upstream) (job : Job)
    (steady : (uid : ℕ) (point : Point) → u.breaks uid point ≡ false) where
  -- The rows after a part of the loop are those before it and one for each UID that is newly counted as
  -- new or as failed.
  abbrev Added : Progress → Progress → Type 0
  Added p q =
      length q.items + p.result.new_messages + p.result.errors
      ≡ length p.items + q.result.new_messages + q.result.errors

  failed_uid-Added :
      (validity uid : ℕ) (note line : Text) (p : Progress)
      → Added p (failed_uid u job validity uid note line p)
  unfolding failed_uid recorded_uid
  failed_uid-Added validity uid note line p =
      let row =
        new_item u job uid validity none none ingestion_error (some (take 1000 note)) p.items in
      rw (steady uid at_failed_row, failed_uid) (omega (arith, length-append p.items (row ∷ [])))

  ingested_uid-Added :
      (validity uid : ℕ) (r : Result Text (ℕ × Option Text)) (p : Progress)
      → Added p (ingested_uid u job validity uid r p)
  unfolding ingested_uid mapped_uid added_uid count_quarantined
  ingested_uid-Added validity uid (ok (id, rfc)) p =
      let v = verdict_to_visibility (verdict_or_allow (u.analyse id)) job.quarantine_soft_hold in
      let row = new_item u job uid validity (some id) rfc v none p.items in
      rw (steady uid at_row, mapped_uid) (omega (arith, length-append p.items (row ∷ [])))
  ingested_uid-Added validity uid (err name) p =
      failed_uid-Added validity uid (codes "Ingestion failed: " ++ name) (codes "ingestion error") p

  fetched_uid-Added :
      (validity uid : ℕ) (r : Result Text Text) (p : Progress)
      → Added p (fetched_uid u job validity uid r p)
  unfolding fetched_uid
  fetched_uid-Added validity uid (ok raw) p = ingested_uid-Added validity uid (u.ingest raw) p
  fetched_uid-Added validity uid (err message) p = failed_uid-Added validity uid message message p

  sync_uid-Added : (validity uid : ℕ) (p : Progress) → Added p (sync_uid u job validity uid p)
  unfolding sync_uid known_uid new_uid
  sync_uid-Added validity uid p =
      elim (Bool-cases (uid_already_mapped job.profile_id job.folder uid p.items)) [
        | inl t ↦ rw (steady uid at_lookup, t, sync_uid) (omega arith)
        | inr f ↦
            rw (steady uid at_lookup, f, sync_uid)
              (rw (steady uid at_fetch, new_uid)
                (fetched_uid-Added validity uid (u.fetch_raw_message uid) p))
      ]

  sync_uids-Added :
      (validity : ℕ) (uids : List ℕ) (p : Progress) → Added p (sync_uids u job validity uids p)
  unfolding sync_uids
  sync_uids-Added validity [] p = omega arith
  sync_uids-Added validity (uid ∷ uids) p = omega (
    arith,
    sync_uid-Added validity uid p,
    sync_uids-Added validity uids (sync_uid u job validity uid p),
  )

  -- The rows of the table after a part of the run are those before it and one for each UID that the
  -- summary counts as new or as failed.
  abbrev Adds : SyncTables → SyncResult × SyncTables → Type 0
  Adds db (r, after) = length after.items ≡ length db.items + r.new_messages + r.errors

  sync_selected-Adds :
      (validity : ℕ) (all_uids : List ℕ) (s : MailboxSyncState) (db : SyncTables)
      → Adds db (sync_selected u job validity all_uids s db)
  unfolding sync_selected abort_sync
  sync_selected-Adds validity all_uids s db =
      let last_seen = or_zero u job s.last_seen_uid in
      elim (Result-cases (new_uids u job last_seen all_uids)) [
        | inl (uids, e) ↦
            (let start : Progress = record {
              items = db.items;
              result = empty_result u job;
              highest = last_seen;
            } in
              rw (e, sync_selected) (omega (arith, sync_uids-Added validity uids start)))
        | inr (message, e) ↦ rw (e, sync_selected) (omega arith)
      ]

  sync_with-Adds : (s : MailboxSyncState) (db : SyncTables) → Adds db (sync_with u job s db)
  unfolding sync_with abort_sync
  sync_with-Adds s db = elim (Bool-cases u.decrypts) [
    | inr f ↦ rw (f, sync_with) (omega arith)
    | inl t ↦ elim (Option-cases u.connect) [
      | inr (message, e) ↦ rw (t, e, sync_with) (omega arith)
      | inl e ↦ elim (Result-cases u.select_folder) [
        | inr (message, r) ↦ rw (t, e, r, sync_with) (omega arith)
        | inl ((validity, all_uids), r) ↦
            rw (t, e, r, sync_with)
              (sync_selected-Adds validity all_uids (with_validity u job validity s) db)
      ]
    ]
  ]

  -- A run of the sync, however it ends, in whose loop no exception is raised that the loop does not
  -- name, adds exactly one row for each UID that its summary counts as new or as failed.
  pub sync_mailbox_folder-length :
      (db : SyncTables)
      → let (r, after) = sync_mailbox_folder u job db in
        length after.items ≡ length db.items + r.new_messages + r.errors
  unfolding sync_mailbox_folder
  sync_mailbox_folder-length db =
      let (s, states) = get_sync_state job.profile_id job.folder db.states in
      let s' = record s { sync_status = syncing; last_sync_at = some job.now } in
      sync_with-Adds s' (record db { states = put_state s' states })
