-- ===== src/Sync/Uids.antt =====
-- app/mailboxes/sync_service.py: the rows that the sync writes, and their two kinds of UIDs.
use mind_wall.Prelude.{
  ℕ, ◌≤◌, ◌<◌, ◌≡◌, false, Option, none, some, List, [], ◌∷◌, ◌++◌, All, All-append, All-zip,
  All-map, find, find-none, Bool-cases, Option-cases, inl, inr, arith, ==_iff, Result, Result-cases,
  ok, err, take,
}
use mind_wall.Wire.{Text, codes}
use mind_wall.Models.Mailboxes.{
  MailboxItem, MailboxSyncState, ItemVisibility, ingestion_error, syncing,
}
use mind_wall.Sync.{
  SyncTables, Upstream, Job, Progress, of_uid, uid_already_mapped, uid_of, max_mindwall_uid,
  allocate_mindwall_uid, new_item, failed_uid, mapped_uid, ingested_uid, fetched_uid, sync_uid,
  at_lookup, at_fetch, at_failed_row, at_row, unexpected_uid, recorded_uid, count_quarantined,
  added_uid, new_uid, known_uid, sync_uids, new_uids, sync_selected, sync_with, put_state,
  sync_mailbox_folder, get_sync_state, with_validity, or_zero, verdict_to_visibility,
  verdict_or_allow,
}

-- Two rows, the earlier one first: they are of different messages of the upstream server, and in one
-- mailbox the later one has the greater Mindwall UID.
abbrev pub Apart : MailboxItem → MailboxItem → Type 0
Apart x y =
    (of_uid y.mailbox_profile_id y.folder_name y.upstream_uid x ≡ false)
    × (x.mailbox_profile_id ≡ y.mailbox_profile_id → uid_of x < uid_of y)

abbrev pub IsMapping : List MailboxItem → Type 0
IsMapping [] = Unit
IsMapping (x ∷ xs) = All (Apart x) xs × IsMapping xs

IsMapping-append :
    (xs : List MailboxItem) (y : MailboxItem)
    → IsMapping xs
    → All (λ x. Apart x y) xs
    → IsMapping (xs ++ y ∷ [])
IsMapping-append [] y h n = (tt, tt)
IsMapping-append (x ∷ xs) y h n =
    (All-append (Apart x) xs (y ∷ []) h.0 (n.0, tt), IsMapping-append xs y h.1 n.1)

le-max_mindwall_uid :
    (profile : ℕ) (xs : List MailboxItem)
    → All (λ x. x.mailbox_profile_id ≡ profile → uid_of x ≤ max_mindwall_uid profile xs) xs
le-max_mindwall_uid profile [] = tt
le-max_mindwall_uid profile (x ∷ xs) = (
  (λ e. ground (arith, e, ==_iff x.mailbox_profile_id profile)),
  All-map _ _ xs (λ y h e. ground (arith, h e)) (le-max_mindwall_uid profile xs),
)

module _ (u : Upstream) (job : Job) where
  -- A row for a UID that has none is apart from all others.
  new_item-Apart :
      (uid validity : ℕ) (id : Option ℕ) (rfc : Option Text) (visibility : ItemVisibility)
      (reason : Option Text)
      → (items : List MailboxItem) → uid_already_mapped job.profile_id job.folder uid items ≡ false
      → All (λ x. Apart x (new_item u job uid validity id rfc visibility reason items)) items
  unfolding uid_already_mapped allocate_mindwall_uid new_item
  new_item-Apart uid validity id rfc visibility reason items free =
      elim (Option-cases (find (of_uid job.profile_id job.folder uid) items)) [
        | inr (x, found) ↦ (let no = rw found at free in cc)
        | inl missing ↦
            All-zip _ _ _ items (λ x h k. (h, λ e. omega (arith, k e)))
              (find-none (of_uid job.profile_id job.folder uid) items missing)
              (le-max_mindwall_uid job.profile_id items)
      ]

  failed_uid-IsMapping :
      (validity uid : ℕ) (note line : Text) (p : Progress)
      → uid_already_mapped job.profile_id job.folder uid p.items ≡ false
      → IsMapping p.items
      → IsMapping (failed_uid u job validity uid note line p).items
  unfolding failed_uid recorded_uid unexpected_uid new_item
  failed_uid-IsMapping validity uid note line p free h =
      elim (Bool-cases (u.breaks uid at_failed_row)) [
        | inl t ↦ rw (t, failed_uid) h
        | inr f ↦
            rw (f, failed_uid)
              (IsMapping-append p.items _ h (
                new_item-Apart uid validity none none ingestion_error (some (take 1000 note))
                  p.items free))
      ]

  mapped_uid-IsMapping :
      (validity uid : ℕ) (message : ℕ × Option Text) (p : Progress)
      → uid_already_mapped job.profile_id job.folder uid p.items ≡ false
      → IsMapping p.items
      → IsMapping (mapped_uid u job validity uid message p).items
  unfolding mapped_uid unexpected_uid count_quarantined added_uid new_item
  mapped_uid-IsMapping validity uid (id, rfc) p free h = elim (Bool-cases (u.breaks uid at_row)) [
    | inl t ↦ rw (t, mapped_uid) h
    | inr f ↦
        rw (f, mapped_uid)
          (IsMapping-append p.items _ h (
            new_item-Apart uid validity (some id) rfc
              (verdict_to_visibility (verdict_or_allow (u.analyse id)) job.quarantine_soft_hold)
              none p.items free))
  ]

  ingested_uid-IsMapping :
      (validity uid : ℕ) (r : Result Text (ℕ × Option Text)) (p : Progress)
      → uid_already_mapped job.profile_id job.folder uid p.items ≡ false
      → IsMapping p.items
      → IsMapping (ingested_uid u job validity uid r p).items
  unfolding ingested_uid
  ingested_uid-IsMapping validity uid (err name) p free h =
      failed_uid-IsMapping validity uid (codes "Ingestion failed: " ++ name)
        (codes "ingestion error") p free h
  ingested_uid-IsMapping validity uid (ok message) p free h =
      mapped_uid-IsMapping validity uid message p free h

  fetched_uid-IsMapping :
      (validity uid : ℕ) (r : Result Text Text) (p : Progress)
      → uid_already_mapped job.profile_id job.folder uid p.items ≡ false
      → IsMapping p.items
      → IsMapping (fetched_uid u job validity uid r p).items
  unfolding fetched_uid
  fetched_uid-IsMapping validity uid (err message) p free h =
      failed_uid-IsMapping validity uid message message p free h
  fetched_uid-IsMapping validity uid (ok raw) p free h =
      ingested_uid-IsMapping validity uid (u.ingest raw) p free h

  new_uid-IsMapping :
      (validity uid : ℕ) (p : Progress)
      → uid_already_mapped job.profile_id job.folder uid p.items ≡ false
      → IsMapping p.items
      → IsMapping (new_uid u job validity uid p).items
  unfolding new_uid unexpected_uid
  new_uid-IsMapping validity uid p free h = elim (Bool-cases (u.breaks uid at_fetch)) [
    | inl t ↦ rw (t, new_uid) h
    | inr f ↦
        rw (f, new_uid) (fetched_uid-IsMapping validity uid (u.fetch_raw_message uid) p free h)
  ]

  sync_uid-IsMapping :
      (validity uid : ℕ) (p : Progress)
      → IsMapping p.items
      → IsMapping (sync_uid u job validity uid p).items
  unfolding sync_uid known_uid unexpected_uid
  sync_uid-IsMapping validity uid p h = elim (Bool-cases (u.breaks uid at_lookup)) [
    | inl t ↦ rw (t, sync_uid) h
    | inr f ↦ elim (Bool-cases (uid_already_mapped job.profile_id job.folder uid p.items)) [
      | inl t ↦ rw (f, t, sync_uid) h
      | inr free ↦ rw (f, free, sync_uid) (new_uid-IsMapping validity uid p free h)
    ]
  ]

  sync_uids-IsMapping :
      (validity : ℕ) (uids : List ℕ) (p : Progress)
      → IsMapping p.items
      → IsMapping (sync_uids u job validity uids p).items
  unfolding sync_uids
  sync_uids-IsMapping validity [] p h = h
  sync_uids-IsMapping validity (uid ∷ uids) p h =
      sync_uids-IsMapping validity uids (sync_uid u job validity uid p)
        (sync_uid-IsMapping validity uid p h)

  sync_selected-IsMapping :
      (validity : ℕ) (all_uids : List ℕ) (s : MailboxSyncState) (db : SyncTables)
      → IsMapping db.items
      → IsMapping (sync_selected u job validity all_uids s db).1.items
  unfolding sync_selected
  sync_selected-IsMapping validity all_uids s db h =
      elim (Result-cases (new_uids u job (or_zero u job s.last_seen_uid) all_uids)) [
        | inl (uids, e) ↦ rw (e, sync_selected) (sync_uids-IsMapping validity uids _ h)
        | inr (message, e) ↦ rw (e, sync_selected) h
      ]

  sync_with-IsMapping :
      (s : MailboxSyncState) (db : SyncTables)
      → IsMapping db.items
      → IsMapping (sync_with u job s db).1.items
  unfolding sync_with
  sync_with-IsMapping s db h = elim (Bool-cases u.decrypts) [
    | inr f ↦ rw (f, sync_with) h
    | inl t ↦ elim (Option-cases u.connect) [
      | inr (message, e) ↦ rw (t, e, sync_with) h
      | inl e ↦ elim (Result-cases u.select_folder) [
        | inr (message, r) ↦ rw (t, e, r, sync_with) h
        | inl ((validity, all_uids), r) ↦
            rw (t, e, r, sync_with)
              (sync_selected-IsMapping validity all_uids (with_validity u job validity s) db h)
      ]
    ]
  ]

  -- A run of the sync that begins with a mapping leaves one, however it ends: no two rows are of one
  -- UID of one upstream folder, and in each mailbox every row has a greater Mindwall UID than the rows before it.
  pub sync_mailbox_folder-IsMapping :
      (db : SyncTables) → IsMapping db.items → IsMapping (sync_mailbox_folder u job db).1.items
  unfolding sync_mailbox_folder
  sync_mailbox_folder-IsMapping db h =
      let (s, states) = get_sync_state job.profile_id job.folder db.states in
      let s' = record s { sync_status = syncing; last_sync_at = some job.now } in
      sync_with-IsMapping s' (record db { states = put_state s' states }) h
