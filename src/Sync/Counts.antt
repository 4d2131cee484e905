-- ===== src/Sync/Counts.antt =====
-- app/mailboxes/sync_service.py: the counts of a run, and its checkpoint.
use mind_wall.Prelude.{
  ℕ, ◌+◌, ◌≤◌, ◌≡◌, Option, none, some, List, [], ◌∷◌, ◌++◌, Bool-cases, inl, inr, arith, Result,
  ok, err, length, length-append, take,
}
use mind_wall.Wire.{Text, codes}
use mind_wall.Models.Mailboxes.{ItemVisibility, ingestion_error}
use mind_wall.Sync.{
  Upstream, Job, Progress, uid_already_mapped, new_item, failed_uid, mapped_uid, ingested_uid,
  fetched_uid, sync_uid, at_lookup, at_fetch, at_failed_row, at_row, unexpected_uid, recorded_uid,
  count_quarantined, added_uid, new_uid, known_uid, sync_uids, verdict_to_visibility,
  is_quarantined, verdict_or_allow,
}

-- Every UID is counted once; each that is new has a row, and there are no other rows but those of UIDs
-- that failed; no more messages are quarantined than are new or failed; and the highest UID does not
-- fall.
abbrev pub Counted : ℕ → Progress → Progress → Type 0
Counted n p q =
    (q.result.new_messages + q.result.skipped + q.result.errors
      ≡ p.result.new_messages + p.result.skipped + p.result.errors + n)
    × (length p.items + q.result.new_messages ≤ length q.items + p.result.new_messages)
    × (length q.items + p.result.new_messages + p.result.errors
        ≤ length p.items + q.result.new_messages + q.result.errors)
    × (q.result.quarantined_messages + p.result.new_messages + p.result.errors
        ≤ p.result.quarantined_messages + q.result.new_messages + q.result.errors)
    × (p.highest ≤ q.highest)

module _ (u : Upstream) (job : Job) where
  unexpected_uid-Counted : (uid : ℕ) (p : Progress) → Counted 1 p (unexpected_uid u job uid p)
  unfolding unexpected_uid
  unexpected_uid-Counted uid p = (omega arith, omega arith, omega arith, omega arith, omega arith)

  recorded_uid-Counted :
      (validity uid : ℕ) (note line : Text) (p : Progress)
      → Counted 1 p (recorded_uid u job validity uid note line p)
  unfolding recorded_uid
  recorded_uid-Counted validity uid note line p =
      let row =
        new_item u job uid validity none none ingestion_error (some (take 1000 note)) p.items in
      (
        omega arith,
        omega (arith, length-append p.items (row ∷ [])),
        omega (arith, length-append p.items (row ∷ [])),
        omega arith,
        omega arith,
      )

  failed_uid-Counted :
      (validity uid : ℕ) (note line : Text) (p : Progress)
      → Counted 1 p (failed_uid u job validity uid note line p)
  unfolding failed_uid
  failed_uid-Counted validity uid note line p = elim (Bool-cases (u.breaks uid at_failed_row)) [
    | inl t ↦ rw (t, failed_uid) (unexpected_uid-Counted uid p)
    | inr f ↦ rw (f, failed_uid) (recorded_uid-Counted validity uid note line p)
  ]

  is_quarantined-bound : (v : ItemVisibility) → is_quarantined v ≤ 1
  is_quarantined-bound v = ground arith

  -- A quarantined message that has no row is counted as failed.
  broken_uid-Counted :
      (uid : ℕ) (v : ItemVisibility) (p : Progress)
      → Counted 1 p (unexpected_uid u job uid (count_quarantined u job v p))
  unfolding unexpected_uid count_quarantined
  broken_uid-Counted uid v p =
      (omega arith, omega arith, omega arith, omega (arith, is_quarantined-bound v), omega arith)

  added_uid-Counted :
      (validity uid : ℕ) (message : ℕ × Option Text) (v : ItemVisibility) (p : Progress)
      → Counted 1 p (added_uid u job validity uid message v (count_quarantined u job v p))
  unfolding added_uid count_quarantined
  added_uid-Counted validity uid (id, rfc) v p =
      let row = new_item u job uid validity (some id) rfc v none p.items in
      (
        omega arith,
        omega (arith, length-append p.items (row ∷ [])),
        omega (arith, length-append p.items (row ∷ [])),
        omega (arith, is_quarantined-bound v),
        ground arith,
      )

  mapped_uid-Counted :
      (validity uid : ℕ) (message : ℕ × Option Text) (p : Progress)
      → Counted 1 p (mapped_uid u job validity uid message p)
  unfolding mapped_uid
  mapped_uid-Counted validity uid (id, rfc) p =
      let v = verdict_to_visibility (verdict_or_allow (u.analyse id)) job.quarantine_soft_hold in
      elim (Bool-cases (u.breaks uid at_row)) [
        | inl t ↦ rw (t, mapped_uid) (broken_uid-Counted uid v p)
        | inr f ↦ rw (f, mapped_uid) (added_uid-Counted validity uid (id, rfc) v p)
      ]

  ingested_uid-Counted :
      (validity uid : ℕ) (r : Result Text (ℕ × Option Text)) (p : Progress)
      → Counted 1 p (ingested_uid u job validity uid r p)
  unfolding ingested_uid
  ingested_uid-Counted validity uid (ok message) p = mapped_uid-Counted validity uid message p
  ingested_uid-Counted validity uid (err name) p =
      failed_uid-Counted validity uid (codes "Ingestion failed: " ++ name) (codes "ingestion error")
        p

  fetched_uid-Counted :
      (validity uid : ℕ) (r : Result Text Text) (p : Progress)
      → Counted 1 p (fetched_uid u job validity uid r p)
  unfolding fetched_uid
  fetched_uid-Counted validity uid (ok raw) p = ingested_uid-Counted validity uid (u.ingest raw) p
  fetched_uid-Counted validity uid (err message) p =
      failed_uid-Counted validity uid message message p

  new_uid-Counted : (validity uid : ℕ) (p : Progress) → Counted 1 p (new_uid u job validity uid p)
  unfolding new_uid
  new_uid-Counted validity uid p = elim (Bool-cases (u.breaks uid at_fetch)) [
    | inl t ↦ rw (t, new_uid) (unexpected_uid-Counted uid p)
    | inr f ↦ rw (f, new_uid) (fetched_uid-Counted validity uid (u.fetch_raw_message uid) p)
  ]

  known_uid-Counted : (uid : ℕ) (p : Progress) → Counted 1 p (known_uid u job uid p)
  unfolding known_uid
  known_uid-Counted uid p = (omega arith, omega arith, omega arith, omega arith, ground arith)

  sync_uid-Counted : (validity uid : ℕ) (p : Progress) → Counted 1 p (sync_uid u job validity uid p)
  unfolding sync_uid
  sync_uid-Counted validity uid p = elim (Bool-cases (u.breaks uid at_lookup)) [
    | inl t ↦ rw (t, sync_uid) (unexpected_uid-Counted uid p)
    | inr f ↦ elim (Bool-cases (uid_already_mapped job.profile_id job.folder uid p.items)) [
      | inl t ↦ rw (f, t, sync_uid) (known_uid-Counted uid p)
      | inr new ↦ rw (f, new, sync_uid) (new_uid-Counted validity uid p)
    ]
  ]

  -- The loop counts every UID that it is given exactly once, as new, skipped or failed, also where an
  -- exception is raised that it does not name; it adds a row for each new UID, and no others but of
  -- UIDs that failed, one for each at most; no more messages are quarantined than are new or failed;
  -- and the checkpoint never falls.
  pub sync_uids-Counted :
      (validity : ℕ) (uids : List ℕ) (p : Progress)
      → Counted (length uids) p (sync_uids u job validity uids p)
  unfolding sync_uids
  sync_uids-Counted validity [] p =
      (omega arith, omega arith, omega arith, omega arith, omega arith)
  sync_uids-Counted validity (uid ∷ uids) p =
      let (a, b, d, e, f) = sync_uid-Counted validity uid p in
      let (a', b', d', e', f') = sync_uids-Counted validity uids (sync_uid u job validity uid p) in
      (
        omega (arith, a, a'),
        omega (arith, b, b'),
        omega (arith, d, d'),
        omega (arith, e, e'),
        omega (arith, f, f'),
      )
