-- ===== src/Imap/Folders/Filter.antt =====
-- app/proxies/imap/mailbox.py: what a client sees of a mailbox.
use mathlib.Core.List.{Perm}
use mathlib.Core.List.Perm
use mind_wall.Prelude.{
  ℕ, zero, suc, ◌≡◌, refl, ap, Bool, true, false, ◌&&◌, none, some, List, [], ◌∷◌, map, ◌==◌,
  select, arith, inl, inr, Option-cases, subst, length,
}
use mind_wall.Prelude.Sorting.{sort-perm}
use mind_wall.Wire.{Text}
use mind_wall.Models.Mailboxes.{
  ItemVisibility, visible, quarantined, hidden, ingestion_error, waiting, MailboxItem, MailTables,
}
use mind_wall.Imap.Folders.{
  Folder, inbox, quarantine_folder, in_folder, ImapMessage, ImapMailbox, Platform, normalize_folder,
  load_items, uid_order, build_imap_messages, folder_uid_validity, select_mailbox, exists,
}

-- The uid that a client is given for an item.
abbrev pub client_uid : MailboxItem → ℕ
client_uid item = elim item.mindwall_uid [ none ↦ item.id | some u ↦ u ]

abbrev pub uids : List ImapMessage → List ℕ
uids = map (λ m. m.uid)

abbrev pub seqs : List ImapMessage → List ℕ
seqs = map (λ m. m.seq)

abbrev pub count_from : ℕ → ℕ → List ℕ
count_from start zero = []
count_from start (suc n) = start ∷ count_from (suc start) n

-- The items of a profile that the folder's name promises: those that passed for the inbox, those
-- that are held for the other.
abbrev pub promised : Folder → ItemVisibility → Bool
promised inbox visible = true
promised inbox quarantined = false
promised inbox hidden = false
promised inbox ingestion_error = false
promised inbox waiting = false
promised quarantine_folder visible = false
promised quarantine_folder quarantined = true
promised quarantine_folder hidden = true
promised quarantine_folder ingestion_error = false
promised quarantine_folder waiting = false

abbrev pub belongs : ℕ → Folder → MailboxItem → Bool
belongs profile folder i = i.mailbox_profile_id == profile && promised folder i.visibility

in_folder-eq-promised : (f : Folder) (v : ItemVisibility) → in_folder f v ≡ promised f v
in_folder-eq-promised f v = ground arith

select-belongs :
    (profile : ℕ) (f : Folder) (items : List MailboxItem)
    → select
        (λ (i : MailboxItem). i.mailbox_profile_id == profile && in_folder f i.visibility)
        items
      ≡ select (belongs profile f) items
select-belongs profile f [] = refl
select-belongs profile f (i ∷ items) =
    rw (in_folder-eq-promised f i.visibility, select-belongs profile f items)

module _ (p : Platform) (db : MailTables) where
  uids-build :
      (seq : ℕ) (items : List MailboxItem)
      → uids (build_imap_messages p db seq items) ≡ map client_uid items
  unfolding build_imap_messages
  uids-build seq [] = refl
  uids-build seq (i ∷ items) = ap (λ us. client_uid i ∷ us) (uids-build (suc seq) items)

  seqs-build :
      (seq : ℕ) (items : List MailboxItem)
      → seqs (build_imap_messages p db seq items)
        ≡ count_from seq (length (build_imap_messages p db seq items))
  unfolding build_imap_messages
  seqs-build seq [] = refl
  seqs-build seq (i ∷ items) = ap (λ ns. seq ∷ ns) (seqs-build (suc seq) items)

  -- The mailbox that a known folder opens.
  abbrev opened : ℕ → Folder → ImapMailbox
  opened profile folder = record {
    name = folder;
    uid_validity = folder_uid_validity profile folder;
    messages = build_imap_messages p db 1 (load_items db profile folder);
  }

  select_mailbox-eq :
      (profile : ℕ) (name : Text) (m : ImapMailbox)
      → select_mailbox p db profile name ≡ some m
      → (folder : Folder) × (normalize_folder name ≡ some folder) × (opened profile folder ≡ m)
  unfolding select_mailbox
  select_mailbox-eq profile name m e = elim (Option-cases (normalize_folder name)) [
    | inl missing ↦ cc (rw (missing, select_mailbox) at e)
    | inr (folder, found) ↦ (folder, found, cc (rw (found, select_mailbox) at e))
  ]

  opened-uids :
      (profile : ℕ) (folder : Folder)
      → Perm
          (uids (opened profile folder).messages)
          (map client_uid (select (belongs profile folder) db.mailbox_items))
  unfolding load_items
  opened-uids profile folder = rw (uids-build 1 (load_items db profile folder)) (
      rw (← select-belongs profile folder db.mailbox_items)
        (Perm.map client_uid (sort-perm uid_order _)))

  -- A selected folder shows exactly the items of the profile that belong in it, each once, under
  -- their uids, and numbers them from 1 on without a gap.
  pub select_mailbox_exact :
      (profile : ℕ) (name : Text) (m : ImapMailbox)
      → select_mailbox p db profile name ≡ some m
      → Perm (uids m.messages) (map client_uid (select (belongs profile m.name) db.mailbox_items))
        × (seqs m.messages ≡ count_from 1 (exists m))
        × (normalize_folder name ≡ some m.name)
  unfolding exists
  select_mailbox_exact profile name m e =
      let (folder, found, q) = select_mailbox-eq profile name m e in
      subst
        (λ (o : ImapMailbox).
          Perm (uids o.messages) (map client_uid (select (belongs profile o.name) db.mailbox_items))
          × (seqs o.messages ≡ count_from 1 (length o.messages))
          × (normalize_folder name ≡ some o.name))
        q (opened-uids profile folder, seqs-build 1 (load_items db profile folder), found)
