-- ===== src/Mailboxes/Views/Folders.antt =====
-- app/mailboxes/view_service.py against app/proxies/imap/mailbox.py: the web pages and the mail client
-- are shown the same items.
use mathlib.Core.List.{Perm}
use mathlib.Core.List.Perm
use mind_wall.Prelude.{
  ℕ, zero, suc, ◌≤◌, ◌≡◌, refl, ap, Bool, true, ◌&&◌, none, List, [], ◌∷◌, map, select, take,
  length, ◌==◌, Bool-cases, inl, inr, arith,
}
use mind_wall.Prelude.Sorting.{sort, sort-perm, sort-length}
use mind_wall.Models.Mailboxes.{ItemVisibility, MailboxItem, MailTables}
use mind_wall.Models.Session.{Session}
use mind_wall.Imap.Folders.{Folder, inbox, quarantine_folder, in_folder, load_items, uid_order}
use mind_wall.Mailboxes.Views.{
  VirtualInboxItem, enriched, enrich, rows_with, is_visible, is_held, highest_first,
  get_visible_inbox, get_quarantine_inbox,
}

abbrev pub shown_items : List VirtualInboxItem → List MailboxItem
shown_items = map (λ (v : VirtualInboxItem). v.mailbox_item)

shown_items-enrich :
    (db : MailTables) (s : Session) (items : List MailboxItem)
    → shown_items (enrich db s items) ≡ items
unfolding enrich enriched
shown_items-enrich db s [] = refl
shown_items-enrich db s (i ∷ items) = ap (λ is. i ∷ is) (shown_items-enrich db s items)

pub take-all {ℓ} : {A : Type ℓ} (n : ℕ) (xs : List A) → length xs ≤ n → take n xs ≡ xs
take-all zero [] h = refl
take-all zero (x ∷ xs) h = absurd (omega (arith, h))
take-all (suc n) [] h = refl
take-all (suc n) (x ∷ xs) h = ap (λ r. x ∷ r) (take-all n xs (omega (arith, h)))

pub length-select {ℓ} : {A : Type ℓ} (p : A → Bool) (xs : List A) → length (select p xs) ≤ length xs
length-select p [] = omega arith
length-select p (x ∷ xs) = elim (Bool-cases (p x)) [
  | inl t ↦ rw t (omega (arith, length-select p xs))
  | inr f ↦ rw f (omega (arith, length-select p xs))
]

-- The visibilities of a view of the web pages.
abbrev pub viewed : Folder → ItemVisibility → Bool
viewed inbox = is_visible
viewed quarantine_folder = is_held

viewed-in_folder :
    (f : Folder) (b : Bool) (v : ItemVisibility) → (b && viewed f v && true) ≡ (b && in_folder f v)
viewed-in_folder f b v = ground arith

rows_with-in_folder :
    (f : Folder) (profile : ℕ) (xs : List MailboxItem)
    → rows_with (viewed f) profile none xs
      ≡ select (λ (i : MailboxItem). i.mailbox_profile_id == profile && in_folder f i.visibility) xs
rows_with-in_folder f profile [] = refl
rows_with-in_folder f profile (i ∷ xs) =
    rw
      (
        viewed-in_folder f (i.mailbox_profile_id == profile) i.visibility,
        rows_with-in_folder f profile xs,
      )
      refl

-- The sorted rows within the limit are the items of the folder.
view-Perm :
    (f : Folder) (db : MailTables) (profile limit : ℕ)
    → length db.mailbox_items ≤ limit
    → Perm
        (take limit (sort highest_first (rows_with (viewed f) profile none db.mailbox_items)))
        (load_items db profile f)
unfolding load_items
view-Perm f db profile limit h =
    let rows = rows_with (viewed f) profile none db.mailbox_items in
    let within : length (sort highest_first rows) ≤ limit = omega (
      arith,
      h,
      sort-length highest_first rows,
      length-select
          (λ (i : MailboxItem). i.mailbox_profile_id == profile && viewed f i.visibility && true)
          db.mailbox_items,
    ) in
    rw (take-all limit (sort highest_first rows) within) (
      Perm.trans (sort-perm highest_first rows)
        (rw (rows_with-in_folder f profile db.mailbox_items) (Perm.symm (sort-perm uid_order _))))

-- With a limit that the rows do not reach, the visible inbox of the web pages has the items of the
-- INBOX of the mail client, and the quarantine inbox those of its quarantine folder, each as often, in
-- some order.
pub same_items :
    (db : MailTables) (s : Session) (profile limit : ℕ)
    → length db.mailbox_items ≤ limit
    → Perm (shown_items (get_visible_inbox db s profile none limit)) (load_items db profile inbox)
      × Perm
          (shown_items (get_quarantine_inbox db s profile none limit))
          (load_items db profile quarantine_folder)
unfolding get_visible_inbox get_quarantine_inbox
same_items db s profile limit h = (
  rw (shown_items-enrich db s _) (view-Perm inbox db profile limit h),
  rw (shown_items-enrich db s _) (view-Perm quarantine_folder db profile limit h),
)
