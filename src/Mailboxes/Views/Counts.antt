-- ===== src/Mailboxes/Views/Counts.antt =====
-- app/mailboxes/view_service.py, `get_mailbox_item_counts`: the badges against the views.
use mind_wall.Prelude.{
  ℕ, suc, ◌+◌, ◌≤◌, ◌≡◌, refl, ◌∙◌, ap, Bool, true, ◌&&◌, Option, none, some, List, [], ◌∷◌, map,
  select, take, length, ◌==◌, arith,
}
use mind_wall.Prelude.Sorting.{sort, sort-length}
use mind_wall.Models.Mailboxes.{
  ItemVisibility, visible, quarantined, hidden, ingestion_error, waiting, MailboxItem, MailTables,
}
use mind_wall.Models.Session.{Session}
use mind_wall.Mailboxes.Views.{
  enriched, enrich, rows_with, is_visible, is_held, is_waiting, highest_first, lowest_first,
  get_visible_inbox, get_quarantine_inbox, get_pending_items, visibility_eq, group_count,
  get_mailbox_item_counts,
}
use mind_wall.Mailboxes.Views.Folders.{take-all, length-select}

-- `counts.get(visibility, 0)`.
abbrev pub or_zero : Option ℕ → ℕ
or_zero none = 0
or_zero (some n) = n

or_zero-group_count : (n : ℕ) → or_zero (group_count n) ≡ n
or_zero-group_count n = ground arith

-- The number of items of a profile with a visibility.
abbrev number : ℕ → ItemVisibility → List MailboxItem → ℕ
number profile v xs = length (
    select (λ (i : MailboxItem). i.mailbox_profile_id == profile && visibility_eq i.visibility v)
      xs)

number-visible :
    (profile : ℕ) (xs : List MailboxItem)
    → length (rows_with is_visible profile none xs) ≡ number profile visible xs
number-visible profile [] = refl
number-visible profile (i ∷ xs) = ground (arith, number-visible profile xs)

number-held :
    (profile : ℕ) (xs : List MailboxItem)
    → length (rows_with is_held profile none xs)
      ≡ number profile quarantined xs + number profile hidden xs
number-held profile [] = refl
number-held profile (i ∷ xs) = ground (arith, number-held profile xs)

number-waiting :
    (profile : ℕ) (xs : List MailboxItem)
    → length (rows_with is_waiting profile none xs) ≡ number profile waiting xs
number-waiting profile [] = refl
number-waiting profile (i ∷ xs) = ground (arith, number-waiting profile xs)

number-all :
    (profile : ℕ) (xs : List MailboxItem)
    → number profile visible xs
        + number profile quarantined xs
        + number profile hidden xs
        + number profile ingestion_error xs
        + number profile waiting xs
      ≡ length (select (λ (i : MailboxItem). i.mailbox_profile_id == profile) xs)
number-all profile [] = refl
number-all profile (i ∷ xs) = ground (arith, number-all profile xs)

length-map {ℓ κ} :
    {A : Type ℓ} {B : Type κ} (f : A → B) (xs : List A) → length (map f xs) ≡ length xs
length-map f [] = refl
length-map f (x ∷ xs) = ap suc (length-map f xs)

-- A view that its limit does not cut has as many items as rows.
view-length :
    (db : MailTables) (s : Session) (before : MailboxItem → MailboxItem → Bool)
    (wanted : ItemVisibility → Bool) (profile limit : ℕ)
    → length db.mailbox_items ≤ limit
    → length
        (enrich db s (take limit (sort before (rows_with wanted profile none db.mailbox_items))))
      ≡ length (rows_with wanted profile none db.mailbox_items)
unfolding enrich
view-length db s before wanted profile limit h =
    let rows = rows_with wanted profile none db.mailbox_items in
    let same = sort-length before rows in
    length-map (enriched db s) (take limit (sort before rows))
    ∙ ap length (
        take-all limit (sort before rows) (
          omega (
            arith,
            h,
            same,
            length-select
                (λ (i : MailboxItem).
                  i.mailbox_profile_id == profile && wanted i.visibility && true)
                db.mailbox_items,
          )))
    ∙ same

module _ (db : MailTables) (s : Session) (profile limit : ℕ) where
  abbrev count : ItemVisibility → ℕ
  count v = or_zero (get_mailbox_item_counts db profile v)

  count-number : (v : ItemVisibility) → count v ≡ number profile v db.mailbox_items
  unfolding get_mailbox_item_counts
  count-number v = or_zero-group_count _

  -- The counts of a mailbox are the sizes of its views, where the limit of the views does not cut
  -- them, and add up to the number of its items: a visible item is counted as visible, a held one as
  -- quarantined or hidden, a waiting one as pending, and no item twice.
  pub counts_add_up :
      length db.mailbox_items ≤ limit
      → (count visible ≡ length (get_visible_inbox db s profile none limit))
        × (count quarantined + count hidden ≡ length (get_quarantine_inbox db s profile none limit))
        × (count waiting ≡ length (get_pending_items db s profile limit))
        × (count visible + count quarantined + count hidden + count ingestion_error + count waiting
            ≡ length
                (select (λ (i : MailboxItem). i.mailbox_profile_id == profile) db.mailbox_items))
  unfolding get_visible_inbox get_quarantine_inbox get_pending_items
  counts_add_up h =
      let v = count-number visible in
      let q = count-number quarantined in
      let d = count-number hidden in
      let e = count-number ingestion_error in
      let w = count-number waiting in
      let items = db.mailbox_items in
      (
        omega (
          arith,
          v,
          number-visible profile items,
          view-length db s highest_first is_visible profile limit h,
        ),
        omega (
          arith,
          q,
          d,
          number-held profile items,
          view-length db s highest_first is_held profile limit h,
        ),
        omega (
          arith,
          w,
          number-waiting profile items,
          view-length db s lowest_first is_waiting profile limit h,
        ),
        omega (arith, v, q, d, e, w, number-all profile items),
      )
