-- ===== src/Mailboxes/Views.antt =====
-- app/mailboxes/view_service.py: the views of a mailbox for the web pages.
pub mod Folders
pub mod Counts
use mind_wall.Prelude.{
  ℕ, Bool, true, false, not, ◌&&◌, ◌||◌, Option, none, some, List, [], ◌∷◌, ◌++◌, map, select, find,
  take, length, ◌==◌, leb, if◌then◌else◌,
}
use mind_wall.Prelude.Sorting.{sort}
use mind_wall.Wire.{Text, text_eq}
use mind_wall.Models.Reviews.{QuarantineItem}
use mind_wall.Models.Analysing.{AnalysisRun}
use mind_wall.Models.Mailboxes.{
  ItemVisibility, visible, quarantined, hidden, ingestion_error, waiting, MailboxItem, Message,
  MailTables,
}
use mind_wall.Models.Session.{Session}
use mind_wall.Imap.Folders.{message_of}
use mind_wall.Quarantine.{of_message, items_of}
use mind_wall.Analysis.Service.{get_latest_analysis}

pub record VirtualInboxItem : Type 0 where
  pub mailbox_item : MailboxItem
  pub message : Option Message
  pub analysis : Option AnalysisRun
  pub quarantine_item : Option QuarantineItem

-- The last row that passes: a later row takes an earlier one's place in a dict.
abbrev find_last {ℓ} : {A : Type ℓ} → (A → Bool) → List A → Option A
find_last p [] = none
find_last p (x ∷ xs) = elim (find_last p xs) [
  | some y ↦ some y
  | none ↦ if p x then some x else none
]

-- The dicts of `_enrich` are read at the item's message, unless that is missing or 0.
abbrev at_message {ℓ} : {A : Type ℓ} → MailboxItem → (ℕ → Option A) → Option A
at_message item lookup = elim item.message_id [
  | none ↦ none
  | some id ↦ if id == 0 then none else lookup id
]

unfoldable pub enriched : MailTables → Session → MailboxItem → VirtualInboxItem
enriched db s item = record {
  mailbox_item = item;
  message = message_of db item;
  analysis = at_message item (λ id. get_latest_analysis id s);
  quarantine_item = at_message item (λ id. find_last (of_message id) (items_of s));
}

-- `_enrich`.
unfoldable pub enrich : MailTables → Session → List MailboxItem → List VirtualInboxItem
unfolding enriched
enrich db s items = map (enriched db s) items

abbrev pub in_named_folder : Option Text → MailboxItem → Bool
in_named_folder none item = true
in_named_folder (some name) item = text_eq item.folder_name name

abbrev pub highest_first : MailboxItem → MailboxItem → Bool
highest_first a b = leb b.upstream_uid a.upstream_uid

abbrev pub lowest_first : MailboxItem → MailboxItem → Bool
lowest_first a b = leb a.upstream_uid b.upstream_uid

abbrev pub is_visible : ItemVisibility → Bool
is_visible visible = true
is_visible _ = false

abbrev pub is_held : ItemVisibility → Bool
is_held quarantined = true
is_held hidden = true
is_held _ = false

abbrev pub is_waiting : ItemVisibility → Bool
is_waiting waiting = true
is_waiting _ = false

-- The rows of a query on the profile, the folder and the visibility.
abbrev pub rows_with :
    (ItemVisibility → Bool) → ℕ → Option Text → List MailboxItem → List MailboxItem
rows_with wanted profile folder = select (λ (i : MailboxItem).
    i.mailbox_profile_id == profile && wanted i.visibility && in_named_folder folder i)

-- `get_visible_inbox`.
unfoldable pub get_visible_inbox :
    MailTables → Session → ℕ → Option Text → ℕ → List VirtualInboxItem
unfolding enrich
get_visible_inbox db s profile folder limit =
    enrich db s
      (take limit (sort highest_first (rows_with is_visible profile folder db.mailbox_items)))

-- `get_quarantine_inbox`.
unfoldable pub get_quarantine_inbox :
    MailTables → Session → ℕ → Option Text → ℕ → List VirtualInboxItem
unfolding enrich
get_quarantine_inbox db s profile folder limit =
    enrich db s
      (take limit (sort highest_first (rows_with is_held profile folder db.mailbox_items)))

-- `get_pending_items`.
unfoldable pub get_pending_items : MailTables → Session → ℕ → ℕ → List VirtualInboxItem
unfolding enrich
get_pending_items db s profile limit =
    enrich db s
      (take limit (sort lowest_first (rows_with is_waiting profile none db.mailbox_items)))

-- `get_item_with_message`.
unfoldable pub get_item_with_message : MailTables → Session → ℕ → Option VirtualInboxItem
unfolding enriched
get_item_with_message db s item_id =
    elim (find (λ (i : MailboxItem). i.id == item_id) db.mailbox_items) [
      | none ↦ none
      | some item ↦ some (enriched db s item)
    ]

abbrev replace_mailbox_item : MailboxItem → List MailboxItem → List MailboxItem
replace_mailbox_item item [] = []
replace_mailbox_item item (x ∷ xs) =
    let rest = replace_mailbox_item item xs in if x.id == item.id then item ∷ rest else x ∷ rest

-- `update_item_visibility`.
unfoldable pub update_item_visibility :
    MailTables → MailboxItem → ItemVisibility → MailboxItem × MailTables
update_item_visibility db item visibility =
    let item' = record item { visibility = visibility } in
    (item', record db { mailbox_items = replace_mailbox_item item' db.mailbox_items })

abbrev pub visibility_eq : ItemVisibility → ItemVisibility → Bool
visibility_eq visible visible = true
visibility_eq quarantined quarantined = true
visibility_eq hidden hidden = true
visibility_eq ingestion_error ingestion_error = true
visibility_eq waiting waiting = true
visibility_eq _ _ = false

-- A group has a row in the result if it is not empty.
abbrev pub group_count : ℕ → Option ℕ
group_count n = if n == 0 then none else some n

-- `get_mailbox_item_counts`: the dict by visibility.
unfoldable pub get_mailbox_item_counts : MailTables → ℕ → ItemVisibility → Option ℕ
get_mailbox_item_counts db profile v = group_count (
    length (
      select (λ (i : MailboxItem). i.mailbox_profile_id == profile && visibility_eq i.visibility v)
        db.mailbox_items))
