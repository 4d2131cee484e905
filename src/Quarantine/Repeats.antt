-- ===== src/Quarantine/Repeats.antt =====
-- app/quarantine/service.py, `get_or_create_quarantine_item`: repeated reports of one message.
use mind_wall.Prelude.{
  ℕ, ◌≡◌, refl, ap, inl, inr, none, some, false, List, [], ◌∷◌, ◌++◌, find, find_passes, length,
  Option-cases, arith, ==_iff,
}
use mind_wall.Models.Numbers.{FloatOps}
use mind_wall.Models.Reviews.{QuarantineItem}
use mind_wall.Models.Session.{Session, NewId}
use mind_wall.Audit.{record_event}
use mind_wall.Quarantine.{
  QuarantineCause, get_or_create_quarantine_item, get_quarantine_item_for_message, items_of,
  replace_item, updated_item, of_message,
}

-- The row that a rewrite leaves is the one that the query finds.
find-replace_item :
    (m : ℕ) (item' item : QuarantineItem) (xs : List QuarantineItem)
    → item'.id ≡ item.id
    → item'.message_id ≡ m
    → find (of_message m) xs ≡ some item
    → find (of_message m) (replace_item item' xs) ≡ some item'
find-replace_item m item' item [] ei em found = cc
find-replace_item m item' item (x ∷ xs) ei em found =
    ground (arith, find-replace_item m item' item xs ei em)

length-replace_item :
    (item : QuarantineItem) (xs : List QuarantineItem) → length (replace_item item xs) ≡ length xs
length-replace_item item [] = refl
length-replace_item item (x ∷ xs) = ground (arith, length-replace_item item xs)

find-append_new :
    (m : ℕ) (item : QuarantineItem) (xs : List QuarantineItem)
    → item.message_id ≡ m
    → find (of_message m) xs ≡ none
    → find (of_message m) (xs ++ item ∷ []) ≡ some item
find-append_new m item [] em missing = ground arith
find-append_new m item (x ∷ xs) em missing = ground (arith, find-append_new m item xs em)

module _ (ops : FloatOps) (new_id : NewId) where
  -- After a report the message has an item, the one that the call returned.
  pub report_found :
      (now : ℕ) (c : QuarantineCause) (s : Session)
      → let ((item, created), t) = get_or_create_quarantine_item ops new_id now c s in
        get_quarantine_item_for_message c.message_id t ≡ some item
  unfolding get_or_create_quarantine_item get_quarantine_item_for_message record_event
  report_found now c s = elim (Option-cases (find (of_message c.message_id) (items_of s))) [
    | inl missing ↦
        rw (missing, get_or_create_quarantine_item)
          (find-append_new c.message_id _ (items_of s) refl missing)
    | inr (item, found) ↦
        rw (found, get_or_create_quarantine_item)
          (find-replace_item c.message_id (updated_item now c item) item (items_of s) refl
            ((==_iff item.message_id c.message_id).0
              (find_passes (of_message c.message_id) (items_of s) found))
            found)
  ]

  -- A report of a message that has an item writes to that item.
  report_again :
      (now : ℕ) (c : QuarantineCause) (s : Session) (item : QuarantineItem)
      → get_quarantine_item_for_message c.message_id s ≡ some item
      → let ((item', created), t) = get_or_create_quarantine_item ops new_id now c s in
        (created ≡ false)
        × (item' ≡ updated_item now c item)
        × (length (items_of t) ≡ length (items_of s))
  unfolding get_or_create_quarantine_item get_quarantine_item_for_message record_event
  report_again now c s item found =
      rw (found, get_or_create_quarantine_item)
        (refl, refl, length-replace_item (updated_item now c item) (items_of s))

  -- Two reports of one message leave one item: the second creates nothing, adds no row, and returns
  -- the first one's item, which is the row of the message then: its status, notes, reviewer, time of
  -- the review and time of creation are as they were, and its analysis, verdict and risk score are
  -- those of the second report.
  pub reported_twice :
      (now now' : ℕ) (c c' : QuarantineCause) (s : Session)
      → c'.message_id ≡ c.message_id
      → let ((item, _), t) = get_or_create_quarantine_item ops new_id now c s in
        let ((item', created'), u) = get_or_create_quarantine_item ops new_id now' c' t in
        (created' ≡ false)
        × (length (items_of u) ≡ length (items_of t))
        × (item'.id ≡ item.id)
        × (item'.status ≡ item.status)
        × (item'.notes ≡ item.notes)
        × (item'.reviewed_at ≡ item.reviewed_at)
        × (item'.reviewed_by_user_id ≡ item.reviewed_by_user_id)
        × (item'.created_at ≡ item.created_at)
        × (item'.analysis_run_id ≡ some c'.analysis_run_id)
        × (item'.trigger_verdict ≡ c'.trigger_verdict)
        × (item'.risk_score_snapshot ≡ c'.risk_score_snapshot)
        × (item'.updated_at ≡ now')
        × (get_quarantine_item_for_message c'.message_id u ≡ some item')
  unfolding updated_item
  reported_twice now now' c c' s e =
      let ((item, created), t) = get_or_create_quarantine_item ops new_id now c s in
      let (a, b, l) = report_again now' c' t item (rw e (report_found now c s)) in
      (
        a,
        l,
        ap (λ (x : QuarantineItem). x.id) b,
        ap (λ (x : QuarantineItem). x.status) b,
        ap (λ (x : QuarantineItem). x.notes) b,
        ap (λ (x : QuarantineItem). x.reviewed_at) b,
        ap (λ (x : QuarantineItem). x.reviewed_by_user_id) b,
        ap (λ (x : QuarantineItem). x.created_at) b,
        ap (λ (x : QuarantineItem). x.analysis_run_id) b,
        ap (λ (x : QuarantineItem). x.trigger_verdict) b,
        ap (λ (x : QuarantineItem). x.risk_score_snapshot) b,
        ap (λ (x : QuarantineItem). x.updated_at) b,
        report_found now' c' t,
      )
