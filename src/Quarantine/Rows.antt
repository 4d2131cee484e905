-- ===== src/Quarantine/Rows.antt =====
-- Reading and writing the rows of the table of quarantine items.
use mind_wall.Prelude.{ℕ, ◌≡◌, ◌↔◌, List, [], ◌∷◌, Bool, true, false, ◌==◌, if◌then◌else◌, arith}
use mind_wall.Models.Reviews.{
  QuarantineStatus, pending_review, in_review, released, false_positive, confirmed_malicious,
  deleted, QuarantineItem,
}
use mind_wall.Models.Session.{Session}

abbrev pub status_eq : QuarantineStatus → QuarantineStatus → Bool
status_eq pending_review pending_review = true
status_eq in_review in_review = true
status_eq released released = true
status_eq false_positive false_positive = true
status_eq confirmed_malicious confirmed_malicious = true
status_eq deleted deleted = true
status_eq _ _ = false

abbrev pub of_message : ℕ → QuarantineItem → Bool
of_message message_id item = item.message_id == message_id

abbrev pub of_id : ℕ → QuarantineItem → Bool
of_id id item = item.id == id

abbrev pub items_of : Session → List QuarantineItem
items_of s = s.work.quarantine_items

-- An object of the session that is written to is the row with its id.
abbrev pub replace_item : QuarantineItem → List QuarantineItem → List QuarantineItem
replace_item item [] = []
replace_item item (x ∷ xs) =
    let rest = replace_item item xs in if x.id == item.id then item ∷ rest else x ∷ rest

abbrev pub put_item : QuarantineItem → Session → Session
put_item item s = record s {
  work = record s.work { quarantine_items = replace_item item (items_of s) };
}

pub status_eq_iff : (a b : QuarantineStatus) → (status_eq a b ≡ true) ↔ (a ≡ b)
status_eq_iff a b = ground arith
