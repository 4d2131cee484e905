-- ===== src/Quarantine/Transitions.antt =====
-- app/quarantine/service.py, `apply_action`: the state machine that its docstring draws.
use text.Mathlib.TextEquality.{eq_iff}
use mind_wall.Prelude.{
  ℕ, String, ◌≡◌, refl, ◌≢◌, none, some, true, false, arith, ok, err, List, [], ◌∷◌, any, ◌↔◌, ◌⊎◌,
  inl, inr, Bool-cases, Option-cases,
}
use mind_wall.Models.Reviews.{
  QuarantineStatus, pending_review, in_review, released, false_positive, confirmed_malicious,
  deleted, QuarantineItem,
}
use mind_wall.Models.Session.{Session, NewId, commit}
use mind_wall.Audit.{record_event}
use mind_wall.Quarantine.{
  ReviewRequest, ActionError, unknown_action, invalid_transition, apply_action, reviewed_item,
  transition_of, valid_transitions, put_item, action_event, status_eq, get_quarantine_item_by_id,
}
use mind_wall.Quarantine.Reviewing.{IsReviewed, accepted-IsReviewed}

-- An item that an analyst has yet to decide on.
pub data IsUnderReview : QuarantineStatus → Type 0 where
  pending : IsUnderReview pending_review
  begun : IsUnderReview in_review

-- The transitions of the docstring: an action, the state before, the state after.
pub data Permitted (action : String) : QuarantineStatus → QuarantineStatus → Type 0 where
  begin_review : action ≡ "mark_in_review" → Permitted action pending_review in_review
  let_go :
      {from : QuarantineStatus}
      → action ≡ "release"
      → IsUnderReview from
      → Permitted action from released
  clear :
      {from : QuarantineStatus}
      → action ≡ "mark_false_positive"
      → IsUnderReview from
      → Permitted action from false_positive
  condemn :
      {from : QuarantineStatus}
      → action ≡ "confirm_malicious"
      → IsUnderReview from
      → Permitted action from confirmed_malicious
  discard :
      {from : QuarantineStatus} → action ≡ "delete" → from ≢ deleted → Permitted action from deleted

-- The table's row of each action.
row_begin_review :
    (a : String)
    → a ≡ "mark_in_review"
    → transition_of a valid_transitions ≡ some (pending_review ∷ [], in_review)
unfolding transition_of valid_transitions
row_begin_review a e = rw e

row_let_go :
    (a : String)
    → a ≡ "release"
    → transition_of a valid_transitions ≡ some (pending_review ∷ in_review ∷ [], released)
unfolding transition_of valid_transitions
row_let_go a e = rw e

row_clear :
    (a : String)
    → a ≡ "mark_false_positive"
    → transition_of a valid_transitions ≡ some (pending_review ∷ in_review ∷ [], false_positive)
unfolding transition_of valid_transitions
row_clear a e = rw e

row_condemn :
    (a : String)
    → a ≡ "confirm_malicious"
    → transition_of a valid_transitions
      ≡ some (pending_review ∷ in_review ∷ [], confirmed_malicious)
unfolding transition_of valid_transitions
row_condemn a e = rw e

abbrev not_deleted : List QuarantineStatus
not_deleted = pending_review ∷ in_review ∷ released ∷ false_positive ∷ confirmed_malicious ∷ []

row_discard :
    (a : String) → a ≡ "delete" → transition_of a valid_transitions ≡ some (not_deleted, deleted)
unfolding transition_of valid_transitions
row_discard a e = rw e

-- The sets of states of the table.
under_review :
    (from : QuarantineStatus)
    → any (status_eq from) (pending_review ∷ in_review ∷ []) ≡ true
    → IsUnderReview from
under_review pending_review h = pending
under_review in_review h = begun
under_review _ h = cc

under_review-any :
    {from : QuarantineStatus}
    → IsUnderReview from
    → any (status_eq from) (pending_review ∷ in_review ∷ []) ≡ true
under_review-any pending = refl
under_review-any begun = refl

any-not_deleted :
    (from : QuarantineStatus) → (any (status_eq from) not_deleted ≡ true) ↔ (from ≢ deleted)
any-not_deleted from = ground arith

only_pending :
    (from : QuarantineStatus)
    → any (status_eq from) (pending_review ∷ []) ≡ true
    → from ≡ pending_review
only_pending from h = ground arith

-- A row that is found is one of the five.
row-cases :
    (a : String) (valid_from : List QuarantineStatus) (target : QuarantineStatus)
    → transition_of a valid_transitions ≡ some (valid_from, target)
    → (a ≡ "mark_in_review") × (valid_from ≡ pending_review ∷ []) × (target ≡ in_review)
      ⊎ (a ≡ "release") × (valid_from ≡ pending_review ∷ in_review ∷ []) × (target ≡ released)
      ⊎ (a ≡ "mark_false_positive")
        × (valid_from ≡ pending_review ∷ in_review ∷ [])
        × (target ≡ false_positive)
      ⊎ (a ≡ "confirm_malicious")
        × (valid_from ≡ pending_review ∷ in_review ∷ [])
        × (target ≡ confirmed_malicious)
      ⊎ (a ≡ "delete") × (valid_from ≡ not_deleted) × (target ≡ deleted)
unfolding transition_of valid_transitions
row-cases a valid_from target found = ground (
  arith,
  eq_iff "mark_in_review" a,
  eq_iff "release" a,
  eq_iff "mark_false_positive" a,
  eq_iff "confirm_malicious" a,
  eq_iff "delete" a,
)

-- A row that is found, with a state of its set, is a transition of the docstring.
row-Permitted :
    (a : String) (from : QuarantineStatus) (valid_from : List QuarantineStatus)
    (target : QuarantineStatus)
    → transition_of a valid_transitions ≡ some (valid_from, target)
    → any (status_eq from) valid_from ≡ true
    → Permitted a from target
row-Permitted a from valid_from target found h = elim (row-cases a valid_from target found) [
  | inl (e, f, t) ↦ rw (t, only_pending from (rw f at h)) (begin_review e)
  | inr (inl (e, f, t)) ↦ rw t (let_go e (under_review from (rw f at h)))
  | inr (inr (inl (e, f, t))) ↦ rw t (clear e (under_review from (rw f at h)))
  | inr (inr (inr (inl (e, f, t)))) ↦ rw t (condemn e (under_review from (rw f at h)))
  | inr (inr (inr (inr (e, f, t)))) ↦ rw t (discard e ((any-not_deleted from).0 (rw f at h)))
]

-- A transition of the docstring has a row, with its state in the set.
Permitted-row :
    (a : String) {from target : QuarantineStatus}
    → Permitted a from target
    → (valid_from : List QuarantineStatus) × (transition_of a valid_transitions
        ≡ some (valid_from, target))
      × (any (status_eq from) valid_from ≡ true)
Permitted-row a (begin_review e) = (pending_review ∷ [], row_begin_review a e, refl)
Permitted-row a (let_go e u) = (pending_review ∷ in_review ∷ [], row_let_go a e, under_review-any u)
Permitted-row a (clear e u) = (pending_review ∷ in_review ∷ [], row_clear a e, under_review-any u)
Permitted-row a (condemn e u) =
    (pending_review ∷ in_review ∷ [], row_condemn a e, under_review-any u)
Permitted-row a (discard e n) = (not_deleted, row_discard a e, (any-not_deleted _).1 n)

module _ (new_id : NewId) (now : ℕ) (item : QuarantineItem) (r : ReviewRequest) (s : Session) where
  -- What a call does that is accepted.
  pub accepted_result :
      (valid_from : List QuarantineStatus) (target : QuarantineStatus)
      → transition_of r.action valid_transitions ≡ some (valid_from, target)
      → any (status_eq item.status) valid_from ≡ true
      → apply_action new_id now item r s ≡ (
        ok (reviewed_item now r target item),
        commit (
            record_event new_id now
              (action_event r target item)
              (put_item (reviewed_item now r target item) s)),
      )
  unfolding apply_action
  accepted_result valid_from target found h = rw (found, h, apply_action)

  unknown_result :
      transition_of r.action valid_transitions ≡ none
      → apply_action new_id now item r s ≡ (err unknown_action, s)
  unfolding apply_action
  unknown_result e = rw (e, apply_action)

  invalid_result :
      (valid_from : List QuarantineStatus) (target : QuarantineStatus)
      → transition_of r.action valid_transitions ≡ some (valid_from, target)
      → any (status_eq item.status) valid_from ≡ false
      → apply_action new_id now item r s ≡ (err invalid_transition, s)
  unfolding apply_action
  invalid_result valid_from target found h = rw (found, h, apply_action)

  -- The session after an accepted action.
  abbrev pub session_after : QuarantineStatus → Session
  session_after target = commit (
      record_event new_id now (action_event r target item)
        (put_item (reviewed_item now r target item) s))

  -- A call is accepted, with one target, or it raises and the session is as it was.
  pub apply_action-cases :
      ((target : QuarantineStatus) × Permitted r.action item.status target
        × (apply_action new_id now item r s
            ≡ (ok (reviewed_item now r target item), session_after target)))
      ⊎ ((e : ActionError) × (apply_action new_id now item r s ≡ (err e, s)))
  apply_action-cases = elim (Option-cases (transition_of r.action valid_transitions)) [
    | inl missing ↦ inr (unknown_action, unknown_result missing)
    | inr ((valid_from, target), found) ↦
        elim (Bool-cases (any (status_eq item.status) valid_from)) [
          | inl h ↦ inl (
            target,
            row-Permitted r.action item.status valid_from target found h,
            accepted_result valid_from target found h,
          )
          | inr h ↦ inr (invalid_transition, invalid_result valid_from target found h)
        ]
  ]

  pub apply_action_complete :
      (target : QuarantineStatus)
      → Permitted r.action item.status target
      → apply_action new_id now item r s
        ≡ (ok (reviewed_item now r target item), session_after target)
  apply_action_complete target p =
      let (valid_from, found, h) = Permitted-row r.action p in
      accepted_result valid_from target found h

  -- Where the item is the row of its id: every call makes a transition of the docstring or raises. A
  -- transition returns the item with the state after it, the time, who has reviewed it and the note;
  -- stores it as the row of the item; leaves the rows of other ids as they were; puts one event of it,
  -- with both states, behind the audit log; and commits. Where the call raises, no transition was
  -- permitted, and the session is as it was.
  pub apply_action_exact :
      get_quarantine_item_by_id item.id s ≡ some item
      → ((target : QuarantineStatus) × Permitted r.action item.status target
          × (item' : QuarantineItem) × (t : Session) × (apply_action new_id now item r s
              ≡ (ok item', t))
          × IsReviewed new_id now item r s target item' t)
        ⊎ (((target : QuarantineStatus) → ¬ Permitted r.action item.status target)
            × (e : ActionError) × (apply_action new_id now item r s ≡ (err e, s)))
  apply_action_exact found = elim apply_action-cases [
    | inl (target, permitted, done) ↦ inl (
      target,
      permitted,
      reviewed_item now r target item,
      session_after target,
      done,
      accepted-IsReviewed new_id now item r s target found,
    )
    | inr (e, raised) ↦ inr (λ target p. cc (raised, apply_action_complete target p), e, raised)
  ]
