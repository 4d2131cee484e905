-- ===== src/Quarantine.antt =====
-- app/quarantine/service.py: the lifecycle of quarantine items.
mod Rows
pub mod Reviewing
pub mod Transitions
pub mod Trail
pub mod Final
pub mod Repeats
pub use Rows.{status_eq, of_message, of_id, items_of, replace_item, put_item}
use Prim.Native.String.{◌++◌ as str_append}
use text.Mathlib.Text.{◌==◌ as str_eq}
use mind_wall.Prelude.{
  ℕ, String, Option, none, some, List, [], ◌∷◌, ◌++◌, map, Bool, true, false, not, ◌&&◌, ◌||◌, any,
  find, select, length, is_some, if◌then◌else◌, Result, ok, err, leb,
}
use mind_wall.Models.Numbers.{Float, FloatOps}
use mind_wall.Models.Verdicts
use mind_wall.Models.Verdicts.{Verdict, verdict_value}
use mind_wall.Models.Reviews.{
  QuarantineStatus, pending_review, in_review, released, false_positive, confirmed_malicious,
  deleted, status_value, QuarantineItem,
}
use mind_wall.Models.Session.{Session, NewId, commit}
use mind_wall.Audit.{EventData, record_event}
use mind_wall.Prelude.Sorting.{sort}

-- `_VALID_TRANSITIONS`: for each action the states it may be applied in, and the one it leads to.
unfoldable pub valid_transitions : List (String × List QuarantineStatus × QuarantineStatus)
valid_transitions =
    ("mark_in_review", pending_review ∷ [], in_review)
    ∷ ("release", pending_review ∷ in_review ∷ [], released)
    ∷ ("mark_false_positive", pending_review ∷ in_review ∷ [], false_positive)
    ∷ ("confirm_malicious", pending_review ∷ in_review ∷ [], confirmed_malicious)
    ∷ (
      "delete",
      pending_review ∷ in_review ∷ released ∷ false_positive ∷ confirmed_malicious ∷ [],
      deleted,
    )
    ∷ []

pub data ActionError : Type 0 where
  -- ValueError
  unknown_action : ActionError
  -- InvalidTransitionError
  invalid_transition : ActionError

-- `_VALID_TRANSITIONS[action]`.
unfoldable pub transition_of :
    String
    → List (String × List QuarantineStatus × QuarantineStatus)
    → Option (List QuarantineStatus × QuarantineStatus)
transition_of action [] = none
transition_of action ((a, from, target) ∷ rest) =
    if str_eq a action then some (from, target) else transition_of action rest

-- `should_quarantine`, with the set `_QUARANTINE_VERDICTS` written out.
unfoldable pub should_quarantine : Verdict → Bool → Bool
should_quarantine Verdict.quarantine quarantine_soft_hold = true
should_quarantine Verdict.escalate_to_admin quarantine_soft_hold = true
should_quarantine Verdict.reject quarantine_soft_hold = true
should_quarantine Verdict.soft_hold quarantine_soft_hold = quarantine_soft_hold
should_quarantine _ quarantine_soft_hold = false

-- A text that is neither `None` nor empty.
abbrev pub is_given : Option String → Bool
is_given none = false
is_given (some t) = not (str_eq t "")

abbrev pub text_of : Option String → String
text_of none = ""
text_of (some t) = t

-- `f"{item.notes}\n\n{note}" if item.notes else note`, where a note is given.
unfoldable pub append_note : Option String → Option String → Option String
append_note notes note =
    if is_given note
    then if is_given notes
      then some (str_append (text_of notes) (str_append "\n\n" (text_of note)))
      else note
    else notes

-- The arguments of a call that the request gives.
pub record ReviewRequest : Type 0 where
  pub action : String
  pub actor_user_id : Option ℕ
  pub note : Option String

-- The object after an accepted action: the new status, the review's provenance and the note.
unfoldable pub reviewed_item :
    ℕ → ReviewRequest → QuarantineStatus → QuarantineItem → QuarantineItem
unfolding append_note
reviewed_item now r target item =
    let marks = not (str_eq r.action "mark_in_review") || not (is_some item.reviewed_at) in
    record item {
      status = target;
      updated_at = now;
      reviewed_at = if marks then some now else item.reviewed_at;
      reviewed_by_user_id = if marks then r.actor_user_id else item.reviewed_by_user_id;
      notes = append_note item.notes r.note;
    }

-- The audit event of an accepted action.
unfoldable pub action_event : ReviewRequest → QuarantineStatus → QuarantineItem → EventData
action_event r target item = record {
  action = str_append "quarantine." r.action;
  target_type = "quarantine_item";
  target_id = item.id;
  actor_user_id = r.actor_user_id;
  from_status = some (status_value item.status);
  to_status = some (status_value target);
  note = r.note;
}

-- `apply_action`: validation first, then the writes, one audit event and one commit.
unfoldable pub apply_action :
    NewId
    → ℕ
    → QuarantineItem
    → ReviewRequest
    → Session
    → Result ActionError QuarantineItem × Session
unfolding reviewed_item action_event
apply_action new_id now item r s = elim (transition_of r.action valid_transitions) [
  | none ↦ (err unknown_action, s)
  | some (valid_from, target) ↦
      if any (status_eq item.status) valid_from
      then (let item' = reviewed_item now r target item in
          (
            ok item',
            commit (record_event new_id now (action_event r target item) (put_item item' s)),
          ))
      else (err invalid_transition, s)
]

-- What an analysis reports of a message.
pub record QuarantineCause : Type 0 where
  pub message_id : ℕ
  pub analysis_run_id : ℕ
  pub trigger_verdict : Verdict
  pub risk_score_snapshot : Option Float
  pub actor_user_id : Option ℕ

-- The note of a re-analysis.
unfoldable pub update_note : FloatOps → Option Float → Option Float → String
update_note ops (some old) (some new) =
    str_append "Re-analysis updated quarantine item. Risk: "
      (str_append (ops.fixed 3 old) (str_append " -> " (ops.fixed 3 new)))
update_note ops (some old) none = "Re-analysis updated quarantine item."
update_note ops none new = "Re-analysis updated quarantine item."

unfoldable pub updated_item : ℕ → QuarantineCause → QuarantineItem → QuarantineItem
updated_item now c item = record item {
  analysis_run_id = some c.analysis_run_id;
  risk_score_snapshot = c.risk_score_snapshot;
  trigger_verdict = c.trigger_verdict;
  updated_at = now;
}

unfoldable pub update_event : FloatOps → QuarantineCause → QuarantineItem → EventData
unfolding update_note
update_event ops c item = record {
  action = "quarantine.updated";
  target_type = "quarantine_item";
  target_id = item.id;
  actor_user_id = c.actor_user_id;
  from_status = some (status_value item.status);
  to_status = some (status_value item.status);
  note = some (update_note ops item.risk_score_snapshot c.risk_score_snapshot);
}

unfoldable pub created_item : ℕ → ℕ → QuarantineCause → QuarantineItem
created_item id now c = record {
  id = id;
  message_id = c.message_id;
  analysis_run_id = some c.analysis_run_id;
  status = pending_review;
  trigger_verdict = c.trigger_verdict;
  risk_score_snapshot = c.risk_score_snapshot;
  notes = none;
  reviewed_at = none;
  reviewed_by_user_id = none;
  created_at = now;
  updated_at = now;
}

unfoldable pub create_event : ℕ → QuarantineCause → EventData
create_event id c = record {
  action = "quarantine.created";
  target_type = "quarantine_item";
  target_id = id;
  actor_user_id = c.actor_user_id;
  from_status = none;
  to_status = some (status_value pending_review);
  note = some (
      str_append "Message quarantined. Verdict: "
        (str_append (verdict_value c.trigger_verdict) "."));
}

-- `get_or_create_quarantine_item`: the item and whether it is new. The caller commits.
unfoldable pub get_or_create_quarantine_item :
    FloatOps → NewId → ℕ → QuarantineCause → Session → (QuarantineItem × Bool) × Session
unfolding updated_item update_event created_item create_event
get_or_create_quarantine_item ops new_id now c s =
    elim (find (of_message c.message_id) (items_of s)) [
      | some item ↦
          (let item' = updated_item now c item in
            ((item', false), record_event new_id now (update_event ops c item) (put_item item' s)))
      | none ↦
          (let id = new_id (map (λ (x : QuarantineItem). x.id) (items_of s)) in
            let item = created_item id now c in
            (
              (item, true),
              record_event new_id now (create_event id c) (record s {
                work = record s.work { quarantine_items = items_of s ++ item ∷ [] };
              }),
            ))
    ]

abbrev newest_first : QuarantineItem → QuarantineItem → Bool
newest_first a b = leb b.created_at a.created_at

-- The filter of the inbox: a given status, or all that is not deleted.
abbrev pub listed : Option String → QuarantineItem → Bool
listed status_filter item =
    if is_given status_filter
    then str_eq (status_value item.status) (text_of status_filter)
    else not (status_eq item.status deleted)

unfoldable pub list_quarantine_items : Option String → Session → List QuarantineItem
list_quarantine_items status_filter s =
    sort newest_first (select (listed status_filter) (items_of s))

unfoldable pub get_quarantine_item_by_id : ℕ → Session → Option QuarantineItem
get_quarantine_item_by_id item_id s = find (of_id item_id) (items_of s)

unfoldable pub get_quarantine_item_for_message : ℕ → Session → Option QuarantineItem
get_quarantine_item_for_message message_id s = find (of_message message_id) (items_of s)

unfoldable pub count_pending_review : Session → ℕ
count_pending_review s = length (
    select
      (λ (x : QuarantineItem). status_eq x.status pending_review || status_eq x.status in_review)
      (items_of s))
