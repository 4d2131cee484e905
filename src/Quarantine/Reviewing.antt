-- ===== src/Quarantine/Reviewing.antt =====
-- app/quarantine/service.py, `apply_action`: what an accepted action returns and leaves.
use Prim.Native.String.{◌++◌ as str_append}
use text.Mathlib.Text.{◌==◌ as str_eq}
use text.Mathlib.TextEquality.{eq_iff}
use mind_wall.Prelude.{
  ℕ, String, ◌≡◌, refl, ◌≢◌, Option, none, some, false, arith, List, [], ◌∷◌, ◌++◌, map, find, inl,
  inr, Bool-cases, Option-cases, ap, ◌∙◌,
}
use mind_wall.Models.Reviews.{QuarantineStatus, status_value, QuarantineItem, AuditEvent}
use mind_wall.Models.Session.{Session, NewId, commit}
use mind_wall.Audit.{record_event, event_row}
use mind_wall.Quarantine.{
  ReviewRequest, reviewed_item, put_item, action_event, is_given, text_of, append_note,
  get_quarantine_item_by_id, items_of, of_id, replace_item,
}

-- The row that is written is the one that its id finds then; other ids find what they did.
find-replaced :
    (item' item : QuarantineItem) (xs : List QuarantineItem)
    → item'.id ≡ item.id
    → find (of_id item.id) xs ≡ some item
    → find (of_id item.id) (replace_item item' xs) ≡ some item'
find-replaced item' item [] same found = cc
find-replaced item' item (x ∷ xs) same found = ground (arith, find-replaced item' item xs same)

find-other :
    (i : ℕ) (item : QuarantineItem) (xs : List QuarantineItem)
    → i ≢ item.id
    → find (of_id i) (replace_item item xs) ≡ find (of_id i) xs
find-other i item [] other = refl
find-other i item (x ∷ xs) other = ground (arith, find-other i item xs other)

module _ (new_id : NewId) (now : ℕ) (item : QuarantineItem) (r : ReviewRequest) (s : Session) where
  -- Who has reviewed the item, and when: an earlier review is kept where a review only begins.
  pub data IsStamped (item' : QuarantineItem) : Type 0 where
    decided :
        r.action ≢ "mark_in_review"
        → item'.reviewed_at ≡ some now
        → item'.reviewed_by_user_id ≡ r.actor_user_id
        → IsStamped item'
    first_seen :
        item.reviewed_at ≡ none
        → item'.reviewed_at ≡ some now
        → item'.reviewed_by_user_id ≡ r.actor_user_id
        → IsStamped item'
    seen_again :
        {before : ℕ}
        → r.action ≡ "mark_in_review"
        → item.reviewed_at ≡ some before
        → item'.reviewed_at ≡ some before
        → item'.reviewed_by_user_id ≡ item.reviewed_by_user_id
        → IsStamped item'

  -- The notes: a note that is given and not empty comes behind those that are there.
  pub data IsNoted (item' : QuarantineItem) : Type 0 where
    silent : is_given r.note ≡ false → item'.notes ≡ item.notes → IsNoted item'
    alone :
        {note : String}
        → r.note ≡ some note
        → is_given item.notes ≡ false
        → item'.notes ≡ some note
        → IsNoted item'
    appended :
        {old note : String}
        → r.note ≡ some note
        → item.notes ≡ some old
        → item'.notes ≡ some (str_append old (str_append "\n\n" note))
        → IsNoted item'

  -- The event of an accepted action.
  pub record IsLogged (target : QuarantineStatus) (e : AuditEvent) : Type 0 where
    pub action : e.action ≡ str_append "quarantine." r.action
    pub target_type : e.target_type ≡ "quarantine_item"
    pub target_id : e.target_id ≡ item.id
    pub actor : e.actor_user_id ≡ r.actor_user_id
    pub from_status : e.from_status ≡ some (status_value item.status)
    pub to_status : e.to_status ≡ some (status_value target)
    pub note : e.note ≡ r.note
    pub created_at : e.created_at ≡ now

  -- What an accepted action returns and leaves.
  pub record IsReviewed (target : QuarantineStatus) (item' : QuarantineItem) (t : Session)
      : Type 0 where
    pub status : item'.status ≡ target
    pub updated : item'.updated_at ≡ now
    pub stamped : IsStamped item'
    pub noted : IsNoted item'
    pub kept :
        (item'.message_id ≡ item.message_id)
        × (item'.analysis_run_id ≡ item.analysis_run_id)
        × (item'.trigger_verdict ≡ item.trigger_verdict)
        × (item'.risk_score_snapshot ≡ item.risk_score_snapshot)
        × (item'.created_at ≡ item.created_at)
    pub stored : get_quarantine_item_by_id item.id t ≡ some item'
    pub others :
        (i : ℕ) → i ≢ item.id → get_quarantine_item_by_id i t ≡ get_quarantine_item_by_id i s
    pub event : AuditEvent
    pub log : t.work.audit_events ≡ s.work.audit_events ++ event ∷ []
    pub logged : IsLogged target event
    pub committed : t.durable ≡ t.work

  reviewed_item-IsStamped :
      (target : QuarantineStatus) → IsStamped (reviewed_item now r target item)
  unfolding reviewed_item
  reviewed_item-IsStamped target = elim (Bool-cases (str_eq r.action "mark_in_review")) [
    | inr other ↦
        decided (λ e. ground (arith, other, e, eq_iff r.action "mark_in_review"))
          (rw (other, reviewed_item) refl) (rw (other, reviewed_item) refl)
    | inl begins ↦ elim (Option-cases item.reviewed_at) [
      | inl never ↦
          first_seen never (rw (begins, never, reviewed_item) refl)
            (rw (begins, never, reviewed_item) refl)
      | inr (before, seen) ↦
          seen_again ((eq_iff r.action "mark_in_review").0 begins) seen
            (rw (begins, seen, reviewed_item) refl) (rw (begins, seen, reviewed_item) refl)
    ]
  ]

  reviewed_item-IsNoted : (target : QuarantineStatus) → IsNoted (reviewed_item now r target item)
  unfolding reviewed_item append_note
  reviewed_item-IsNoted target = elim (Bool-cases (is_given r.note)) [
    | inr f ↦ silent f (rw (f, reviewed_item) refl)
    | inl t ↦ elim (Option-cases r.note) [
      | inl missing ↦ (let t' = rw missing at t in cc)
      | inr (n, given) ↦ elim (Bool-cases (is_given item.notes)) [
        | inr f ↦ alone given f (rw (t, f, reviewed_item) given)
        | inl u ↦ elim (Option-cases item.notes) [
          | inl missing ↦ (let u' = rw missing at u in cc)
          | inr (old, there) ↦ appended given there (
              rw (t, u, reviewed_item)
                (ap
                    (λ (o : Option String).
                      some (str_append (text_of o) (str_append "\n\n" (text_of r.note))))
                    there
                  ∙ ap
                      (λ (o : Option String). some (str_append old (str_append "\n\n" (text_of o))))
                      given))
        ]
      ]
    ]
  ]

  pub accepted-IsReviewed :
      (target : QuarantineStatus)
      → get_quarantine_item_by_id item.id s ≡ some item
      → IsReviewed target (reviewed_item now r target item) (
          commit (
            record_event new_id now
              (action_event r target item)
              (put_item (reviewed_item now r target item) s)))
  unfolding get_quarantine_item_by_id reviewed_item record_event commit action_event
  accepted-IsReviewed target found =
      let item' = reviewed_item now r target item in
      record {
        status = refl;
        updated = refl;
        stamped = reviewed_item-IsStamped target;
        noted = reviewed_item-IsNoted target;
        kept = (refl, refl, refl, refl, refl);
        stored = find-replaced item' item (items_of s) refl found;
        others = λ i n. find-other i item' (items_of s) n;
        event =
            event_row (new_id (map (λ (a : AuditEvent). a.id) s.work.audit_events)) now
              (action_event r target item);
        log = refl;
        logged = record {
          action = refl;
          target_type = refl;
          target_id = refl;
          actor = refl;
          from_status = refl;
          to_status = refl;
          note = refl;
          created_at = refl;
        };
        committed = refl;
      }
