-- ===== src/Quarantine/Trail.antt =====
-- app/quarantine/service.py with app/audit/service.py: the audit log and the table of items.
use text.Mathlib.Text.{◌==◌ as str_eq}
use text.Mathlib.TextEquality.{eq_iff}
use mind_wall.Prelude.{
  ℕ, String, ◌≡◌, refl, ◌≢◌, inl, inr, Option, none, some, Bool, true, arith, List, [], ◌∷◌, ◌++◌,
  map, All, Bool-cases, Option-cases, if◌then◌else◌, ◌==◌, find, find-All, ==_iff, sym, ◌∙◌,
  All-append, All-zip, All-split, All-of_map, All-map, append-nil, append_assoc,
}
use mind_wall.Models.Numbers.{FloatOps}
use mind_wall.Models.Reviews.{status_value, QuarantineItem, AuditEvent}
use mind_wall.Models.Session.{Session, NewId, IsFresh, commit}
use mind_wall.Audit.{EventData, record_event, is_target}
use mind_wall.Quarantine.{
  ReviewRequest, QuarantineCause, apply_action, get_or_create_quarantine_item, items_of,
  reviewed_item, updated_item, created_item, action_event, replace_item, of_id,
  get_quarantine_item_by_id, of_message,
}
use mind_wall.Quarantine.Transitions.{apply_action-cases}

-- The status that a log tells of a quarantine item: the `to_status` of its last event.
abbrev pub trail_from : ℕ → Option String → List AuditEvent → Option String
trail_from id acc [] = acc
trail_from id acc (e ∷ es) =
    trail_from id (if is_target "quarantine_item" id e then e.to_status else acc) es

abbrev pub trail_status : ℕ → List AuditEvent → Option String
trail_status id = trail_from id none

-- Each event of the log starts from the status that the log before it tells.
abbrev pub IsChained : List AuditEvent → List AuditEvent → Type 0
IsChained before [] = Unit
IsChained before (e ∷ es) =
    (str_eq e.target_type "quarantine_item" ≡ true
      → e.from_status ≡ trail_status e.target_id before)
    × IsChained (before ++ e ∷ []) es

trail_from-append :
    (id : ℕ) (es : List AuditEvent) (acc : Option String) (e : AuditEvent)
    → trail_from id acc (es ++ e ∷ [])
      ≡ (if is_target "quarantine_item" id e then e.to_status else trail_from id acc es)
trail_from-append id [] acc e = refl
trail_from-append id (x ∷ es) acc e =
    trail_from-append id es (if is_target "quarantine_item" id x then x.to_status else acc) e

IsChained-append :
    (es before : List AuditEvent) (e : AuditEvent)
    → IsChained before es
    → (str_eq e.target_type "quarantine_item" ≡ true
        → e.from_status ≡ trail_status e.target_id (before ++ es))
    → IsChained before (es ++ e ∷ [])
IsChained-append [] before e c h = (rw append-nil at h, tt)
IsChained-append (x ∷ es) before e c h =
    (c.0, IsChained-append es (before ++ x ∷ []) e c.1 (rw append_assoc h))

-- In every state of the quarantine:
pub record IsAudited (items : List QuarantineItem) (events : List AuditEvent) : Type 0 where
  -- the log tells each item's status,
  pub tracked :
      All (λ (x : QuarantineItem). trail_status x.id events ≡ some (status_value x.status)) items
  -- it tells nothing of an id that no item has,
  pub untold :
      (id : ℕ) → All (λ (x : QuarantineItem). x.id ≢ id) items → trail_status id events ≡ none
  -- and it is a chain of transitions.
  pub chained : IsChained [] events

pub All-replace_item :
    (P Q : QuarantineItem → Type 0) (item : QuarantineItem) (xs : List QuarantineItem)
    → ((x : QuarantineItem) → x.id ≢ item.id → P x → Q x)
    → Q item
    → All P xs
    → All Q (replace_item item xs)
All-replace_item P Q item [] keep new h = tt
All-replace_item P Q item (x ∷ xs) keep new h = elim (Bool-cases (x.id == item.id)) [
  | inl e ↦ rw e (new, All-replace_item P Q item xs keep new h.1)
  | inr e ↦ rw e (keep x (ground arith) h.0, All-replace_item P Q item xs keep new h.1)
]

-- A rewritten row keeps its id.
pub All-ids-replace_item :
    (id : ℕ) (item : QuarantineItem) (xs : List QuarantineItem)
    → All (λ (x : QuarantineItem). x.id ≢ id) (replace_item item xs)
    → All (λ (x : QuarantineItem). x.id ≢ id) xs
All-ids-replace_item id item [] h = tt
All-ids-replace_item id item (x ∷ xs) h = elim (Bool-cases (x.id == item.id)) [
  | inl e ↦
      (let h' = rw e at h in
        (rw ((==_iff x.id item.id).0 e) h'.0, All-ids-replace_item id item xs h'.1))
  | inr e ↦ (let h' = rw e at h in (h'.0, All-ids-replace_item id item xs h'.1))
]

-- An event about an item says its new status and starts from the one that the log tells.
pub record Reports (item : QuarantineItem) (events : List AuditEvent) (e : AuditEvent)
    : Type 0 where
  pub type : e.target_type ≡ "quarantine_item"
  pub id : e.target_id ≡ item.id
  pub to : e.to_status ≡ some (status_value item.status)
  pub from : e.from_status ≡ trail_status item.id events

module _ (item : QuarantineItem) (events : List AuditEvent) (e : AuditEvent)
    (r : Reports item events e) where
  told_self : trail_status item.id (events ++ e ∷ []) ≡ some (status_value item.status)
  told_self =
      trail_from-append item.id events none e
      ∙ ground (arith, r.type, r.id, r.to, eq_iff e.target_type "quarantine_item")

  told_other : (id : ℕ) → id ≢ item.id → trail_status id (events ++ e ∷ []) ≡ trail_status id events
  told_other id n = trail_from-append id events none e ∙ ground (arith, r.id)

  still-IsChained : IsChained [] events → IsChained [] (events ++ e ∷ [])
  still-IsChained c = IsChained-append events [] e c (λ _. rw r.id r.from)

  IsAudited-replace :
      (items : List QuarantineItem)
      → ((id : ℕ) → All (λ (x : QuarantineItem). x.id ≢ id) items → item.id ≢ id)
      → IsAudited items events
      → IsAudited (replace_item item items) (events ++ e ∷ [])
  IsAudited-replace items present h = record {
    tracked = All-replace_item _ _ item items (λ x n t. told_other x.id n ∙ t) told_self h.tracked;
    untold = λ id n.
        (let n' = All-ids-replace_item id item items n in
          told_other id (λ q. present id n' (sym q)) ∙ h.untold id n');
    chained = still-IsChained h.chained;
  }

  IsAudited-add :
      (items : List QuarantineItem)
      → All (λ (x : QuarantineItem). x.id ≢ item.id) items
      → IsAudited items events
      → IsAudited (items ++ item ∷ []) (events ++ e ∷ [])
  IsAudited-add items fresh h = record {
    tracked =
        All-append _ items (item ∷ [])
          (All-zip _ _ _ items (λ x n t. told_other x.id n ∙ t) fresh h.tracked) (told_self, tt);
    untold = λ id n.
        (let (before, new) = All-split _ items (item ∷ []) n in
          told_other id (λ q. new.0 (sym q)) ∙ h.untold id before);
    chained = still-IsChained h.chained;
  }

-- An event about anything else tells nothing.
IsAudited-unrelated :
    (items : List QuarantineItem) (events : List AuditEvent) (e : AuditEvent)
    → e.target_type ≢ "quarantine_item"
    → IsAudited items events
    → IsAudited items (events ++ e ∷ [])
IsAudited-unrelated items events e n h = record {
  tracked = All-map _ _ items (λ x t. untouched x.id ∙ t) h.tracked;
  untold = λ id m. untouched id ∙ h.untold id m;
  chained =
      IsChained-append events [] e h.chained
        (λ t. absurd (n ((eq_iff e.target_type "quarantine_item").0 t)));
}
  where
    untouched : (id : ℕ) → trail_status id (events ++ e ∷ []) ≡ trail_status id events
    untouched id =
        trail_from-append id events none e
        ∙ ground (arith, n, eq_iff e.target_type "quarantine_item")

-- The tables of the quarantine.
abbrev pub IsAuditedSession : Session → Type 0
IsAuditedSession s = IsAudited s.work.quarantine_items s.work.audit_events

module _ (ops : FloatOps) (new_id : NewId) where
  -- What the program does to a session: a review of an item that was loaded by its id, a report of
  -- an analysis, an event about anything else, and a commit.
  pub data Step : Session → Session → Type 0 where
    review :
        {s : Session} (id now : ℕ) (item : QuarantineItem) (r : ReviewRequest)
        → get_quarantine_item_by_id id s ≡ some item
        → Step s (apply_action new_id now item r s).1
    report :
        {s : Session} (now : ℕ) (c : QuarantineCause)
        → Step s (get_or_create_quarantine_item ops new_id now c s).1
    other :
        {s : Session} (now : ℕ) (e : EventData)
        → e.target_type ≢ "quarantine_item"
        → Step s (record_event new_id now e s)
    save : {s : Session} → Step s (commit s)

  pub data Reach (s : Session) : Session → Type 0 where
    here : Reach s s
    next : {t u : Session} → Reach s t → Step t u → Reach s u

  module _ (fresh : IsFresh new_id) where
    -- The log tells the status of an item that a query finds, and its id is one of the table's.
    found_item :
        (p : QuarantineItem → Bool) (s : Session) {item : QuarantineItem}
        → find p (items_of s) ≡ some item
        → IsAuditedSession s
        → (trail_status item.id s.work.audit_events ≡ some (status_value item.status))
          × ((id : ℕ) → All (λ (x : QuarantineItem). x.id ≢ id) (items_of s) → item.id ≢ id)
    found_item p s found h = (
      (find-All _ p (items_of s) h.tracked found).0,
      λ id n. (find-All _ p (items_of s) n found).0,
    )

    apply_action-IsAudited :
        (id now : ℕ) (item : QuarantineItem) (r : ReviewRequest) (s : Session)
        → get_quarantine_item_by_id id s ≡ some item
        → IsAuditedSession s
        → IsAuditedSession (apply_action new_id now item r s).1
    unfolding get_quarantine_item_by_id record_event commit reviewed_item action_event
    apply_action-IsAudited id now item r s found h = elim (apply_action-cases new_id now item r s) [
      | inl (target, p, done) ↦
          (let (told, present) = found_item (of_id id) s found h in
            rw done (
              IsAudited-replace (reviewed_item now r target item) s.work.audit_events _
                (record { type = refl; id = refl; to = refl; from = sym told })
                s.work.quarantine_items present h))
      | inr (e, raised) ↦ rw raised h
    ]

    get_or_create-IsAudited :
        (now : ℕ) (c : QuarantineCause) (s : Session)
        → IsAuditedSession s
        → IsAuditedSession (get_or_create_quarantine_item ops new_id now c s).1
    unfolding get_or_create_quarantine_item record_event
    get_or_create-IsAudited now c s h =
        elim (Option-cases (find (of_message c.message_id) (items_of s))) [
          | inl missing ↦
              rw (missing, get_or_create_quarantine_item)
                (let id = new_id (map (λ (x : QuarantineItem). x.id) (items_of s)) in
                  let unused =
                    All-of_map (λ i. i ≢ id) (λ (x : QuarantineItem). x.id) (items_of s)
                      (fresh _) in
                  IsAudited-add (created_item id now c) s.work.audit_events _
                    (record { type = refl; id = refl; to = refl; from = sym (h.untold id unused) })
                    s.work.quarantine_items unused h)
          | inr (item, found) ↦
              rw (found, get_or_create_quarantine_item)
                (let (told, present) = found_item (of_message c.message_id) s found h in
                  IsAudited-replace (updated_item now c item) s.work.audit_events _
                    (record { type = refl; id = refl; to = refl; from = sym told })
                    s.work.quarantine_items present h)
        ]

    other-IsAudited :
        (now : ℕ) (e : EventData) (s : Session)
        → e.target_type ≢ "quarantine_item"
        → IsAuditedSession s
        → IsAuditedSession (record_event new_id now e s)
    unfolding record_event
    other-IsAudited now e s n h =
        IsAudited-unrelated s.work.quarantine_items s.work.audit_events _ n h

    Step-IsAudited : {s t : Session} → Step s t → IsAuditedSession s → IsAuditedSession t
    unfolding commit
    Step-IsAudited (review {s = s} id now item r found) h =
        apply_action-IsAudited id now item r s found h
    Step-IsAudited (report {s = s} now c) h = get_or_create-IsAudited now c s h
    Step-IsAudited (other {s = s} now e n) h = other-IsAudited now e s n h
    Step-IsAudited save h = h

    -- After any run of the program from a session that is audited, the log tells every item's
    -- status, tells nothing of an item that is not there, and each of its events about an item
    -- starts from the status that the events before it tell. The database gives fresh ids.
    pub Reach-IsAudited : {s t : Session} → IsAuditedSession s → Reach s t → IsAuditedSession t
    Reach-IsAudited h here = h
    Reach-IsAudited h (next r st) = Step-IsAudited st (Reach-IsAudited h r)
