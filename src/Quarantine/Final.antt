-- ===== src/Quarantine/Final.antt =====
-- app/quarantine/service.py: decisions that last, and the growth of the log.
use mind_wall.Prelude.{
  ℕ, String, ◌≡◌, refl, ◌≢◌, ◌⊎◌, inl, inr, sym, ap, ◌∙◌, some, List, [], ◌∷◌, ◌++◌, map, All,
  All-append, All-split, All-of_map, subst, find, find-All, Option-cases, append-nil, append_assoc,
  arith,
}
use mind_wall.Models.Numbers.{FloatOps}
use mind_wall.Models.Reviews.{
  QuarantineStatus, confirmed_malicious, deleted, QuarantineItem, AuditEvent,
}
use mind_wall.Models.Session.{Session, NewId, IsFresh, commit}
use mind_wall.Audit.{record_event}
use mind_wall.Quarantine.{
  ReviewRequest, QuarantineCause, apply_action, get_or_create_quarantine_item, items_of,
  replace_item, reviewed_item, updated_item, created_item, of_id, of_message,
  get_quarantine_item_by_id,
}
use mind_wall.Quarantine.Transitions.{
  Permitted, begin_review, let_go, clear, condemn, discard, pending, begun, apply_action-cases,
}
use mind_wall.Quarantine.Trail.{
  Step, review, report, other, save, Reach, here, next, All-replace_item, All-ids-replace_item,
}

-- The rows with an id are there, and all in the set.
pub record StaysIn (P : QuarantineStatus → Type 0) (id : ℕ) (s : Session) : Type 0 where
  pub present : ¬ All (λ (x : QuarantineItem). x.id ≢ id) (items_of s)
  pub inside : All (λ (x : QuarantineItem). x.id ≡ id → P x.status) (items_of s)

module _ (P : QuarantineStatus → Type 0)
    (closed : (action : String) (from target : QuarantineStatus)
      → Permitted action from target
      → P from
      → P target)
    (id : ℕ) where
  -- A row is written that is in the set if it has the id.
  replace-StaysIn :
      (item : QuarantineItem) (s t : Session)
      → items_of t ≡ replace_item item (items_of s)
      → (item.id ≡ id → P item.status)
      → StaysIn P id s
      → StaysIn P id t
  replace-StaysIn item s t e p h = record {
    present = λ n. h.present (All-ids-replace_item id item (items_of s) (rw e at n));
    inside = rw e (All-replace_item _ _ item (items_of s) (λ x n q. q) p h.inside);
  }

  module _ (ops : FloatOps) (new_id : NewId) (fresh : IsFresh new_id) where
    apply_action-StaysIn :
        (i now : ℕ) (item : QuarantineItem) (r : ReviewRequest) (s : Session)
        → get_quarantine_item_by_id i s ≡ some item
        → StaysIn P id s
        → StaysIn P id (apply_action new_id now item r s).1
    unfolding get_quarantine_item_by_id record_event commit reviewed_item
    apply_action-StaysIn i now item r s found h = elim (apply_action-cases new_id now item r s) [
      | inl (target, p, done) ↦ rw done (
          replace-StaysIn (reviewed_item now r target item) s _ refl
            (λ e.
              closed r.action item.status target p
                ((find-All _ (of_id i) (items_of s) h.inside found).0 e))
            h)
      | inr (e, raised) ↦ rw raised h
    ]

    get_or_create-StaysIn :
        (now : ℕ) (c : QuarantineCause) (s : Session)
        → StaysIn P id s
        → StaysIn P id (get_or_create_quarantine_item ops new_id now c s).1
    unfolding get_or_create_quarantine_item record_event
    get_or_create-StaysIn now c s h =
        elim (Option-cases (find (of_message c.message_id) (items_of s))) [
          | inl missing ↦
              rw (missing, get_or_create_quarantine_item)
                (let new = new_id (map (λ (x : QuarantineItem). x.id) (items_of s)) in
                  let unused =
                    All-of_map (λ k. k ≢ new) (λ (x : QuarantineItem). x.id) (items_of s)
                      (fresh _) in
                  record {
                    present =
                        λ n. h.present (All-split _ (items_of s) (created_item new now c ∷ []) n).0;
                    inside = All-append _ (items_of s) (created_item new now c ∷ []) h.inside (
                      (λ e. absurd (
                          h.present (
                            subst (λ k. All (λ (x : QuarantineItem). x.id ≢ k) (items_of s)) e
                              unused))),
                      tt,
                    );
                  })
          | inr (item, found) ↦
              rw (found, get_or_create_quarantine_item)
                (replace-StaysIn (updated_item now c item) s _ refl
                  (find-All _ (of_message c.message_id) (items_of s) h.inside found).0 h)
        ]

    Step-StaysIn : {s t : Session} → Step ops new_id s t → StaysIn P id s → StaysIn P id t
    unfolding record_event commit
    Step-StaysIn (review {s = s} i now item r found) h = apply_action-StaysIn i now item r s found h
    Step-StaysIn (report {s = s} now c) h = get_or_create-StaysIn now c s h
    Step-StaysIn (other {s = s} now e n) h = record { present = h.present; inside = h.inside }
    Step-StaysIn save h = record { present = h.present; inside = h.inside }

    pub Reach-StaysIn : {s t : Session} → Reach ops new_id s t → StaysIn P id s → StaysIn P id t
    Reach-StaysIn here h = h
    Reach-StaysIn (next r st) h = Step-StaysIn st (Reach-StaysIn r h)

-- Condemned, or deleted after that.
abbrev pub IsCondemned : QuarantineStatus → Type 0
IsCondemned status = (status ≡ confirmed_malicious) ⊎ (status ≡ deleted)

IsCondemned-closed :
    (action : String) (from target : QuarantineStatus)
    → Permitted action from target
    → IsCondemned from
    → IsCondemned target
IsCondemned-closed action from target (begin_review e) h = ground arith
IsCondemned-closed action from target (let_go e pending) h = ground arith
IsCondemned-closed action from target (let_go e begun) h = ground arith
IsCondemned-closed action from target (clear e pending) h = ground arith
IsCondemned-closed action from target (clear e begun) h = ground arith
IsCondemned-closed action from target (condemn e u) h = inl refl
IsCondemned-closed action from target (discard e n) h = inr refl

-- An item that an analyst has confirmed as malicious stays so, or is deleted, whatever reviews,
-- re-analyses and other events follow: it is never released. The database gives fresh ids.
pub IsCondemned-for_ever :
    (ops : FloatOps) (new_id : NewId)
    → IsFresh new_id
    → (id : ℕ) {s t : Session} → StaysIn IsCondemned id s
    → Reach ops new_id s t
    → StaysIn IsCondemned id t
IsCondemned-for_ever ops new_id fresh id h r =
    Reach-StaysIn IsCondemned IsCondemned-closed id ops new_id fresh r h

module _ (ops : FloatOps) (new_id : NewId) where
  -- The log of `t` is that of `s` and more.
  abbrev pub IsLonger : Session → Session → Type 0
  IsLonger s t = (es : List AuditEvent) × (t.work.audit_events ≡ s.work.audit_events ++ es)

  Step-IsLonger : {s t : Session} → Step ops new_id s t → IsLonger s t
  unfolding record_event commit get_or_create_quarantine_item
  Step-IsLonger (review {s = s} i now item r found) =
      elim (apply_action-cases new_id now item r s) [
        | inl (target, p, done) ↦ rw done (_, refl)
        | inr (e, raised) ↦ rw raised ([], sym (append-nil s.work.audit_events))
      ]
  Step-IsLonger (report {s = s} now c) =
      elim (Option-cases (find (of_message c.message_id) (items_of s))) [
        | inl missing ↦ rw (missing, get_or_create_quarantine_item) (_, refl)
        | inr (item, found) ↦ rw (found, get_or_create_quarantine_item) (_, refl)
      ]
  Step-IsLonger (other {s = s} now e n) = (_, refl)
  Step-IsLonger (save {s = s}) = ([], sym (append-nil s.work.audit_events))

  -- The audit log only grows: no run of the program changes or removes an event.
  pub Reach-IsLonger : {s t : Session} → Reach ops new_id s t → IsLonger s t
  Reach-IsLonger {s} here = ([], sym (append-nil s.work.audit_events))
  Reach-IsLonger {s} (next {t = t} r st) =
      let (es, e) = Reach-IsLonger r in
      let (fs, f) = Step-IsLonger st in
      (es ++ fs, f ∙ (ap (λ l. l ++ fs) e ∙ append_assoc s.work.audit_events es fs))
