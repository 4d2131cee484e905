-- ===== src/Alerts/Acknowledging.antt =====
-- app/alerts/service.py, `acknowledge_alert`: what an accepted call returns and leaves.
use mind_wall.Prelude.{
  ℕ, String, ◌≡◌, refl, ◌≢◌, Option, some, true, false, arith, List, [], ◌∷◌, ◌++◌, map, ◌==◌, find,
  inl, inr, Bool-cases, ap,
}
use mind_wall.Models.Reviews.{AuditEvent}
use mind_wall.Models.Alerting.{acknowledged, Alert}
use mind_wall.Models.Session.{Session, NewId, commit}
use mind_wall.Audit.{record_event, event_row}
use mind_wall.Alerts.{
  alerts_of, alert_event, get_alert, replace_alert, acknowledged_alert, save_alert,
}
use mind_wall.Models.Alerting.{alert_status_value}
use mind_wall.Quarantine.{is_given}

find-replaced :
    (i : ℕ) (alert old : Alert) (xs : List Alert)
    → alert.id ≡ i
    → find (λ (a : Alert). a.id == i) xs ≡ some old
    → find (λ (a : Alert). a.id == i) (replace_alert alert xs) ≡ some alert
find-replaced i alert old [] same found = cc
find-replaced i alert old (x ∷ xs) same found = ground (arith, find-replaced i alert old xs same)

find-other :
    (i : ℕ) (alert : Alert) (xs : List Alert)
    → i ≢ alert.id
    → find (λ (a : Alert). a.id == i) (replace_alert alert xs) ≡ find (λ (a : Alert). a.id == i) xs
find-other i alert [] other = refl
find-other i alert (x ∷ xs) other = ground (arith, find-other i alert xs other)

module _ (new_id : NewId) (now actor : ℕ) (remark : Option String) (a : Alert) (s : Session) where
  -- The note: one that is given and not empty takes the place of the one that is there.
  pub data IsRemarked (alert : Alert) : Type 0 where
    silent : is_given remark ≡ false → alert.resolution_note ≡ a.resolution_note → IsRemarked alert
    given : is_given remark ≡ true → alert.resolution_note ≡ remark → IsRemarked alert

  -- The event.
  pub record IsLogged (e : AuditEvent) : Type 0 where
    pub action : e.action ≡ "alert.acknowledged"
    pub target_type : e.target_type ≡ "alert"
    pub target_id : e.target_id ≡ a.id
    pub actor_user_id : e.actor_user_id ≡ some actor
    pub from_status : e.from_status ≡ some "open"
    pub to_status : e.to_status ≡ some "acknowledged"
    pub note : e.note ≡ remark
    pub created_at : e.created_at ≡ now

  -- What a call returns and leaves that acknowledges the alert.
  pub record IsAcknowledged (alert : Alert) (t : Session) : Type 0 where
    pub status : alert.status ≡ acknowledged
    pub acknowledged_by : alert.acknowledged_by_user_id ≡ some actor
    pub acknowledged_at : alert.acknowledged_at ≡ some now
    pub remarked : IsRemarked alert
    pub kept :
        (alert.title ≡ a.title)
        × (alert.body ≡ a.body)
        × (alert.severity ≡ a.severity)
        × (alert.trigger_action ≡ a.trigger_action)
        × (alert.quarantine_item_id ≡ a.quarantine_item_id)
        × (alert.message_id ≡ a.message_id)
        × (alert.created_at ≡ a.created_at)
        × (alert.resolved_at ≡ a.resolved_at)
        × (alert.resolved_by_user_id ≡ a.resolved_by_user_id)
    pub stored : get_alert a.id t ≡ some alert
    pub others : (i : ℕ) → i ≢ a.id → get_alert i t ≡ get_alert i s
    pub event : AuditEvent
    pub log : t.work.audit_events ≡ s.work.audit_events ++ event ∷ []
    pub logged : IsLogged event
    pub committed : t.durable ≡ t.work

  acknowledged_alert-IsRemarked : IsRemarked (acknowledged_alert now actor remark a)
  unfolding acknowledged_alert
  acknowledged_alert-IsRemarked = elim (Bool-cases (is_given remark)) [
    | inl t ↦ given t (rw (t, acknowledged_alert) refl)
    | inr f ↦ silent f (rw (f, acknowledged_alert) refl)
  ]

  pub saved-IsAcknowledged :
      get_alert a.id s ≡ some a
      → alert_status_value a.status ≡ "open"
      → IsAcknowledged (acknowledged_alert now actor remark a) (
          save_alert new_id now "alert.acknowledged" actor remark a
            (acknowledged_alert now actor remark a)
            s)
  unfolding get_alert acknowledged_alert save_alert record_event commit
  saved-IsAcknowledged found was_open =
      let alert = acknowledged_alert now actor remark a in
      record {
        status = refl;
        acknowledged_by = refl;
        acknowledged_at = refl;
        remarked = acknowledged_alert-IsRemarked;
        kept = (refl, refl, refl, refl, refl, refl, refl, refl, refl);
        stored = find-replaced a.id alert a (alerts_of s) refl found;
        others = λ i n. find-other i alert (alerts_of s) n;
        event = event_row (new_id (map (λ (e : AuditEvent). e.id) s.work.audit_events)) now (
            alert_event "alert.acknowledged" a.id (some actor) (some (alert_status_value a.status))
              acknowledged remark);
        log = refl;
        logged = record {
          action = refl;
          target_type = refl;
          target_id = refl;
          actor_user_id = refl;
          from_status = ap (λ t. some t) was_open;
          to_status = refl;
          note = refl;
          created_at = refl;
        };
        committed = refl;
      }
