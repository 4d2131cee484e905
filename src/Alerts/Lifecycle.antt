-- ===== src/Alerts/Lifecycle.antt =====
-- app/alerts/service.py: the states of an alert.
use mind_wall.Prelude.{
  ℕ, String, ◌≤◌, ◌≡◌, ◌≢◌, refl, inl, inr, subst, Option, some, List, [], ◌∷◌, map, ◌==◌, All,
  All-append, All-split, All-of_map, find-All, Bool-cases, Option-cases, arith, ==_iff,
}
use mind_wall.Models.Numbers.{FloatOps}
use mind_wall.Models.Alerting.{AlertStatus, open_alert, acknowledged, resolved, Alert}
use mind_wall.Models.Session.{Session, NewId, IsFresh, commit}
use mind_wall.Audit.{EventData, record_event}
use mind_wall.Alerts.{
  alerts_of, AlertData, created_alert, create_alert, VerdictReport, create_alert_for_verdict,
  verdict_severity, verdict_alert, status_eq, get_alert, replace_alert, acknowledged_alert,
  resolved_alert, save_alert, acknowledge_alert, resolve_alert,
}

-- How far an alert has come.
abbrev pub rank : AlertStatus → ℕ
rank open_alert = 0
rank acknowledged = 1
rank resolved = 2

-- The rows with an id are there, and have come so far at least.
pub record IsPast (k id : ℕ) (s : Session) : Type 0 where
  pub present : ¬ All (λ (x : Alert). x.id ≢ id) (alerts_of s)
  pub so_far : All (λ (x : Alert). x.id ≡ id → k ≤ rank x.status) (alerts_of s)

module _ (ops : FloatOps) (new_id : NewId) where
  -- What the program does with alerts.
  pub data Step : Session → Session → Type 0 where
    create : {s : Session} (now : ℕ) (d : AlertData) → Step s (create_alert new_id now d s).1
    raise :
        {s : Session} (now : ℕ) (r : VerdictReport)
        → Step s (create_alert_for_verdict ops new_id now r s).1
    acknowledge :
        {s : Session} (now id actor : ℕ) (remark : Option String)
        → Step s (acknowledge_alert new_id now id actor remark s).1
    resolve :
        {s : Session} (now id actor : ℕ) (remark : Option String)
        → Step s (resolve_alert new_id now id actor remark s).1
    log : {s : Session} (now : ℕ) (e : EventData) → Step s (record_event new_id now e s)
    save : {s : Session} → Step s (commit s)

  pub data Reach (s : Session) : Session → Type 0 where
    here : Reach s s
    next : {t u : Session} → Reach s t → Step t u → Reach s u

module _ (k id : ℕ) where
  so_far-replace :
      (alert : Alert) (xs : List Alert)
      → (alert.id ≡ id → k ≤ rank alert.status)
      → All (λ (x : Alert). x.id ≡ id → k ≤ rank x.status) xs
      → All (λ (x : Alert). x.id ≡ id → k ≤ rank x.status) (replace_alert alert xs)
  so_far-replace alert [] n h = tt
  so_far-replace alert (x ∷ xs) n h = elim (Bool-cases (x.id == alert.id)) [
    | inl t ↦ rw t (n, so_far-replace alert xs n h.1)
    | inr f ↦ rw f (h.0, so_far-replace alert xs n h.1)
  ]

  present-replace :
      (alert : Alert) (xs : List Alert)
      → All (λ (x : Alert). x.id ≢ id) (replace_alert alert xs)
      → All (λ (x : Alert). x.id ≢ id) xs
  present-replace alert [] h = tt
  present-replace alert (x ∷ xs) h = elim (Bool-cases (x.id == alert.id)) [
    | inl t ↦
        (let h' = rw t at h in
          (rw ((==_iff x.id alert.id).0 t) h'.0, present-replace alert xs h'.1))
    | inr f ↦ (let h' = rw f at h in (h'.0, present-replace alert xs h'.1))
  ]

  -- A row that was loaded is written, no less far.
  save_alert-IsPast :
      (new_id : NewId) (now i : ℕ) (action : String) (actor : ℕ) (remark : Option String)
      (old alert : Alert) (s : Session)
      → get_alert i s ≡ some old
      → alert.id ≡ old.id
      → rank old.status ≤ rank alert.status
      → IsPast k id s
      → IsPast k id (save_alert new_id now action actor remark old alert s)
  unfolding save_alert record_event commit get_alert
  save_alert-IsPast new_id now i action actor remark old alert s found same later h =
      let was = (find-All _ (λ (a : Alert). a.id == i) (alerts_of s) h.so_far found).0 in
      record {
        present = λ n. h.present (present-replace alert (alerts_of s) n);
        so_far =
            so_far-replace alert (alerts_of s) (λ e. omega (arith, was (rw same at e), later))
              h.so_far;
      }

  module _ (ops : FloatOps) (new_id : NewId) (fresh : IsFresh new_id) where
    create_alert-IsPast :
        (now : ℕ) (d : AlertData) (s : Session)
        → IsPast k id s
        → IsPast k id (create_alert new_id now d s).1
    unfolding create_alert record_event
    create_alert-IsPast now d s h =
        let new = new_id (map (λ (a : Alert). a.id) (alerts_of s)) in
        let unused = All-of_map (λ i. i ≢ new) (λ (a : Alert). a.id) (alerts_of s) (fresh _) in
        record {
          present = λ n. h.present (All-split _ (alerts_of s) (created_alert new now d ∷ []) n).0;
          so_far = All-append _ (alerts_of s) (created_alert new now d ∷ []) h.so_far (
            (λ e.
                absurd
                  (h.present (subst (λ i. All (λ (x : Alert). x.id ≢ i) (alerts_of s)) e unused))),
            tt,
          );
        }

    acknowledge_alert-IsPast :
        (now i actor : ℕ) (remark : Option String) (s : Session)
        → IsPast k id s
        → IsPast k id (acknowledge_alert new_id now i actor remark s).1
    unfolding acknowledge_alert acknowledged_alert
    acknowledge_alert-IsPast now i actor remark s h = elim (Option-cases (get_alert i s)) [
      | inl missing ↦ rw (missing, acknowledge_alert) h
      | inr (a, found) ↦ elim (Bool-cases (status_eq a.status open_alert)) [
        | inr f ↦ rw (found, f, acknowledge_alert) h
        | inl t ↦
            rw (found, t, acknowledge_alert)
              (save_alert-IsPast new_id now i "alert.acknowledged" actor remark a
                (acknowledged_alert now actor remark a) s found refl (ground (arith, t)) h)
      ]
    ]

    resolve_alert-IsPast :
        (now i actor : ℕ) (remark : Option String) (s : Session)
        → IsPast k id s
        → IsPast k id (resolve_alert new_id now i actor remark s).1
    unfolding resolve_alert resolved_alert
    resolve_alert-IsPast now i actor remark s h = elim (Option-cases (get_alert i s)) [
      | inl missing ↦ rw (missing, resolve_alert) h
      | inr (a, found) ↦ elim (Bool-cases (status_eq a.status resolved)) [
        | inl t ↦ rw (found, t, resolve_alert) h
        | inr f ↦
            rw (found, f, resolve_alert)
              (save_alert-IsPast new_id now i "alert.resolved" actor remark a
                (resolved_alert now actor remark a) s found refl (ground arith) h)
      ]
    ]

    Step-IsPast : {s t : Session} → Step ops new_id s t → IsPast k id s → IsPast k id t
    unfolding create_alert_for_verdict record_event commit
    Step-IsPast (create {s = s} now d) h = create_alert-IsPast now d s h
    Step-IsPast (raise {s = s} now r) h = elim (Option-cases (verdict_severity r.verdict)) [
      | inl missing ↦ rw (missing, create_alert_for_verdict) h
      | inr (known, found) ↦
          rw (found, create_alert_for_verdict)
            (create_alert-IsPast now (verdict_alert ops r known) s h)
    ]
    Step-IsPast (acknowledge {s = s} now i actor remark) h =
        acknowledge_alert-IsPast now i actor remark s h
    Step-IsPast (resolve {s = s} now i actor remark) h = resolve_alert-IsPast now i actor remark s h
    Step-IsPast (log now e) h = record { present = h.present; so_far = h.so_far }
    Step-IsPast save h = record { present = h.present; so_far = h.so_far }

    -- An alert never goes back: what has been acknowledged stays acknowledged or is resolved, and what
    -- has been resolved stays so, whatever is done to the alerts. The database gives fresh ids.
    pub Reach-IsPast : {s t : Session} → Reach ops new_id s t → IsPast k id s → IsPast k id t
    Reach-IsPast here h = h
    Reach-IsPast (next r st) h = Step-IsPast st (Reach-IsPast r h)
