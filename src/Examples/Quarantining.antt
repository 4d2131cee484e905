-- ===== src/Examples/Quarantining.antt =====
-- Quarantine and verdicts.
use mind_wall.Prelude.{◌≤◌, ◌≡◌, ◌⊎◌, refl, true, false, none, some, ok, err, length, inl}
use mind_wall.Models.Verdicts
use mind_wall.Models.Reviews.{QuarantineStatus, pending_review, QuarantineItem}
use mind_wall.Models.Session.{empty_session, Session, commit}
use mind_wall.Audit.{record_event}
use mind_wall.Policies.Verdicts.{compute_verdict}
use mind_wall.Policies.Verdicts.Order.{severity, compute_verdict_mono, degraded_no_milder}
use mind_wall.Quarantine.{
  ReviewRequest, ActionError, QuarantineCause, apply_action, reviewed_item,
  get_or_create_quarantine_item, get_quarantine_item_for_message, get_quarantine_item_by_id,
  transition_of, valid_transitions, created_item,
}
use mind_wall.Quarantine.Reviewing.{IsReviewed}
use mind_wall.Quarantine.Transitions.{Permitted, apply_action_exact}
use mind_wall.Quarantine.Trail.{
  IsAuditedSession, Reach, here, next, review, report, Reach-IsAudited,
}
use mind_wall.Quarantine.Final.{
  StaysIn, IsCondemned, IsLonger, IsCondemned-for_ever, Reach-IsLonger,
}
use mind_wall.Quarantine.Repeats.{reported_twice}
use mind_wall.Examples.Concrete.{six_decimals, six_decimals-FloatLaws, after_all, after_all-IsFresh}

abbrev cause : QuarantineCause
cause = record {
  message_id = 4;
  analysis_run_id = 1;
  trigger_verdict = Verdicts.quarantine;
  risk_score_snapshot = some 700000;
  actor_user_id = none;
}

abbrev after_report : Session
after_report = (get_or_create_quarantine_item six_decimals after_all 10 cause empty_session).1

abbrev reported_item : QuarantineItem
reported_item = (get_or_create_quarantine_item six_decimals after_all 10 cause empty_session).0.0

abbrev release_it : ReviewRequest
release_it = record { action = "release"; actor_user_id = some 2; note = some "checked" }

abbrev confirm_it : ReviewRequest
confirm_it = record { action = "confirm_malicious"; actor_user_id = some 2; note = none }

apply_action_exact_example :
    ((target : QuarantineStatus) × Permitted "release" pending_review target
      × (item' : QuarantineItem) × (t : Session) × (apply_action after_all 11 reported_item
            release_it after_report
          ≡ (ok item', t))
      × IsReviewed after_all 11 reported_item release_it after_report target item' t)
    ⊎ (((target : QuarantineStatus) → ¬ Permitted "release" pending_review target)
        × (e : ActionError) × (apply_action after_all 11 reported_item release_it after_report
            ≡ (err e, after_report)))
unfolding get_or_create_quarantine_item get_quarantine_item_by_id record_event created_item
apply_action_exact_example =
    apply_action_exact after_all 11 reported_item release_it after_report refl

empty-IsAudited : IsAuditedSession empty_session
empty-IsAudited = record { tracked = tt; untold = λ id h. refl; chained = tt }

-- A report and a review.
two_steps :
    Reach six_decimals after_all empty_session
      (apply_action after_all 11 reported_item release_it after_report).1
unfolding get_quarantine_item_by_id get_or_create_quarantine_item record_event created_item
two_steps =
    next (next here (report 10 cause))
      (review {s = after_report} 1 11 reported_item release_it refl)

Reach-IsAudited_example :
    IsAuditedSession (apply_action after_all 11 reported_item release_it after_report).1
Reach-IsAudited_example =
    Reach-IsAudited six_decimals after_all after_all-IsFresh empty-IsAudited two_steps

Reach-IsLonger_example :
    IsLonger six_decimals after_all empty_session
      (apply_action after_all 11 reported_item release_it after_report).1
Reach-IsLonger_example = Reach-IsLonger six_decimals after_all two_steps

abbrev condemned_session : Session
condemned_session = (apply_action after_all 11 reported_item confirm_it after_report).1

IsCondemned-item : StaysIn IsCondemned 1 condemned_session
unfolding apply_action transition_of valid_transitions get_or_create_quarantine_item commit
    record_event reviewed_item created_item
IsCondemned-item = record { present = λ h. h.0 refl; inside = ((λ e. inl refl), tt) }

IsCondemned-for_ever_example :
    StaysIn IsCondemned 1
      (get_or_create_quarantine_item six_decimals after_all 12 cause condemned_session).1
IsCondemned-for_ever_example =
    IsCondemned-for_ever six_decimals after_all after_all-IsFresh 1 IsCondemned-item
      (next here (report 12 cause))

abbrev again : QuarantineCause
again = record cause { analysis_run_id = 2; risk_score_snapshot = some 900000 }

reported_twice_example :
    let ((item, _), t) =
      get_or_create_quarantine_item six_decimals after_all 10 cause empty_session in
    let ((item', created'), u) = get_or_create_quarantine_item six_decimals after_all 12 again t in
    (created' ≡ false)
    × (length u.work.quarantine_items ≡ length t.work.quarantine_items)
    × (item'.id ≡ item.id)
    × (item'.status ≡ item.status)
    × (item'.notes ≡ item.notes)
    × (item'.reviewed_at ≡ item.reviewed_at)
    × (item'.reviewed_by_user_id ≡ item.reviewed_by_user_id)
    × (item'.created_at ≡ item.created_at)
    × (item'.analysis_run_id ≡ some 2)
    × (item'.trigger_verdict ≡ Verdicts.quarantine)
    × (item'.risk_score_snapshot ≡ some 900000)
    × (item'.updated_at ≡ 12)
    × (get_quarantine_item_for_message 4 u ≡ some item')
reported_twice_example = reported_twice six_decimals after_all 10 12 cause again empty_session refl

compute_verdict_mono_example :
    severity (compute_verdict six_decimals 300000 400000 true none true)
    ≤ severity (compute_verdict six_decimals 700000 400000 true none true)
compute_verdict_mono_example =
    compute_verdict_mono six_decimals six_decimals-FloatLaws 300000 700000 400000 true true none
      refl

degraded_no_milder_example :
    severity (compute_verdict six_decimals 600000 300000 false none false)
    ≤ severity (compute_verdict six_decimals 600000 300000 true none false)
degraded_no_milder_example =
    degraded_no_milder six_decimals six_decimals-FloatLaws 600000 300000 false none refl refl
