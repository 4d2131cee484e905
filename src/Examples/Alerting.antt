-- ===== src/Examples/Alerting.antt =====
-- The alerts.
use mind_wall.Prelude.{refl, arith, none}
use mind_wall.Models.Alerting.{critical}
use mind_wall.Models.Session.{empty_session, Session, commit}
use mind_wall.Audit.{record_event}
use mind_wall.Alerts.{
  AlertData, created_alert, create_alert, get_alert, acknowledged_alert, save_alert,
  acknowledge_alert, resolve_alert,
}
use mind_wall.Alerts.Lifecycle.{IsPast, here, next, resolve, Reach-IsPast}
use mind_wall.Examples.Concrete.{six_decimals, after_all, after_all-IsFresh}

abbrev trouble : AlertData
trouble = record {
  title = "Trouble";
  body = none;
  severity = critical;
  trigger_action = none;
  quarantine_item_id = none;
  message_id = none;
  actor_user_id = none;
}

abbrev raised : Session
raised = (create_alert after_all 5 trouble empty_session).1

abbrev seen : Session
seen = (acknowledge_alert after_all 6 1 2 none raised).1

seen-IsPast : IsPast 1 1 seen
unfolding acknowledge_alert acknowledged_alert save_alert create_alert created_alert get_alert
    record_event commit
seen-IsPast = record { present = λ h. h.0 refl; so_far = ((λ e. omega arith), tt) }

Reach-IsPast_example : IsPast 1 1 (resolve_alert after_all 7 1 2 none seen).1
Reach-IsPast_example =
    Reach-IsPast 1 1 six_decimals after_all after_all-IsFresh (next here (resolve 7 1 2 none))
      seen-IsPast
