-- ===== src/Models/Alerting.antt =====
-- app/alerts/models.py.
use mind_wall.Prelude.{ℕ, String, Option}

pub data AlertSeverity : Type 0 where
  low medium high critical : AlertSeverity

pub data AlertStatus : Type 0 where
  open_alert acknowledged resolved : AlertStatus

abbrev pub alert_status_value : AlertStatus → String
alert_status_value open_alert = "open"
alert_status_value acknowledged = "acknowledged"
alert_status_value resolved = "resolved"

pub record Alert : Type 0 where
  pub id : ℕ
  pub title : String
  pub body : Option String
  pub severity : AlertSeverity
  pub status : AlertStatus
  pub trigger_action : Option String
  pub quarantine_item_id : Option ℕ
  pub message_id : Option ℕ
  pub created_at : ℕ
  pub acknowledged_at : Option ℕ
  pub resolved_at : Option ℕ
  pub acknowledged_by_user_id : Option ℕ
  pub resolved_by_user_id : Option ℕ
  pub resolution_note : Option String
