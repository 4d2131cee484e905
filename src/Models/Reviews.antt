-- ===== src/Models/Reviews.antt =====
-- app/quarantine/models.py: quarantine items and audit events. A time is a number, and every row
-- carries the columns of app/db/base.py that the services read.
use mind_wall.Prelude.{ℕ, String, Option}
use mind_wall.Models.Verdicts.{Verdict}
use mind_wall.Models.Numbers.{Float}

pub data QuarantineStatus : Type 0 where
  pending_review in_review released false_positive confirmed_malicious deleted : QuarantineStatus

abbrev pub status_value : QuarantineStatus → String
status_value pending_review = "pending_review"
status_value in_review = "in_review"
status_value released = "released"
status_value false_positive = "false_positive"
status_value confirmed_malicious = "confirmed_malicious"
status_value deleted = "deleted"

pub data QuarantineAction : Type 0 where
  mark_in_review release mark_false_positive confirm_malicious delete : QuarantineAction

abbrev pub action_value : QuarantineAction → String
action_value mark_in_review = "mark_in_review"
action_value release = "release"
action_value mark_false_positive = "mark_false_positive"
action_value confirm_malicious = "confirm_malicious"
action_value delete = "delete"

pub record QuarantineItem : Type 0 where
  pub id : ℕ
  pub message_id : ℕ
  pub analysis_run_id : Option ℕ
  pub status : QuarantineStatus
  pub trigger_verdict : Verdict
  pub risk_score_snapshot : Option Float
  pub notes : Option String
  pub reviewed_at : Option ℕ
  pub reviewed_by_user_id : Option ℕ
  pub created_at : ℕ
  pub updated_at : ℕ

pub record AuditEvent : Type 0 where
  pub id : ℕ
  pub actor_user_id : Option ℕ
  pub action : String
  pub target_type : String
  pub target_id : ℕ
  pub from_status : Option String
  pub to_status : Option String
  pub note : Option String
  pub metadata_json : Option String
  pub created_at : ℕ
