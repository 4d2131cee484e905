-- ===== src/Models/Session.antt =====
-- The session that the services are given (`AsyncSession`): the tables as the transaction sees
-- them, and as the last commit left them. A table is the list of its rows in order of insertion.
use mind_wall.Prelude.{ℕ, ◌≢◌, List, [], All}
use mind_wall.Models.Reviews.{QuarantineItem, AuditEvent}
use mind_wall.Models.Alerting.{Alert}
use mind_wall.Models.Settings.{PolicySetting}
use mind_wall.Models.Analysing.{AnalysisRun, DimensionScore}

pub record Tables : Type 0 where
  pub quarantine_items : List QuarantineItem
  pub audit_events : List AuditEvent
  pub alerts : List Alert
  pub policy_settings : List PolicySetting
  pub analysis_runs : List AnalysisRun
  pub dimension_scores : List DimensionScore

pub record Session : Type 0 where
  pub work : Tables
  pub durable : Tables

-- `db.commit()`.
unfoldable pub commit : Session → Session
commit s = record s { durable = s.work }

-- The database gives a new row an id: a function of the ids in use.
abbrev pub NewId : Type 0
NewId = List ℕ → ℕ

-- The id that it gives is not in use.
abbrev pub IsFresh : NewId → Type 0
IsFresh new_id = (ids : List ℕ) → All (λ i. i ≢ new_id ids) ids

abbrev pub no_rows : Tables
no_rows = record {
  quarantine_items = [];
  audit_events = [];
  alerts = [];
  policy_settings = [];
  analysis_runs = [];
  dimension_scores = [];
}

-- A database that nothing has been written to.
abbrev pub empty_session : Session
empty_session = record { work = no_rows; durable = no_rows }
