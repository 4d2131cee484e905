-- ===== src/Audit.antt =====
-- app/audit/service.py: the append-only trail of audit events.
use mind_wall.Prelude.{ℕ, String, Option, none, List, [], ◌∷◌, ◌++◌, map, ◌==◌, Bool, ◌&&◌, select}
use text.Mathlib.Text.{◌==◌ as str_eq}
use mind_wall.Models.Reviews.{AuditEvent}
use mind_wall.Models.Session.{Session, NewId}

-- The keyword arguments of `record_event`; one that a caller leaves out is `none`.
pub record EventData : Type 0 where
  pub action : String
  pub target_type : String
  pub target_id : ℕ
  pub actor_user_id : Option ℕ
  pub from_status : Option String
  pub to_status : Option String
  pub note : Option String

-- The row of an event.
abbrev pub event_row : ℕ → ℕ → EventData → AuditEvent
event_row id now e = record {
  id = id;
  actor_user_id = e.actor_user_id;
  action = e.action;
  target_type = e.target_type;
  target_id = e.target_id;
  from_status = e.from_status;
  to_status = e.to_status;
  note = e.note;
  metadata_json = none;
  created_at = now;
}

-- Inserts and flushes; the caller commits.
unfoldable pub record_event : NewId → ℕ → EventData → Session → Session
record_event new_id now e s =
    let events = s.work.audit_events in
    let row = event_row (new_id (map (λ (a : AuditEvent). a.id) events)) now e in
    record s { work = record s.work { audit_events = events ++ row ∷ [] } }

abbrev pub is_target : String → ℕ → AuditEvent → Bool
is_target target_type target_id e = str_eq e.target_type target_type && e.target_id == target_id

-- ORDER BY created_at is stable on the rows, which are inserted in order of time.
unfoldable pub get_events_for_target : String → ℕ → Session → List AuditEvent
get_events_for_target target_type target_id s =
    select (is_target target_type target_id) s.work.audit_events
