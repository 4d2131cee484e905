-- ===== src/Alerts.antt =====
-- app/alerts/service.py: the alerts that an admin works through.
pub mod Acknowledging
pub mod Lifecycle
use Prim.Native.String.{◌++◌ as str_append}
use mind_wall.Prelude.{
  ℕ, String, Bool, true, false, not, ◌&&◌, Option, none, some, List, [], ◌∷◌, ◌++◌, map, ◌==◌, leb,
  select, find, take, drop, length, Result, ok, err, if◌then◌else◌,
}
use mind_wall.Prelude.Sorting.{sort}
use mind_wall.Models.Numbers.{Float, FloatOps}
use mind_wall.Models.Verdicts
use mind_wall.Models.Verdicts.{Verdict, verdict_value}
use mind_wall.Models.Alerting.{
  AlertSeverity, low, medium, high, critical, AlertStatus, open_alert, acknowledged, resolved,
  alert_status_value, Alert,
}
use mind_wall.Models.Session.{Session, NewId, commit}
use mind_wall.Audit.{EventData, record_event}
use mind_wall.Quarantine.{is_given, text_of}

abbrev pub alerts_of : Session → List Alert
alerts_of s = s.work.alerts

abbrev pub set_alerts : List Alert → Session → Session
set_alerts rows s = record s { work = record s.work { alerts = rows } }

-- The keyword arguments of `create_alert`.
pub record AlertData : Type 0 where
  pub title : String
  pub body : Option String
  pub severity : AlertSeverity
  pub trigger_action : Option String
  pub quarantine_item_id : Option ℕ
  pub message_id : Option ℕ
  pub actor_user_id : Option ℕ

unfoldable pub created_alert : ℕ → ℕ → AlertData → Alert
created_alert id now d = record {
  id = id;
  title = d.title;
  body = d.body;
  severity = d.severity;
  status = open_alert;
  trigger_action = d.trigger_action;
  quarantine_item_id = d.quarantine_item_id;
  message_id = d.message_id;
  created_at = now;
  acknowledged_at = none;
  resolved_at = none;
  acknowledged_by_user_id = none;
  resolved_by_user_id = none;
  resolution_note = none;
}

abbrev pub alert_event :
    String → ℕ → Option ℕ → Option String → AlertStatus → Option String → EventData
alert_event action id actor from to note = record {
  action = action;
  target_type = "alert";
  target_id = id;
  actor_user_id = actor;
  from_status = from;
  to_status = some (alert_status_value to);
  note = note;
}

-- `create_alert`: the row and its audit event; the caller commits.
unfoldable pub create_alert : NewId → ℕ → AlertData → Session → Alert × Session
unfolding created_alert record_event
create_alert new_id now d s =
    let id = new_id (map (λ (a : Alert). a.id) (alerts_of s)) in
    let alert = created_alert id now d in
    (
      alert,
      record_event new_id now
          (alert_event "alert.created" id d.actor_user_id none open_alert
            (some (str_append "Alert created: " d.title)))
          (set_alerts (alerts_of s ++ alert ∷ []) s),
    )

-- `_VERDICT_SEVERITY` with the first part of the title.
unfoldable pub verdict_severity : Verdict → Option (AlertSeverity × String)
verdict_severity Verdicts.escalate_to_admin =
    some (critical, "[CRITICAL] Message escalated for admin review")
verdict_severity Verdicts.quarantine = some (high, "[HIGH] Message quarantined")
verdict_severity Verdicts.reject = some (high, "[HIGH] Message rejected at gateway")
verdict_severity Verdicts.soft_hold = some (medium, "[MEDIUM] Message soft-held for review")
verdict_severity Verdicts.allow = none
verdict_severity Verdicts.allow_with_banner = none

-- The arguments of `create_alert_for_verdict`.
pub record VerdictReport : Type 0 where
  pub verdict : Verdict
  pub report_item_id : Option ℕ
  pub report_message_id : Option ℕ
  pub sender : Option String
  pub subject : Option String
  pub risk_score : Option Float

abbrev when_given : Option String → String → String → String
when_given o before after =
    if is_given o then str_append before (str_append (text_of o) after) else ""

unfoldable pub verdict_alert : FloatOps → VerdictReport → AlertSeverity × String → AlertData
verdict_alert ops r (severity, title) = record {
  title = str_append title (when_given r.sender " from " "");
  body = some (
      str_append (when_given r.subject "Subject: " "\n") (
        str_append (when_given r.sender "Sender: " "\n") (
          str_append
            (elim r.risk_score [
              | none ↦ ""
              | some x ↦ str_append "Risk score: " (str_append (ops.fixed 2 x) "\n")
            ])
            (str_append "Verdict: " (verdict_value r.verdict)))));
  severity = severity;
  trigger_action = some (str_append "verdict." (verdict_value r.verdict));
  quarantine_item_id = r.report_item_id;
  message_id = r.report_message_id;
  actor_user_id = none;
}

-- `create_alert_for_verdict`.
unfoldable pub create_alert_for_verdict :
    FloatOps → NewId → ℕ → VerdictReport → Session → Option Alert × Session
unfolding verdict_severity verdict_alert create_alert
create_alert_for_verdict ops new_id now r s = elim (verdict_severity r.verdict) [
  | none ↦ (none, s)
  | some known ↦
      (let (alert, t) = create_alert new_id now (verdict_alert ops r known) s in (some alert, t))
]

abbrev pub status_eq : AlertStatus → AlertStatus → Bool
status_eq open_alert open_alert = true
status_eq acknowledged acknowledged = true
status_eq resolved resolved = true
status_eq _ _ = false

abbrev severity_eq : AlertSeverity → AlertSeverity → Bool
severity_eq low low = true
severity_eq medium medium = true
severity_eq high high = true
severity_eq critical critical = true
severity_eq _ _ = false

abbrev newest_first : Alert → Alert → Bool
newest_first a b = leb b.created_at a.created_at

abbrev wanted : Option AlertStatus → Option AlertSeverity → Alert → Bool
wanted status severity a =
    elim status [ none ↦ true | some x ↦ status_eq a.status x ]
    && elim severity [ none ↦ true | some x ↦ severity_eq a.severity x ]

-- `list_alerts`.
unfoldable pub list_alerts :
    Option AlertStatus → Option AlertSeverity → ℕ → ℕ → Session → List Alert
list_alerts status severity limit offset s =
    take limit (drop offset (sort newest_first (select (wanted status severity) (alerts_of s))))

-- `count_open_alerts`.
unfoldable pub count_open_alerts : Session → ℕ
count_open_alerts s = length (select (λ (a : Alert). status_eq a.status open_alert) (alerts_of s))

-- `get_alert`.
unfoldable pub get_alert : ℕ → Session → Option Alert
get_alert alert_id s = find (λ (a : Alert). a.id == alert_id) (alerts_of s)

-- An object of the session that is written to is the row with its id.
abbrev pub replace_alert : Alert → List Alert → List Alert
replace_alert alert [] = []
replace_alert alert (x ∷ xs) =
    let rest = replace_alert alert xs in if x.id == alert.id then alert ∷ rest else x ∷ rest

-- The ValueError of the two transitions.
pub data AlertError : Type 0 where
  not_found wrong_state : AlertError

abbrev note_or : Option String → Option String → Option String
note_or note old = if is_given note then note else old

unfoldable pub acknowledged_alert : ℕ → ℕ → Option String → Alert → Alert
acknowledged_alert now actor note a = record a {
  status = acknowledged;
  acknowledged_by_user_id = some actor;
  acknowledged_at = some now;
  resolution_note = note_or note a.resolution_note;
}

unfoldable pub resolved_alert : ℕ → ℕ → Option String → Alert → Alert
resolved_alert now actor note a = record a {
  status = resolved;
  resolved_by_user_id = some actor;
  resolved_at = some now;
  resolution_note = note_or note a.resolution_note;
}

-- The writes of a transition: the row, its audit event, and the commit.
unfoldable pub save_alert :
    NewId → ℕ → String → ℕ → Option String → Alert → Alert → Session → Session
unfolding record_event commit
save_alert new_id now action actor note old alert s = commit (
    record_event new_id now
      (alert_event action alert.id (some actor) (some (alert_status_value old.status)) alert.status
        note)
      (set_alerts (replace_alert alert (alerts_of s)) s))

-- `acknowledge_alert`.
unfoldable pub acknowledge_alert :
    NewId → ℕ → ℕ → ℕ → Option String → Session → Result AlertError Alert × Session
unfolding get_alert acknowledged_alert save_alert
acknowledge_alert new_id now alert_id actor note s = elim (get_alert alert_id s) [
  | none ↦ (err not_found, s)
  | some a ↦
      if not (status_eq a.status open_alert)
      then (err wrong_state, s)
      else (let alert = acknowledged_alert now actor note a in
          (ok alert, save_alert new_id now "alert.acknowledged" actor note a alert s))
]

-- `resolve_alert`.
unfoldable pub resolve_alert :
    NewId → ℕ → ℕ → ℕ → Option String → Session → Result AlertError Alert × Session
unfolding get_alert resolved_alert save_alert
resolve_alert new_id now alert_id actor note s = elim (get_alert alert_id s) [
  | none ↦ (err not_found, s)
  | some a ↦
      if status_eq a.status resolved
      then (err wrong_state, s)
      else (let alert = resolved_alert now actor note a in
          (ok alert, save_alert new_id now "alert.resolved" actor note a alert s))
]
