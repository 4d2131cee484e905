-- ===== src/Models/Verdicts.antt =====
-- app/policies/constants.py: the verdicts and the twelve manipulation dimensions.
use mind_wall.Prelude.{String, List, [], ◌∷◌}

pub data Verdict : Type 0 where
  allow allow_with_banner soft_hold quarantine reject escalate_to_admin : Verdict

abbrev pub verdict_value : Verdict → String
verdict_value allow = "allow"
verdict_value allow_with_banner = "allow_with_banner"
verdict_value soft_hold = "soft_hold"
verdict_value quarantine = "quarantine"
verdict_value reject = "reject"
verdict_value escalate_to_admin = "escalate_to_admin"

pub data ManipulationDimension : Type 0 where
  authority_pressure urgency_pressure scarcity fear_threat reward_lure : ManipulationDimension
  curiosity_bait reciprocity_obligation social_proof secrecy_isolation : ManipulationDimension
  impersonation compliance_escalation credential_or_payment_capture : ManipulationDimension

-- The order of iteration over the enum.
abbrev pub all_dimensions : List ManipulationDimension
all_dimensions =
    authority_pressure ∷ urgency_pressure ∷ scarcity ∷ fear_threat ∷ reward_lure ∷ curiosity_bait
    ∷ reciprocity_obligation ∷ social_proof ∷ secrecy_isolation ∷ impersonation
    ∷ compliance_escalation ∷ credential_or_payment_capture ∷ []

abbrev pub dimension_value : ManipulationDimension → String
dimension_value authority_pressure = "authority_pressure"
dimension_value urgency_pressure = "urgency_pressure"
dimension_value scarcity = "scarcity"
dimension_value fear_threat = "fear_threat"
dimension_value reward_lure = "reward_lure"
dimension_value curiosity_bait = "curiosity_bait"
dimension_value reciprocity_obligation = "reciprocity_obligation"
dimension_value social_proof = "social_proof"
dimension_value secrecy_isolation = "secrecy_isolation"
dimension_value impersonation = "impersonation"
dimension_value compliance_escalation = "compliance_escalation"
dimension_value credential_or_payment_capture = "credential_or_payment_capture"

-- `DIMENSION_LABELS`.
abbrev pub dimension_label : ManipulationDimension → String
dimension_label authority_pressure = "Authority Pressure"
dimension_label urgency_pressure = "Urgency Pressure"
dimension_label scarcity = "Scarcity"
dimension_label fear_threat = "Fear / Threat"
dimension_label reward_lure = "Reward / Lure"
dimension_label curiosity_bait = "Curiosity Bait"
dimension_label reciprocity_obligation = "Reciprocity / Obligation"
dimension_label social_proof = "Social Proof"
dimension_label secrecy_isolation = "Secrecy / Isolation"
dimension_label impersonation = "Impersonation"
dimension_label compliance_escalation = "Compliance Escalation"
dimension_label credential_or_payment_capture = "Credential / Payment Capture"
