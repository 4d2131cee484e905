-- ===== src/Policies/Verdicts.antt =====
-- app/policies/verdict.py: from a risk score to a verdict.
pub mod Order
use mind_wall.Prelude.{ℕ, Option, none, some, Bool, true, false, ◌&&◌, if◌then◌else◌}
use mind_wall.Models.Numbers.{Float, FloatOps, min_float}
use mind_wall.Models.Verdicts.{
  Verdict, allow, allow_with_banner, soft_hold, quarantine, reject, escalate_to_admin,
}

pub record VerdictThresholds : Type 0 where
  pub up_to_allow : Float
  pub up_to_banner : Float
  pub up_to_soft_hold : Float
  pub up_to_quarantine : Float

module _ (ops : FloatOps) where
  unfoldable pub default_thresholds : VerdictThresholds
  default_thresholds = record {
    up_to_allow = ops.decimal 25 2;
    up_to_banner = ops.decimal 45 2;
    up_to_soft_hold = ops.decimal 65 2;
    up_to_quarantine = ops.decimal 85 2;
  }

  unfoldable pub thresholds_or_default : Option VerdictThresholds → VerdictThresholds
  unfolding default_thresholds
  thresholds_or_default none = default_thresholds
  thresholds_or_default (some t) = t

  -- The score that is compared: a tenth more, at most 1.0, where the LLM was missing and the
  -- confidence is low.
  unfoldable pub effective_risk : Float → Float → Bool → Float
  unfolding min_float
  effective_risk overall_risk confidence is_degraded =
      if is_degraded && ops.lt confidence (ops.decimal 5 1)
      then min_float ops (ops.decimal 10 1) (ops.add overall_risk (ops.decimal 10 2))
      else overall_risk

  -- The ladder of thresholds.
  unfoldable pub verdict_at : VerdictThresholds → Bool → Float → Verdict
  verdict_at t gateway_mode risk =
      if ops.le risk t.up_to_allow
      then allow
      else if ops.le risk t.up_to_banner
      then allow_with_banner
      else if ops.le risk t.up_to_soft_hold
      then soft_hold
      else if ops.le risk t.up_to_quarantine
      then quarantine
      else if gateway_mode
      then reject
      else escalate_to_admin

  unfoldable pub compute_verdict : Float → Float → Bool → Option VerdictThresholds → Bool → Verdict
  unfolding thresholds_or_default effective_risk verdict_at
  compute_verdict overall_risk confidence is_degraded thresholds gateway_mode =
      verdict_at (thresholds_or_default thresholds) gateway_mode
        (effective_risk overall_risk confidence is_degraded)
