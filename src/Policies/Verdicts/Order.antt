-- ===== src/Policies/Verdicts/Order.antt =====
-- app/policies/verdict.py: the verdicts in order of severity, and how they follow the score.
use mind_wall.Prelude.{ℕ, ◌≤◌, ◌≡◌, Option, Bool, true, false, ◌&&◌, Bool-cases, inl, inr, arith}
use mind_wall.Models.Numbers.{Float, FloatOps, FloatLaws, min_float}
use mind_wall.Models.Verdicts.{
  Verdict, allow, allow_with_banner, soft_hold, quarantine, reject, escalate_to_admin,
}
use mind_wall.Policies.Verdicts.{
  VerdictThresholds, thresholds_or_default, effective_risk, verdict_at, compute_verdict,
}

-- How severe a verdict is; the two at the top are alike.
abbrev pub severity : Verdict → ℕ
severity allow = 0
severity allow_with_banner = 1
severity soft_hold = 2
severity quarantine = 3
severity reject = 4
severity escalate_to_admin = 4

module _ (ops : FloatOps) (laws : FloatLaws ops) where
  verdict_at_mono :
      (t : VerdictThresholds) (gateway_mode : Bool) (a b : Float)
      → ops.le a b ≡ true
      → severity (verdict_at ops t gateway_mode a) ≤ severity (verdict_at ops t gateway_mode b)
  unfolding verdict_at
  verdict_at_mono t gateway_mode a b h = ground (
    arith,
    laws.le_trans a b t.up_to_allow h,
    laws.le_trans a b t.up_to_banner h,
    laws.le_trans a b t.up_to_soft_hold h,
    laws.le_trans a b t.up_to_quarantine h,
  )

  min_float_mono :
      (n k : ℕ) (a b : Float)
      → ops.le a b ≡ true
      → ops.le (min_float ops (ops.decimal n k) a) (min_float ops (ops.decimal n k) b) ≡ true
  unfolding min_float
  min_float_mono n k a b h = ground (
    arith,
    laws.le-lt_trans a b (ops.decimal n k) h,
    laws.le_of_lt a (ops.decimal n k),
    laws.le_refl_decimal n k,
  )

  effective_risk_mono :
      (confidence : Float) (is_degraded : Bool) (a b : Float)
      → ops.le a b ≡ true
      → ops.le
          (effective_risk ops a confidence is_degraded)
          (effective_risk ops b confidence is_degraded)
        ≡ true
  unfolding effective_risk
  effective_risk_mono confidence is_degraded a b h =
      elim (Bool-cases (is_degraded && ops.lt confidence (ops.decimal 5 1))) [
        | inl e ↦ rw e (min_float_mono 10 1 _ _ (laws.add_tenth_mono a b h))
        | inr e ↦ rw e h
      ]

  -- A higher risk never has a milder verdict, all else being equal.
  pub compute_verdict_mono :
      (a b confidence : Float) (is_degraded gateway_mode : Bool)
      (thresholds : Option VerdictThresholds)
      → ops.le a b ≡ true
      → severity (compute_verdict ops a confidence is_degraded thresholds gateway_mode)
        ≤ severity (compute_verdict ops b confidence is_degraded thresholds gateway_mode)
  unfolding compute_verdict
  compute_verdict_mono a b confidence is_degraded gateway_mode thresholds h =
      verdict_at_mono (thresholds_or_default ops thresholds) gateway_mode _ _
        (effective_risk_mono confidence is_degraded a b h)

  le-effective_risk :
      (risk confidence : Float)
      → ops.le risk (ops.decimal 10 1) ≡ true
      → ops.le risk risk ≡ true
      → ops.le risk (effective_risk ops risk confidence true) ≡ true
  unfolding effective_risk min_float
  le-effective_risk risk confidence cap self = ground (arith, laws.le-add_tenth risk self)

  -- At the same risk and confidence, a result that is marked as degraded never has a milder verdict
  -- than one that is not, for a risk that is a number of at most 1.0.
  pub degraded_no_milder :
      (risk confidence : Float) (gateway_mode : Bool) (thresholds : Option VerdictThresholds)
      → ops.le risk (ops.decimal 10 1) ≡ true
      → ops.le risk risk ≡ true
      → severity (compute_verdict ops risk confidence false thresholds gateway_mode)
        ≤ severity (compute_verdict ops risk confidence true thresholds gateway_mode)
  unfolding compute_verdict effective_risk
  degraded_no_milder risk confidence gateway_mode thresholds cap self =
      verdict_at_mono (thresholds_or_default ops thresholds) gateway_mode risk _
        (le-effective_risk risk confidence cap self)
