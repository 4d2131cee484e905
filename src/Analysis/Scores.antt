-- ===== src/Analysis/Scores.antt =====
-- app/analysis/deterministic.py: the findings of all checks, and the scores that they add up to.
use mind_wall.Prelude.{
  Bool, true, false, Option, none, some, List, [], ◌∷◌, ◌++◌, map, length, if◌then◌else◌,
}
use mind_wall.Wire.{Text, codes, is_empty}
use mind_wall.Models.Numbers.{Float, FloatOps, min_float, max_float}
use mind_wall.Models.Verdicts.{
  ManipulationDimension, authority_pressure, urgency_pressure, scarcity, fear_threat, reward_lure,
  curiosity_bait, reciprocity_obligation, social_proof, secrecy_isolation, impersonation,
  compliance_escalation, credential_or_payment_capture,
}
use mind_wall.Models.Analysing.{ParsedMessage}
use mind_wall.Analysis.Checks.{
  TextLibrary, Finding, check_display_name_reply_to_mismatch, check_url_link_text_mismatch,
}
use mind_wall.Analysis.Urls.{check_suspicious_url_structure}
use mind_wall.Analysis.Content.{
  check_risky_attachments, check_credential_language, check_payment_language,
  check_urgency_language, check_fear_language, check_no_plain_text_body, check_missing_auth_headers,
}

abbrev pub dimension_eq : ManipulationDimension → ManipulationDimension → Bool
dimension_eq authority_pressure authority_pressure = true
dimension_eq urgency_pressure urgency_pressure = true
dimension_eq scarcity scarcity = true
dimension_eq fear_threat fear_threat = true
dimension_eq reward_lure reward_lure = true
dimension_eq curiosity_bait curiosity_bait = true
dimension_eq reciprocity_obligation reciprocity_obligation = true
dimension_eq social_proof social_proof = true
dimension_eq secrecy_isolation secrecy_isolation = true
dimension_eq impersonation impersonation = true
dimension_eq compliance_escalation compliance_escalation = true
dimension_eq credential_or_payment_capture credential_or_payment_capture = true
dimension_eq _ _ = false

-- `dimension_scores` maps a dimension to its score; `none` for one that is not a key.
pub record DeterministicResult : Type 0 where
  pub findings : List Finding
  pub risk_score : Float
  pub dimension_scores : ManipulationDimension → Option Float

-- `to_evidence_list`.
unfoldable pub to_evidence_list : List Finding → List Text
to_evidence_list [] = []
to_evidence_list (f ∷ fs) =
    let rest = to_evidence_list fs in
    if is_empty f.evidence
    then rest
    else (codes "[" ++ f.rule ++ codes "] " ++ f.description ++ codes " — " ++ f.evidence) ∷ rest

abbrev pub severities : List Finding → List Float
severities fs = map (λ (f : Finding). f.severity) fs

abbrev pub count_as : ManipulationDimension → Float → List ManipulationDimension → List Float
count_as dim x [] = []
count_as dim x (d ∷ ds) =
    let rest = count_as dim x ds in if dimension_eq d dim then x ∷ rest else rest

-- The list of `dim_buckets` for a dimension, empty where it has none.
unfoldable pub dim_bucket : ManipulationDimension → List Finding → List Float
dim_bucket dim [] = []
dim_bucket dim (f ∷ fs) = count_as dim f.severity f.dimensions ++ dim_bucket dim fs

module _ (lib : TextLibrary) (ops : FloatOps) where
  open ops use {decimal, add, mul, div, round}

  -- `max` of a list that begins with the first argument.
  unfoldable pub max_of : Float → List Float → Float
  unfolding max_float
  max_of x [] = x
  max_of x (y ∷ ys) = max_of (max_float ops x y) ys

  -- The entry of `dimension_scores` for a bucket.
  unfoldable pub bucket_score : List Float → Option Float
  unfolding max_of min_float
  bucket_score [] = none
  bucket_score (x ∷ xs) = some (min_float ops (max_of x xs) (decimal 10 1))

  -- The overall score of the severities.
  unfoldable pub overall_score : List Float → Float
  unfolding max_of min_float
  overall_score [] = decimal 0 1
  overall_score (x ∷ xs) =
      let mean = div (ops.sum (x ∷ xs)) (decimal (length (x ∷ xs)) 0) in
      round 4 (
        min_float ops (add (mul (max_of x xs) (decimal 6 1)) (mul mean (decimal 4 1)))
          (decimal 10 1))

  -- The findings of the ten checks in order; `none` where one raises.
  unfoldable pub all_findings : ParsedMessage → Option (List Finding)
  all_findings msg = elim (check_suspicious_url_structure lib ops msg) [
    | none ↦ none
    | some url_findings ↦ some (
        check_display_name_reply_to_mismatch lib ops msg
        ++ check_url_link_text_mismatch lib ops msg
        ++ url_findings
        ++ check_risky_attachments lib ops msg
        ++ check_credential_language lib ops msg
        ++ check_payment_language lib ops msg
        ++ check_urgency_language lib ops msg
        ++ check_fear_language lib ops msg
        ++ check_no_plain_text_body lib ops msg
        ++ check_missing_auth_headers lib ops msg)
  ]

  unfoldable pub aggregate : List Finding → DeterministicResult
  unfolding overall_score bucket_score dim_bucket
  aggregate fs = record {
    findings = fs;
    risk_score = overall_score (severities fs);
    dimension_scores = λ dim. bucket_score (dim_bucket dim fs);
  }

  -- `run_deterministic_checks`.
  unfoldable pub run_deterministic_checks : ParsedMessage → Option DeterministicResult
  unfolding all_findings aggregate
  run_deterministic_checks msg = elim (all_findings msg) [
    | none ↦ none
    | some fs ↦ some (aggregate fs)
  ]
