-- ===== src/Analysis/Llm.antt =====
-- app/analysis/service.py: the call of the LLM with one retry, and the combination of the scores.
pub mod Asked
use mind_wall.Prelude.{
  ℕ, Bool, true, false, not, ◌&&◌, ◌||◌, Option, none, some, List, [], ◌∷◌, map, if◌then◌else◌,
  Result, ok, err,
}
use mind_wall.Wire.{Text}
use mind_wall.Models.Numbers.{Float, FloatOps}
use mind_wall.Models.Verdicts.{ManipulationDimension, all_dimensions}
use mind_wall.Analysis.Scores.{dimension_eq}
use mind_wall.Analysis.Prompt.{build_strict_retry_prompt}
use mind_wall.Analysis.Response.{
  NoResponse, none_returned, raised, ResponseLibrary, LlmAnalysisResponse, parse_llm_response,
}

pub record OllamaResponse : Type 0 where
  pub raw_text : Text
  pub model : Text
  pub done : Bool

-- `generate` of the client; `none` where it raises, an OllamaError or anything else.
abbrev pub Generate : Type 0
Generate = Text → Option OllamaResponse

-- The variables that the call of the LLM assigns.
pub record LlmOutcome : Type 0 where
  pub llm_result : Option LlmAnalysisResponse
  pub llm_raw : Option Text
  pub model_name : Option Text
  pub is_degraded : Bool

abbrev pub degraded_outcome : Option Text → Option Text → LlmOutcome
degraded_outcome raw name = record {
  llm_result = none;
  llm_raw = raw;
  model_name = name;
  is_degraded = true;
}

abbrev pub answered : LlmAnalysisResponse → Text → Text → LlmOutcome
answered result raw name = record {
  llm_result = some result;
  llm_raw = some raw;
  model_name = some name;
  is_degraded = false;
}

module _ (lib : ResponseLibrary) (ops : FloatOps) where
  -- The second call, whose model's name is not kept.
  unfoldable pub retry_llm : Generate → Text → OllamaResponse → LlmOutcome
  retry_llm generate prompt first = elim (generate (build_strict_retry_prompt prompt)) [
    | none ↦ degraded_outcome (some first.raw_text) (some first.model)
    | some second ↦ elim (parse_llm_response lib ops second.raw_text) [
      | ok result ↦ answered result second.raw_text first.model
      | err _ ↦ degraded_outcome (some second.raw_text) (some first.model)
    ]
  ]

  -- The `try` of the LLM analysis.
  unfoldable pub ask_llm : Generate → Text → LlmOutcome
  unfolding retry_llm
  ask_llm generate prompt = elim (generate prompt) [
    | none ↦ degraded_outcome none none
    | some first ↦ elim (parse_llm_response lib ops first.raw_text) [
      | ok result ↦ answered result first.raw_text first.model
      | err none_returned ↦ retry_llm generate prompt first
      | err raised ↦ degraded_outcome (some first.raw_text) (some first.model)
    ]
  ]

  -- The LLM is asked where it is enabled and there is a client.
  unfoldable pub consult_llm : Bool → Option Generate → Text → LlmOutcome
  unfolding ask_llm
  consult_llm llm_enabled none prompt = degraded_outcome none none
  consult_llm llm_enabled (some generate) prompt =
      if llm_enabled then ask_llm generate prompt else degraded_outcome none none

-- `dimension_scores.get(d, 0.0)` of a response.
unfoldable pub score_or :
    Float → ManipulationDimension → List (ManipulationDimension × Float) → Float
score_or default d [] = default
score_or default d ((k, x) ∷ rest) = if dimension_eq k d then x else score_or default d rest

pub record CombinedScores : Type 0 where
  pub overall_risk : Float
  pub confidence : Float
  pub merged_dims : List (ManipulationDimension × Float)

module _ (ops : FloatOps) where
  open ops use {decimal, add, mul, round}

  abbrev pub checks_only : Float → CombinedScores
  checks_only det_risk = record {
    overall_risk = det_risk;
    confidence = decimal 35 2;
    merged_dims = map (λ (d : ManipulationDimension). (d, decimal 0 1)) all_dimensions;
  }

  abbrev pub with_llm : Float → LlmAnalysisResponse → CombinedScores
  with_llm det_risk result = record {
    overall_risk =
        round 4 (add (mul det_risk (decimal 40 2)) (mul result.overall_risk (decimal 60 2)));
    confidence = result.confidence;
    merged_dims =
        map
          (λ (d : ManipulationDimension).
            (d, round 4 (score_or (decimal 0 1) d result.dimension_scores)))
          all_dimensions;
  }

  -- `_combine_scores`.
  unfoldable pub combine_scores : Float → Option LlmAnalysisResponse → Bool → CombinedScores
  unfolding score_or
  combine_scores det_risk none is_degraded = checks_only det_risk
  combine_scores det_risk (some result) is_degraded =
      if is_degraded then checks_only det_risk else with_llm det_risk result
