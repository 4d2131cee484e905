-- ===== src/Analysis/Response/Valid.antt =====
-- app/analysis/prompt.py, `parse_llm_response` and `is_valid`.
use mathlib.Core.Path.{fun_ext}
use mind_wall.Prelude.{
  suc, ◌≡◌, refl, subst, ap, true, List, [], ◌∷◌, length, Result-cases, inl, inr, if◌then◌else◌,
  Result, ok, err, ◌>>=◌, >>=-returned, arith,
}
use mind_wall.Wire.{Text, codes, is_empty}
use mind_wall.Models.Numbers.{Float, FloatOps, FloatLaws, min_float, max_float}
use mind_wall.Models.Verdicts.{ManipulationDimension, all_dimensions, dimension_value}
use mind_wall.Analysis.Response.{
  NoResponse, none_returned, ResponseLibrary, LlmAnalysisResponse, Fields, or_stop, as_dict,
  given_value, get_field, risk_of, confidence_of, evidence_of, dimensions_of, to_float, clamp,
  required_score, required_scores, response_of, read_response, in_unit, all_in_unit, is_valid,
  without_fences, json_block, parse_llm_response,
}

module _ (lib : ResponseLibrary) (ops : FloatOps) (laws : FloatLaws ops) where
  -- Whatever is clamped is within 0.0 and 1.0, also what is not a number.
  clamp-in_unit : (x : Float) → in_unit lib ops (clamp lib ops x) ≡ true
  unfolding clamp min_float max_float
  clamp-in_unit x = ground (
    arith,
    laws.zero_le_one,
    laws.le_refl_decimal 0 1,
    laws.le_refl_decimal 10 1,
    laws.le_of_lt x (ops.decimal 10 1),
    laws.le_of_lt (ops.decimal 0 1) x,
  )

  -- A score that is given is within the bounds.
  required_score-in_unit :
      (parsed : Fields) (d : ManipulationDimension) {x : Float}
      → required_score lib ops parsed d ≡ ok x
      → in_unit lib ops x ≡ true
  unfolding required_score
  required_score-in_unit parsed d {x} e =
      let (raw_score, _, e1) =
        >>=-returned (given_value (get_field (codes (dimension_value d)) parsed))
          (λ raw. (to_float lib ops raw >>= λ x. ok (clamp lib ops x))) e in
      let (y, _, e2) = >>=-returned (to_float lib ops raw_score) (λ x. ok (clamp lib ops x)) e1 in
      let q : clamp lib ops y ≡ x = cc in subst (λ z. in_unit lib ops z ≡ true) q (clamp-in_unit y)

  -- The scores of the dimensions are all there, and within the bounds.
  required_scores-in_unit :
      (parsed : Fields) (ds : List ManipulationDimension)
      {scores : List (ManipulationDimension × Float)}
      → required_scores lib ops parsed ds ≡ ok scores
      → (length scores ≡ length ds) × (all_in_unit lib ops scores ≡ true)
  unfolding required_scores
  required_scores-in_unit parsed [] {scores} e =
      let q : [] ≡ scores = cc in
      subst (λ s. (length s ≡ 0) × (all_in_unit lib ops s ≡ true)) q (refl, refl)
  required_scores-in_unit parsed (d ∷ ds) {scores} e =
      let (x, ex, e1) =
        >>=-returned (required_score lib ops parsed d)
          (λ x. (required_scores lib ops parsed ds >>= λ rest. ok ((d, x) ∷ rest))) e in
      let (rest, er, e2) =
        >>=-returned (required_scores lib ops parsed ds) (λ rest. ok ((d, x) ∷ rest)) e1 in
      let (same, bounded) = required_scores-in_unit parsed ds er in
      let q : (d, x) ∷ rest ≡ scores = cc in
      subst (λ s. (length s ≡ length (d ∷ ds)) × (all_in_unit lib ops s ≡ true)) q
        (ap suc same, rw (required_score-in_unit parsed d ex, bounded) refl)

  -- What is made of scores that are there is valid.
  scores-is_valid :
      (parsed dim_data : Fields) (risk certainty : Float) (texts : List Text)
      {r : LlmAnalysisResponse}
      → (required_scores lib ops dim_data all_dimensions >>= λ scores.
          ok (response_of lib ops parsed risk certainty texts scores))
        ≡ ok r
      → is_valid lib ops r ≡ true
  unfolding is_valid
  scores-is_valid parsed dim_data risk certainty texts {r} e =
      let (scores, es, e1) =
        >>=-returned (required_scores lib ops dim_data all_dimensions)
          (λ scores. ok (response_of lib ops parsed risk certainty texts scores)) e in
      let (same, bounded) = required_scores-in_unit dim_data all_dimensions es in
      let q : response_of lib ops parsed risk certainty texts scores ≡ r = cc in
      subst (λ z. is_valid lib ops z ≡ true) q
        (rw (clamp-in_unit risk, clamp-in_unit certainty, same, bounded) refl)

  -- What the body of the `try` returns is valid.
  read_response-is_valid :
      (parsed : Fields) {r : LlmAnalysisResponse}
      → read_response lib ops parsed ≡ ok r
      → is_valid lib ops r ≡ true
  unfolding read_response is_valid
  read_response-is_valid parsed {r} e = elim (Result-cases (risk_of lib ops parsed)) [
    | inr (_, failed) ↦ (let e' = rw failed at e in cc)
    | inl (risk, found) ↦
        (let e1 = rw found at e in
          elim (Result-cases (confidence_of lib ops parsed)) [
            | inr (_, failed) ↦ (let e' = rw failed at e1 in cc)
            | inl (certainty, found) ↦
                (let e2 = rw found at e1 in
                  elim (Result-cases (evidence_of lib ops parsed)) [
                    | inr (_, failed) ↦ (let e' = rw failed at e2 in cc)
                    | inl (texts, found) ↦
                        (let e3 = rw found at e2 in
                          elim (Result-cases (dimensions_of lib ops parsed)) [
                            | inr (_, failed) ↦ (let e' = rw failed at e3 in cc)
                            | inl (dim_data, found) ↦
                                (let e4 = rw found at e3 in
                                  scores-is_valid parsed dim_data risk certainty texts e4)
                          ])
                  ])
          ])
  ]

  -- The parser without the last check.
  abbrev pub unchecked : Text → Result NoResponse LlmAnalysisResponse
  unchecked raw_text = if is_empty raw_text then err none_returned else (do
    block ← or_stop none_returned (json_block lib ops (without_fences lib ops raw_text))
    value ← lib.loads block
    parsed ← as_dict value
    read_response lib ops parsed)

  checked_result :
      (parsed : Fields)
      → (read_response lib ops parsed >>= λ r.
          if is_valid lib ops r then ok r else err none_returned)
        ≡ read_response lib ops parsed
  checked_result parsed = elim (Result-cases (read_response lib ops parsed)) [
    | inl (r, found) ↦ rw (found, read_response-is_valid parsed found) refl
    | inr (e, failed) ↦ rw failed refl
  ]

  -- Whatever the LLM answers, the check at the end of the parser never refuses what it has read: the
  -- scores are already within 0.0 and 1.0 and those of the twelve dimensions.
  pub parse_llm_response-unchecked :
      (raw_text : Text) → parse_llm_response lib ops raw_text ≡ unchecked raw_text
  unfolding parse_llm_response
  parse_llm_response-unchecked raw_text =
      ap
        (λ (last : Fields → Result NoResponse LlmAnalysisResponse).
          if is_empty raw_text then err none_returned else (do
            block ← or_stop none_returned (json_block lib ops (without_fences lib ops raw_text))
            value ← lib.loads block
            parsed ← as_dict value
            last parsed))
        (fun_ext checked_result)
