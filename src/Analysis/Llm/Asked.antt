-- ===== src/Analysis/Llm/Asked.antt =====
-- app/analysis/service.py: when an analysis has an answer of the LLM.
use mind_wall.Prelude.{
  ◌≡◌, ◌↔◌, refl, sym, ap, subst, Bool, true, false, Option, none, some, Option-cases, Result-cases,
  inl, inr, ok, err,
}
use mind_wall.Wire.{Text}
use mind_wall.Models.Numbers.{FloatOps}
use mind_wall.Analysis.Prompt.{build_strict_retry_prompt}
use mind_wall.Analysis.Response.{
  NoResponse, none_returned, raised, ResponseLibrary, LlmAnalysisResponse, parse_llm_response,
}
use mind_wall.Analysis.Llm.{
  OllamaResponse, Generate, LlmOutcome, degraded_outcome, answered, retry_llm, ask_llm, consult_llm,
}

module _ (lib : ResponseLibrary) (ops : FloatOps) where
  -- The client's answer to the prompt is read, or it is refused and the answer to the stricter prompt
  -- is read.
  pub data IsAnswer (generate : Generate) (prompt : Text) (result : LlmAnalysisResponse)
      : Type 0 where
    at_once :
        {first : OllamaResponse}
        → generate prompt ≡ some first
        → parse_llm_response lib ops first.raw_text ≡ ok result
        → IsAnswer generate prompt result
    on_retry :
        {first second : OllamaResponse}
        → generate prompt ≡ some first
        → parse_llm_response lib ops first.raw_text ≡ err none_returned
        → generate (build_strict_retry_prompt prompt) ≡ some second
        → parse_llm_response lib ops second.raw_text ≡ ok result
        → IsAnswer generate prompt result

  never :
      {generate : Generate} {prompt : Text}
      → generate prompt ≡ none
      → (result : LlmAnalysisResponse) → ¬ IsAnswer generate prompt result
  never e result (at_once g p) = cc
  never e result (on_retry g p g' p') = cc

  never_raised :
      {generate : Generate} {prompt : Text} (first : OllamaResponse)
      → generate prompt ≡ some first
      → parse_llm_response lib ops first.raw_text ≡ err raised
      → (result : LlmAnalysisResponse) → ¬ IsAnswer generate prompt result
  never_raised first e f result (at_once g p) = cc
  never_raised first e f result (on_retry g p g' p') = cc

  module _ {generate : Generate} {prompt : Text} (first : OllamaResponse) where
    never_again :
        generate prompt ≡ some first
        → parse_llm_response lib ops first.raw_text ≡ err none_returned
        → generate (build_strict_retry_prompt prompt) ≡ none
        → (result : LlmAnalysisResponse) → ¬ IsAnswer generate prompt result
    never_again e f m result (at_once g p) = cc
    never_again e f m result (on_retry g p g' p') = cc

    never_read :
        (second : OllamaResponse) (x : NoResponse)
        → generate prompt ≡ some first
        → parse_llm_response lib ops first.raw_text ≡ err none_returned
        → generate (build_strict_retry_prompt prompt) ≡ some second
        → parse_llm_response lib ops second.raw_text ≡ err x
        → (result : LlmAnalysisResponse) → ¬ IsAnswer generate prompt result
    never_read second x e f m q result (at_once g p) = cc
    never_read second x e f m q result (on_retry g p g' p') = cc

    -- There is no second answer.
    only_once :
        {result result' : LlmAnalysisResponse}
        → generate prompt ≡ some first
        → parse_llm_response lib ops first.raw_text ≡ ok result
        → IsAnswer generate prompt result'
        → result' ≡ result
    only_once e f (at_once g p) = cc
    only_once e f (on_retry g p g' p') = cc

    only_then :
        {result result' : LlmAnalysisResponse} (second : OllamaResponse)
        → generate prompt ≡ some first
        → parse_llm_response lib ops first.raw_text ≡ err none_returned
        → generate (build_strict_retry_prompt prompt) ≡ some second
        → parse_llm_response lib ops second.raw_text ≡ ok result
        → IsAnswer generate prompt result'
        → result' ≡ result
    only_then second e f m q (at_once g p) = cc
    only_then second e f m q (on_retry g p g' p') = cc

  -- What an outcome says of the results that there may be.
  record IsOutcome (P : LlmAnalysisResponse → Type 0) (o : LlmOutcome) : Type 0 where
    result_iff : (result : LlmAnalysisResponse) → (o.llm_result ≡ some result) ↔ P result
    degraded_iff : (o.is_degraded ≡ true) ↔ (o.llm_result ≡ none)

  degraded-IsOutcome :
      (P : LlmAnalysisResponse → Type 0) (raw name : Option Text)
      → ((result : LlmAnalysisResponse) → ¬ P result)
      → IsOutcome P (degraded_outcome raw name)
  degraded-IsOutcome P raw name n = record {
    result_iff = λ result. (λ e. cc, λ p. absurd (n result p));
    degraded_iff = (λ e. refl, λ e. refl);
  }

  answered-IsOutcome :
      (P : LlmAnalysisResponse → Type 0) (result : LlmAnalysisResponse) (raw name : Text)
      → P result
      → ((result' : LlmAnalysisResponse) → P result' → result' ≡ result)
      → IsOutcome P (answered result raw name)
  answered-IsOutcome P result raw name p only = record {
    result_iff = λ result'. (
      λ e. (let q : result ≡ result' = cc in subst P q p),
      λ p'. ap some (sym (only result' p')),
    );
    degraded_iff = (λ e. cc, λ e. cc);
  }

  retry_llm-IsOutcome :
      (generate : Generate) (prompt : Text) (first : OllamaResponse)
      → generate prompt ≡ some first
      → parse_llm_response lib ops first.raw_text ≡ err none_returned
      → IsOutcome (IsAnswer generate prompt) (retry_llm lib ops generate prompt first)
  unfolding retry_llm
  retry_llm-IsOutcome generate prompt first e f =
      elim (Option-cases (generate (build_strict_retry_prompt prompt))) [
        | inl missing ↦
            rw (missing, retry_llm)
              (degraded-IsOutcome (IsAnswer generate prompt) _ _ (never_again first e f missing))
        | inr (second, found) ↦ elim (Result-cases (parse_llm_response lib ops second.raw_text)) [
          | inl (result, read) ↦
              rw (found, read, retry_llm)
                (answered-IsOutcome (IsAnswer generate prompt) result _ _ (on_retry e f found read)
                  (λ result' p. only_then first second e f found read p))
          | inr (x, refused) ↦
              rw (found, refused, retry_llm)
                (degraded-IsOutcome (IsAnswer generate prompt) _ _
                  (never_read first second x e f found refused))
        ]
      ]

  ask_llm-IsOutcome :
      (generate : Generate) (prompt : Text)
      → IsOutcome (IsAnswer generate prompt) (ask_llm lib ops generate prompt)
  unfolding ask_llm
  ask_llm-IsOutcome generate prompt = elim (Option-cases (generate prompt)) [
    | inl missing ↦
        rw (missing, ask_llm) (degraded-IsOutcome (IsAnswer generate prompt) _ _ (never missing))
    | inr (first, found) ↦ elim (Result-cases (parse_llm_response lib ops first.raw_text)) [
      | inl (result, read) ↦
          rw (found, read, ask_llm)
            (answered-IsOutcome (IsAnswer generate prompt) result _ _ (at_once found read)
              (λ result' p. only_once first found read p))
      | inr (none_returned, refused) ↦
          rw (found, refused, ask_llm) (retry_llm-IsOutcome generate prompt first found refused)
      | inr (raised, refused) ↦
          rw (found, refused, ask_llm)
            (degraded-IsOutcome (IsAnswer generate prompt) _ _ (never_raised first found refused))
    ]
  ]

  -- The LLM is enabled, there is a client, and it gives the answer.
  abbrev pub IsConsulted : Bool → Option Generate → Text → LlmAnalysisResponse → Type 0
  IsConsulted llm_enabled client prompt result =
      (llm_enabled ≡ true)
      × ((generate : Generate) × (client ≡ some generate) × IsAnswer generate prompt result)

  consult_llm-IsOutcome :
      (llm_enabled : Bool) (client : Option Generate) (prompt : Text)
      → IsOutcome
          (IsConsulted llm_enabled client prompt)
          (consult_llm lib ops llm_enabled client prompt)
  unfolding consult_llm
  consult_llm-IsOutcome llm_enabled none prompt =
      degraded-IsOutcome (IsConsulted llm_enabled none prompt) none none (λ result p. cc (p.1.1))
  consult_llm-IsOutcome false (some generate) prompt =
      degraded-IsOutcome (IsConsulted false (some generate) prompt) none none (λ result p. cc (p.0))
  consult_llm-IsOutcome true (some generate) prompt =
      let h = ask_llm-IsOutcome generate prompt in
      record {
        result_iff = λ result. (
          λ e. (refl, (generate, refl, (h.result_iff result).0 e)),
          λ p.
              (let (_, (g, same, answer)) = p in
                let q : g ≡ generate = cc in
                (h.result_iff result).1 (subst (λ x. IsAnswer x prompt result) q answer)),
        );
        degraded_iff = h.degraded_iff;
      }

  -- A run has a result of the LLM exactly when the LLM is enabled, there is a client, and its answer
  -- to the prompt is read, or is refused and the answer to the stricter prompt is read; then it is what
  -- was read. A run is degraded exactly when it has no result.
  pub consult_llm_exact :
      (llm_enabled : Bool) (client : Option Generate) (prompt : Text)
      → let o = consult_llm lib ops llm_enabled client prompt in
        ((result : LlmAnalysisResponse)
          → (o.llm_result ≡ some result) ↔ IsConsulted llm_enabled client prompt result)
        × ((o.is_degraded ≡ true) ↔ (o.llm_result ≡ none))
  consult_llm_exact llm_enabled client prompt =
      let h = consult_llm-IsOutcome llm_enabled client prompt in (h.result_iff, h.degraded_iff)
