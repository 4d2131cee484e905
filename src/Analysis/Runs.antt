-- ===== src/Analysis/Runs.antt =====
-- app/analysis/service.py: the run of an analysis, and what it writes.
use mind_wall.Prelude.{
  ℕ, Bool, true, false, not, ◌&&◌, Option, none, some, List, [], ◌∷◌, ◌++◌, map, take, length,
  if◌then◌else◌,
}
use mind_wall.Wire.{Text, codes}
use mind_wall.Wire.Numerals.{show}
use mind_wall.Models.Numbers.{Float, FloatOps}
use mind_wall.Models.Verdicts.{Verdict, ManipulationDimension, dimension_value}
use mind_wall.Models.Analysing.{
  ExtractedUrl, ExtractedAttachment, ParsedMessage, MessageUrl, MessageAttachment, StoredMessage,
  complete, degraded, ollama, no_provider, AnalysisRun,
}
use mind_wall.Policies.Verdicts.{VerdictThresholds, compute_verdict}
use mind_wall.Analysis.Checks.{TextLibrary, Finding, is_given, or_empty}
use mind_wall.Analysis.Scores.{DeterministicResult, to_evidence_list, run_deterministic_checks}
use mind_wall.Analysis.Prompt.{prompt_version, build_analysis_prompt}
use mind_wall.Analysis.Response.{
  Json, text, number, array, object, Elements, no_element, element, no_field, field,
  ResponseLibrary, LlmAnalysisResponse,
}
use mind_wall.Analysis.Llm.{Generate, LlmOutcome, consult_llm, CombinedScores, combine_scores}

-- What the run calls of Python and its library.
pub record AnalysisLibrary : Type 0 where
  pub texts : TextLibrary
  pub responses : ResponseLibrary
  pub ops : FloatOps
  -- json.loads of a list of addresses, `none` where it raises
  pub load_addresses : Text → Option (List Text)
  -- json.dumps
  pub dumps : Json → Text

-- The arguments of a run beside the message.
pub record AnalysisRequest : Type 0 where
  pub ollama_client : Option Generate
  pub llm_enabled : Bool
  pub thresholds : Option VerdictThresholds
  pub gateway_mode : Bool
  pub quarantine_soft_hold : Bool
  pub actor_user_id : Option ℕ

-- What the steps before the writes compute.
pub record Assessment : Type 0 where
  pub det_result : DeterministicResult
  pub outcome : LlmOutcome
  pub scores : CombinedScores
  pub verdict : Verdict

abbrev extracted_url : MessageUrl → ExtractedUrl
extracted_url u = record {
  raw_url = u.raw_url;
  normalized_url = u.normalized_url;
  scheme = or_empty u.scheme;
  host = or_empty u.host;
  path = or_empty u.path;
  source = u.source;
  link_text = u.link_text;
}

abbrev extracted_attachment : MessageAttachment → ExtractedAttachment
extracted_attachment a = record {
  content_type = a.content_type;
  size_bytes = a.size_bytes;
  is_inline = a.is_inline;
  filename = a.filename;
  sha256 = a.sha256;
  content_id = a.content_id;
}

abbrev elements_of : List Text → Elements
elements_of [] = no_element
elements_of (t ∷ ts) = element (text t) (elements_of ts)

module _ (lib : AnalysisLibrary) where
  open lib use {ops}
  open ops use {decimal, round}

  abbrev addresses : Option Text → Option (List Text)
  addresses column = if is_given column then lib.load_addresses (or_empty column) else some []

  unfoldable pub parsed_with : StoredMessage → List Text → List Text → List Text → ParsedMessage
  parsed_with msg to cc bcc = record {
    raw_size_bytes = msg.raw_size_bytes;
    raw_sha256 = msg.raw_sha256;
    message_id = msg.message_id;
    in_reply_to = msg.in_reply_to;
    references = msg.references;
    subject = msg.subject;
    from_address = msg.from_address;
    from_display_name = msg.from_display_name;
    reply_to_address = msg.reply_to_address;
    to_addresses = to;
    cc_addresses = cc;
    bcc_addresses = bcc;
    date = msg.date;
    has_text_plain = msg.has_text_plain;
    has_text_html = msg.has_text_html;
    text_plain = msg.text_plain;
    text_html_safe = msg.text_html_safe;
    raw_storage_path = msg.raw_storage_path;
    header_authentication_results = msg.header_authentication_results;
    header_received_spf = msg.header_received_spf;
    header_dkim_signature_present = msg.header_dkim_signature_present;
    header_x_mailer = msg.header_x_mailer;
    urls = map extracted_url msg.urls;
    attachments = map extracted_attachment msg.attachments;
  }

  -- `_build_parsed_message_from_orm`; `none` where a list of addresses does not load.
  unfoldable pub build_parsed_message : StoredMessage → Option ParsedMessage
  unfolding parsed_with
  build_parsed_message msg = elim (addresses msg.to_addresses) [
    | none ↦ none
    | some to ↦ elim (addresses msg.cc_addresses) [
      | none ↦ none
      | some cc ↦ elim (addresses msg.bcc_addresses) [
        | none ↦ none
        | some bcc ↦ some (parsed_with msg to cc bcc)
      ]
    ]
  ]

  -- The steps after the deterministic checks, up to the verdict.
  unfoldable pub assess_with : AnalysisRequest → ParsedMessage → DeterministicResult → Assessment
  assess_with r parsed det_result =
      let outcome =
        consult_llm lib.responses ops r.llm_enabled r.ollama_client
          (build_analysis_prompt parsed det_result.findings) in
      let scores =
        combine_scores ops det_result.risk_score outcome.llm_result outcome.is_degraded in
      record {
        det_result = det_result;
        outcome = outcome;
        scores = scores;
        verdict =
            compute_verdict ops scores.overall_risk scores.confidence outcome.is_degraded
              r.thresholds r.gateway_mode;
      }

  -- `none` where an exception leaves the run before its first write.
  unfoldable pub assess : AnalysisRequest → StoredMessage → Option Assessment
  unfolding build_parsed_message assess_with
  assess r msg = elim (build_parsed_message msg) [
    | none ↦ none
    | some parsed ↦ elim (run_deterministic_checks lib.texts ops parsed) [
      | none ↦ none
      | some det_result ↦ some (assess_with r parsed det_result)
    ]
  ]

  -- `to_dict` of a finding.
  unfoldable pub to_dict : Finding → Json
  to_dict f = object (
      field (codes "rule") (text f.rule) (
        field (codes "description") (text f.description) (
          field (codes "severity") (number (round 3 f.severity)) (
            field (codes "dimensions")
              (array (
                elements_of
                  (map (λ (d : ManipulationDimension). codes (dimension_value d)) f.dimensions)))
              (field (codes "evidence") (text f.evidence) no_field)))))

  abbrev dicts_of : List Finding → Elements
  dicts_of [] = no_element
  dicts_of (f ∷ fs) = element (to_dict f) (dicts_of fs)

  abbrev summary_of : Option LlmAnalysisResponse → Option Text
  summary_of none = none
  summary_of (some result) = some result.summary

  abbrev evidence_of : Option LlmAnalysisResponse → List Text
  evidence_of none = []
  evidence_of (some result) = result.evidence

  abbrev risk_of : Option LlmAnalysisResponse → Option Float
  risk_of none = none
  risk_of (some result) = some (round 4 result.overall_risk)

  abbrev has_findings : List Finding → Bool
  has_findings [] = false
  has_findings (f ∷ fs) = true

  unfoldable pub rationale_of : Assessment → Text
  rationale_of a =
      if is_given (summary_of a.outcome.llm_result)
      then or_empty (summary_of a.outcome.llm_result)
      else if has_findings a.det_result.findings
      then codes "Deterministic-only analysis. Risk score: "
        ++ codes (ops.fixed 2 a.scores.overall_risk)
        ++ codes ". "
        ++ show (length a.det_result.findings)
        ++ codes " finding(s) detected."
      else codes "No significant risk indicators detected."

  abbrev raw_kept : Option Text → Option Text
  raw_kept o = if is_given o then some (take 8000 (or_empty o)) else none

  -- The row of a run.
  unfoldable pub analysis_run : ℕ → ℕ → AnalysisRequest → StoredMessage → Assessment → AnalysisRun
  unfolding to_dict rationale_of
  analysis_run id now r msg a =
      let is_degraded = a.outcome.is_degraded in
      record {
        id = id;
        message_id = msg.id;
        analysis_version = codes "1.0";
        prompt_version = if not is_degraded then some prompt_version else none;
        model_provider = if r.llm_enabled && not is_degraded then ollama else no_provider;
        model_name = a.outcome.model_name;
        status = if is_degraded then degraded else complete;
        is_degraded = is_degraded;
        deterministic_risk_score = some (round 4 a.det_result.risk_score);
        llm_risk_score = risk_of a.outcome.llm_result;
        overall_risk_score = some (round 4 a.scores.overall_risk);
        confidence = some (round 4 a.scores.confidence);
        verdict = some a.verdict;
        rationale = some (rationale_of a);
        evidence_json = some (
            lib.dumps (
              array (
                elements_of (
                  take 20 (
                    to_evidence_list a.det_result.findings ++ evidence_of a.outcome.llm_result)))));
        deterministic_findings_json = some (lib.dumps (array (dicts_of a.det_result.findings)));
        llm_raw_response = raw_kept a.outcome.llm_raw;
        created_at = now;
      }
