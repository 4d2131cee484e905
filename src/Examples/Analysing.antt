-- ===== src/Examples/Analysing.antt =====
-- The analysis of a message.
use mind_wall.Prelude.{◌≡◌, ◌↔◌, ◌⊎◌, refl, true, false, none, some, List, [], ◌∷◌, select, ok}
use mind_wall.Wire.{codes, contains}
use mind_wall.Wire.Splitting.{split_all}
use mind_wall.Models.Verdicts.{ManipulationDimension, all_dimensions, dimension_value}
use mind_wall.Models.Analysing.{text_source, StoredMessage, ParsedMessage}
use mind_wall.Models.Session.{empty_session}
use mind_wall.Analysis.Checks.{TextLibrary}
use mind_wall.Analysis.Urls.{
  is_ip_host, is_deep, ip_finding, deep_finding, keyword_finding, scan_urls, url_findings,
  check_suspicious_url_structure, nothing_seen,
}
use mind_wall.Analysis.Urls.Once.{
  of_rule, first_finding, has_path_keyword, check_suspicious_url_structure_once,
}
use mind_wall.Analysis.Scores.{all_findings, run_deterministic_checks}
use mind_wall.Analysis.Response.{
  number, object, Fields, no_field, field, ResponseLibrary, LlmAnalysisResponse, parse_llm_response,
}
use mind_wall.Analysis.Response.Valid.{unchecked, parse_llm_response-unchecked}
use mind_wall.Analysis.Llm.{Generate, consult_llm}
use mind_wall.Analysis.Llm.Asked.{IsConsulted, consult_llm_exact}
use mind_wall.Analysis.Runs.{
  AnalysisLibrary, AnalysisRequest, Assessment, build_parsed_message, parsed_with, assess,
}
use mind_wall.Analysis.Service.{run_of, save_run, run_analysis, get_latest_analysis}
use mind_wall.Analysis.Service.Recorded.{IsRecorded, run_analysis_exact}
use mind_wall.Analysis.Service.Latest.{run_analysis_latest}
use mind_wall.Examples.Concrete.{six_decimals, six_decimals-FloatLaws, after_all}

-- A platform on which no expression matches and every URL is its own path.
abbrev plain_texts : TextLibrary
plain_texts = record {
  lower = λ t. t;
  search = λ p t. none;
  search_exact = λ p t. none;
  matches = λ p t. false;
  url_path = λ t. some t;
  set_order = λ ws. ws;
}

abbrev low_scores : List ManipulationDimension → Fields
low_scores [] = no_field
low_scores (d ∷ ds) = field (codes (dimension_value d)) (number 100000) (low_scores ds)

-- An LLM whose every answer is read as a risk of 0.9.
abbrev plain_responses : ResponseLibrary
plain_responses = record {
  strip = λ t. t;
  remove = λ p t. t;
  loads =
      λ t. ok (object (field (codes "overall_risk") (number 900000) (low_scores all_dimensions)));
  str = λ x. [];
  float_of_int = λ n. none;
  float_of_text = λ t. none;
}

abbrev plain_library : AnalysisLibrary
plain_library = record {
  texts = plain_texts;
  responses = plain_responses;
  ops = six_decimals;
  load_addresses = λ t. none;
  dumps = λ x. [];
}

abbrev sure : Generate
sure prompt = some (record { raw_text = codes "{}"; model = codes "llama"; done = true })

abbrev ask : AnalysisRequest
ask = record {
  ollama_client = some sure;
  llm_enabled = true;
  thresholds = none;
  gateway_mode = false;
  quarantine_soft_hold = false;
  actor_user_id = none;
}

-- A message with a link to a login page.
abbrev lure : StoredMessage
lure = record {
  id = 4;
  raw_size_bytes = 100;
  raw_sha256 = codes "00";
  raw_storage_path = none;
  message_id = none;
  in_reply_to = none;
  references = none;
  subject = some (codes "Hello");
  from_address = some (codes "anna@example.com");
  from_display_name = none;
  reply_to_address = none;
  to_addresses = none;
  cc_addresses = none;
  bcc_addresses = none;
  date = none;
  has_text_plain = true;
  has_text_html = false;
  text_plain = some (codes "Hello");
  text_html_safe = none;
  header_authentication_results = none;
  header_received_spf = none;
  header_dkim_signature_present = true;
  header_x_mailer = none;
  urls =
      record {
        raw_url = codes "/login";
        normalized_url = codes "/login";
        scheme = none;
        host = none;
        path = none;
        source = text_source;
        link_text = none;
      }
      ∷ [];
  attachments = [];
}

abbrev parsed_lure : ParsedMessage
parsed_lure = parsed_with plain_library lure [] [] []

consult_llm_exact_example :
    let o = consult_llm plain_responses six_decimals true (some sure) (codes "Hello") in
    ((result : LlmAnalysisResponse)
      → (o.llm_result ≡ some result)
        ↔ IsConsulted plain_responses six_decimals true (some sure) (codes "Hello") result)
    × ((o.is_degraded ≡ true) ↔ (o.llm_result ≡ none))
consult_llm_exact_example =
    consult_llm_exact plain_responses six_decimals true (some sure) (codes "Hello")

parse_llm_response-unchecked_example :
    parse_llm_response plain_responses six_decimals (codes "{}")
    ≡ unchecked plain_responses six_decimals six_decimals-FloatLaws (codes "{}")
parse_llm_response-unchecked_example =
    parse_llm_response-unchecked plain_responses six_decimals six_decimals-FloatLaws (codes "{}")

run_analysis_exact_example :
    ((a : Assessment) × (assess plain_library ask lure ≡ some a)
      × ((run_analysis plain_library after_all 9 ask lure empty_session).0
          ≡ some (run_of plain_library after_all 9 ask lure a empty_session))
      × IsRecorded plain_library ask lure a
          (run_of plain_library after_all 9 ask lure a empty_session)
          empty_session
          (run_analysis plain_library after_all 9 ask lure empty_session).1)
    ⊎ ((assess plain_library ask lure ≡ none)
        × ((run_analysis plain_library after_all 9 ask lure empty_session).0 ≡ none)
        × ((run_analysis plain_library after_all 9 ask lure empty_session).1 ≡ empty_session))
run_analysis_exact_example = run_analysis_exact plain_library after_all 9 ask lure empty_session

check_suspicious_url_structure_once_example :
    let fs =
      url_findings plain_texts six_decimals
        (record {
          raw_url = codes "/login";
          normalized_url = codes "/login";
          scheme = [];
          host = [];
          path = [];
          source = text_source;
          link_text = none;
        })
        (codes "/login")
        nothing_seen in
    (select (of_rule (codes "url_ip_address_host")) fs
      ≡ first_finding plain_texts six_decimals
          (is_ip_host plain_texts)
          (ip_finding plain_texts six_decimals)
          parsed_lure.urls)
    × (select (of_rule (codes "url_excessive_subdomains")) fs
        ≡ first_finding plain_texts six_decimals
            (is_deep plain_texts)
            (deep_finding plain_texts six_decimals)
            parsed_lure.urls)
    × (select (of_rule (codes "url_credential_path")) fs
        ≡ first_finding plain_texts six_decimals
            (has_path_keyword plain_texts six_decimals)
            (keyword_finding plain_texts six_decimals)
            parsed_lure.urls)
unfolding check_suspicious_url_structure scan_urls parsed_with url_findings split_all contains
check_suspicious_url_structure_once_example =
    check_suspicious_url_structure_once plain_texts six_decimals parsed_lure refl

run_analysis_latest_example :
    get_latest_analysis 4 (run_analysis plain_library after_all 9 ask lure empty_session).1
    ≡ (run_analysis plain_library after_all 9 ask lure empty_session).0
unfolding run_analysis save_run assess build_parsed_message parsed_with run_deterministic_checks
    all_findings check_suspicious_url_structure scan_urls
run_analysis_latest_example =
    run_analysis_latest plain_library after_all 9 ask lure empty_session tt refl
