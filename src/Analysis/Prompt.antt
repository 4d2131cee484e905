-- ===== src/Analysis/Prompt.antt =====
-- app/analysis/prompt.py: the prompts that the LLM is sent.
use mind_wall.Prelude.{
  ℕ, String, Bool, true, false, ◌==◌, List, [], ◌∷◌, ◌++◌, map, take, length, if◌then◌else◌,
}
use mind_wall.Wire.{Text, codes, is_empty}
use mind_wall.Wire.Numerals.{show}
use mind_wall.Models.Verdicts.{
  ManipulationDimension, authority_pressure, urgency_pressure, scarcity, fear_threat, reward_lure,
  curiosity_bait, reciprocity_obligation, social_proof, secrecy_isolation, impersonation,
  compliance_escalation, credential_or_payment_capture, all_dimensions, dimension_value,
  dimension_label,
}
use mind_wall.Models.Analysing.{ExtractedUrl, ParsedMessage}
use mind_wall.Analysis.Checks.{Finding, is_given, or_empty, join}
use mind_wall.Analysis.Scores.{to_evidence_list}

-- `_DIMENSION_DESCRIPTIONS`.
abbrev pub dimension_description : ManipulationDimension → String
dimension_description authority_pressure =
    "Invokes authority figures, organisations, or officials to compel action"
dimension_description urgency_pressure =
    "Creates artificial time pressure or urgency to prevent careful reflection"
dimension_description scarcity =
    "Implies limited availability of an opportunity, resource, or outcome"
dimension_description fear_threat = "Uses fear, threats, or warnings of negative consequences"
dimension_description reward_lure = "Promises reward, prize, compensation, or financial gain"
dimension_description curiosity_bait =
    "Baits with incomplete information or intrigue to drive clicks"
dimension_description reciprocity_obligation =
    "Creates a sense of obligation or debt to prompt compliance"
dimension_description social_proof = "Claims that others have already complied or approved"
dimension_description secrecy_isolation = "Asks recipient to keep the message private or act alone"
dimension_description impersonation = "Pretends to be a trusted entity, brand, or individual"
dimension_description compliance_escalation =
    "Starts with a small request and escalates to larger compliance"
dimension_description credential_or_payment_capture =
    "Attempts to obtain credentials, personal data, or money"

abbrev is_some_list : List Text → Bool
is_some_list [] = false
is_some_list (t ∷ ts) = true

-- `PROMPT_VERSION` and the limits of the module.
abbrev pub prompt_version : Text
prompt_version = codes "1.0"

abbrev pub max_body_chars : ℕ
max_body_chars = 2000

abbrev pub max_urls : ℕ
max_urls = 10

abbrev pub max_evidence_items : ℕ
max_evidence_items = 8

-- `chr(10).join(…)`.
abbrev lines : List Text → Text
lines ts = join (codes "\n") ts

-- `t or other`.
abbrev or_else : Text → Text → Text
or_else t other = if is_empty t then other else t

abbrev line_if : Bool → Text → List Text
line_if b t = if b then t ∷ [] else []

unfoldable pub envelope_lines : ParsedMessage → List Text
envelope_lines msg =
    (codes "Subject: " ++ or_else (or_empty msg.subject) (codes "(none)"))
    ∷ (codes "From: "
        ++ or_empty msg.from_display_name
        ++ codes " <"
        ++ or_empty msg.from_address
        ++ codes ">")
    ∷ (line_if (is_given msg.reply_to_address) (codes "Reply-To: " ++ or_empty msg.reply_to_address)
        ++ line_if (is_some_list msg.to_addresses)
            (codes "To: " ++ join (codes ", ") (take 3 msg.to_addresses)))

unfoldable pub auth_lines : ParsedMessage → List Text
auth_lines msg =
    (if msg.header_dkim_signature_present
      then codes "DKIM-Signature: present"
      else codes "DKIM-Signature: absent")
    ∷ (line_if (is_given msg.header_received_spf)
          (codes "SPF: " ++ take 80 (or_empty msg.header_received_spf))
        ++ line_if (is_given msg.header_authentication_results)
            (codes "Auth-Results: " ++ take 80 (or_empty msg.header_authentication_results)))

-- The body, with a mark where it has the greatest length.
unfoldable pub body_text : ParsedMessage → Text
body_text msg =
    let t =
      take max_body_chars (
        if is_given msg.text_plain then or_empty msg.text_plain else or_empty msg.text_html_safe) in
    if length t == max_body_chars then t ++ codes "\n[... body truncated ...]" else t

unfoldable pub url_line : ExtractedUrl → Text
url_line url =
    codes "  - "
    ++ take 80 url.raw_url
    ++ (if is_given url.link_text
        then codes "  (link text: '" ++ take 40 (or_empty url.link_text) ++ codes "')"
        else [])

unfoldable pub dim_spec_line : ManipulationDimension → Text
dim_spec_line d =
    codes "  \""
    ++ codes (dimension_value d)
    ++ codes "\": <0.0-1.0>  // "
    ++ codes (dimension_label d)
    ++ codes ": "
    ++ codes (dimension_description d)

-- The end of the prompt, which is the same for every message.
unfoldable pub answer_format : Text
answer_format =
    codes "\n\nReturn this exact JSON structure:\n{\n  \"overall_risk\": <0.0-1.0>,\n"
    ++ codes "  \"manipulation_dimensions\": {\n    \"authority_pressure\": <score>,\n"
    ++ codes "    \"urgency_pressure\": <score>,\n    \"scarcity\": <score>,\n"
    ++ codes "    \"fear_threat\": <score>,\n    \"reward_lure\": <score>,\n"
    ++ codes "    \"curiosity_bait\": <score>,\n    \"reciprocity_obligation\": <score>,\n"
    ++ codes "    \"social_proof\": <score>,\n    \"secrecy_isolation\": <score>,\n"
    ++ codes "    \"impersonation\": <score>,\n    \"compliance_escalation\": <score>,\n"
    ++ codes "    \"credential_or_payment_capture\": <score>\n  },\n"
    ++ codes "  \"summary\": \"<one sentence summary of the main risk>\",\n"
    ++ codes "  \"evidence\": [\"<specific evidence item 1>\", \"<specific evidence item 2>\"],\n"
    ++ codes
        "  \"recommended_action\": \"<allow|allow_with_banner|soft_hold|quarantine|reject>\",\n"
    ++ codes "  \"confidence\": <0.0-1.0>\n}"

-- `build_analysis_prompt`.
unfoldable pub build_analysis_prompt : ParsedMessage → List Finding → Text
unfolding envelope_lines auth_lines body_text url_line dim_spec_line answer_format
build_analysis_prompt msg findings =
    let det_evidence = take max_evidence_items (to_evidence_list findings) in
    codes "You are Mindwall, a security-focused email analysis system running locally.\n"
    ++ codes "Analyse the email below for phishing and psychological manipulation.\n"
    ++ codes "Respond with ONLY a valid JSON object — no prose, no markdown, no code fences.\n\n"
    ++ codes "=== EMAIL ===\n"
    ++ lines (envelope_lines msg)
    ++ codes "\n\nAuthentication:\n"
    ++ or_else (lines (auth_lines msg)) (codes "  (none)")
    ++ codes "\n\nBody:\n"
    ++ or_else (body_text msg) (codes "(empty)")
    ++ codes "\n\nURLs in message ("
    ++ show (length msg.urls)
    ++ codes " total, showing up to "
    ++ show max_urls
    ++ codes "):\n"
    ++ or_else (lines (map url_line (take max_urls msg.urls))) (codes "  (none)")
    ++ codes "\n\nPre-computed security findings ("
    ++ show (length det_evidence)
    ++ codes " items):\n"
    ++ or_else (lines (map (λ (e : Text). codes "  - " ++ e) det_evidence)) (codes "  (none)")
    ++ codes "\n\n=== TASK ===\n"
    ++ codes
        "Score each of the 12 manipulation dimensions from 0.0 (not present) to 1.0 (strongly present):\n"
    ++ codes "\n"
    ++ lines (map dim_spec_line all_dimensions)
    ++ answer_format

-- `build_strict_retry_prompt`.
unfoldable pub build_strict_retry_prompt : Text → Text
build_strict_retry_prompt prompt =
    codes "IMPORTANT: Your previous response was not valid JSON.\n"
    ++ codes
        "You MUST respond with ONLY a raw JSON object — no markdown, no code fences, no text before or after the JSON.\n"
    ++ codes "Start your response with '{' and end with '}'.\n\n"
    ++ prompt
