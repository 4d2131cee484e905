-- ===== src/Analysis/Content.antt =====
-- app/analysis/deterministic.py: the checks of attachments, of language and of headers.
use mind_wall.Prelude.{
  String, not, ◌&&◌, none, some, List, [], ◌∷◌, ◌++◌, take, length, if◌then◌else◌,
}
use mind_wall.Wire.{Text, codes, is_empty}
use mind_wall.Models.Numbers.{Float, FloatOps, min_float}
use mind_wall.Models.Verdicts.{
  authority_pressure, urgency_pressure, fear_threat, secrecy_isolation, impersonation,
  compliance_escalation, credential_or_payment_capture,
}
use mind_wall.Models.Analysing.{ExtractedAttachment, ParsedMessage}
use mind_wall.Analysis.Patterns.{
  high_risk_extensions, medium_risk_extensions, credential_patterns, payment_patterns,
  urgency_patterns, fear_patterns,
}
use mind_wall.Analysis.Checks.{
  TextLibrary, Finding, is_given, or_empty, shown, has_char, last_part, join, given, among,
}

module _ (lib : TextLibrary) (ops : FloatOps) where
  open ops use {decimal}

  unfoldable pub extension_of : ExtractedAttachment → Text
  extension_of att =
      let filename = lib.lower (or_empty att.filename) in
      if has_char b'.' filename then codes "." ++ last_part b'.' filename else []

  abbrev attachment_evidence : ExtractedAttachment → Text
  attachment_evidence att =
      codes "Filename: " ++ shown att.filename ++ codes "  Type: " ++ att.content_type

  unfoldable pub high_risk_finding : ExtractedAttachment → Finding
  unfolding extension_of
  high_risk_finding att = record {
    rule = codes "risky_attachment_high";
    description = codes "Attachment has a high-risk file extension: " ++ extension_of att;
    severity = decimal 90 2;
    dimensions = credential_or_payment_capture ∷ [];
    evidence = attachment_evidence att;
  }

  unfoldable pub medium_risk_finding : ExtractedAttachment → Finding
  unfolding extension_of
  medium_risk_finding att = record {
    rule = codes "risky_attachment_medium";
    description = codes "Attachment is a compressed archive: " ++ extension_of att;
    severity = decimal 50 2;
    dimensions = credential_or_payment_capture ∷ [];
    evidence = attachment_evidence att;
  }

  unfoldable pub attachment_findings : ExtractedAttachment → List Finding
  unfolding extension_of high_risk_finding medium_risk_finding
  attachment_findings att =
      if among high_risk_extensions (extension_of att)
      then high_risk_finding att ∷ []
      else if among medium_risk_extensions (extension_of att)
      then medium_risk_finding att ∷ []
      else []

  abbrev pub all_attachments : List ExtractedAttachment → List Finding
  all_attachments [] = []
  all_attachments (att ∷ atts) = attachment_findings att ++ all_attachments atts

  -- `_check_risky_attachments`.
  unfoldable pub check_risky_attachments : ParsedMessage → List Finding
  unfolding attachment_findings
  check_risky_attachments msg = all_attachments msg.attachments

  -- The text that the language checks read.
  unfoldable pub body_of : ParsedMessage → Text
  body_of msg = join (codes " ") (given msg.text_plain ++ given msg.text_html_safe)

  unfoldable pub subject_and_body : ParsedMessage → Text
  unfolding body_of
  subject_and_body msg = or_empty msg.subject ++ codes " " ++ body_of msg

  -- The matches of the patterns, at most sixty characters of each.
  unfoldable pub matched_texts : List String → Text → List Text
  matched_texts [] t = []
  matched_texts (p ∷ ps) t =
      let rest = matched_texts ps t in
      elim (lib.search p t) [ none ↦ rest | some found ↦ take 60 found ∷ rest ]

  -- `min(base + len(matched) * 0.1, most)`.
  unfoldable pub pattern_severity : Float → Float → List Text → Float
  unfolding min_float
  pattern_severity base most matched =
      min_float ops (ops.add base (ops.mul (decimal (length matched) 0) (decimal 1 1))) most

  abbrev pub when_matched : List Text → Finding → List Finding
  when_matched [] f = []
  when_matched (t ∷ ts) f = f ∷ []

  abbrev evidence_of : List Text → Text
  evidence_of matched = join (codes "; ") (take 3 matched)

  -- `_check_credential_language`.
  unfoldable pub check_credential_language : ParsedMessage → List Finding
  unfolding body_of matched_texts pattern_severity
  check_credential_language msg =
      let matched = matched_texts credential_patterns (body_of msg) in
      if is_empty (body_of msg)
      then []
      else when_matched matched (record {
        rule = codes "credential_capture_language";
        description = codes "Message body contains credential capture language patterns.";
        severity = pattern_severity (decimal 4 1) (decimal 95 2) matched;
        dimensions = credential_or_payment_capture ∷ impersonation ∷ [];
        evidence = evidence_of matched;
      })

  -- `_check_payment_language`.
  unfoldable pub check_payment_language : ParsedMessage → List Finding
  unfolding body_of matched_texts pattern_severity
  check_payment_language msg =
      let matched = matched_texts payment_patterns (body_of msg) in
      if is_empty (body_of msg)
      then []
      else when_matched matched (record {
        rule = codes "payment_language";
        description = codes "Message body contains payment or invoice manipulation language.";
        severity = pattern_severity (decimal 35 2) (decimal 85 2) matched;
        dimensions = credential_or_payment_capture ∷ [];
        evidence = evidence_of matched;
      })

  -- `_check_urgency_language`.
  unfoldable pub check_urgency_language : ParsedMessage → List Finding
  unfolding body_of subject_and_body matched_texts pattern_severity
  check_urgency_language msg =
      let matched = matched_texts urgency_patterns (subject_and_body msg) in
      if is_empty (body_of msg)
      then []
      else when_matched matched (record {
        rule = codes "urgency_language";
        description = codes "Message uses urgency or time-pressure language.";
        severity = pattern_severity (decimal 30 2) (decimal 80 2) matched;
        dimensions = urgency_pressure ∷ authority_pressure ∷ [];
        evidence = evidence_of matched;
      })

  -- `_check_fear_language`.
  unfoldable pub check_fear_language : ParsedMessage → List Finding
  unfolding body_of subject_and_body matched_texts pattern_severity
  check_fear_language msg =
      let matched = matched_texts fear_patterns (subject_and_body msg) in
      if is_empty (body_of msg)
      then []
      else when_matched matched (record {
        rule = codes "fear_threat_language";
        description = codes "Message uses fear or threat language.";
        severity = pattern_severity (decimal 40 2) (decimal 90 2) matched;
        dimensions = fear_threat ∷ compliance_escalation ∷ [];
        evidence = evidence_of matched;
      })

  -- `_check_no_plain_text_body`.
  unfoldable pub check_no_plain_text_body : ParsedMessage → List Finding
  check_no_plain_text_body msg =
      if msg.has_text_html && not msg.has_text_plain
      then (record {
        rule = codes "html_only_no_plain_text";
        description = codes "Message is HTML-only with no plain-text alternative.";
        severity = decimal 25 2;
        dimensions = secrecy_isolation ∷ [];
        evidence = codes "Content-Type: text/html only";
      }
          ∷ [])
      else []

  unfoldable pub dkim_finding : List Finding
  dkim_finding =
      record {
        rule = codes "missing_dkim_signature";
        description = codes "Message has no DKIM-Signature header.";
        severity = decimal 20 2;
        dimensions = impersonation ∷ [];
        evidence = codes "DKIM-Signature: absent";
      }
      ∷ []

  unfoldable pub spf_finding : List Finding
  spf_finding =
      record {
        rule = codes "missing_spf_results";
        description = codes "No SPF or Authentication-Results header present.";
        severity = decimal 15 2;
        dimensions = impersonation ∷ [];
        evidence = codes "Received-SPF: absent; Authentication-Results: absent";
      }
      ∷ []

  -- `_check_missing_auth_headers`.
  unfoldable pub check_missing_auth_headers : ParsedMessage → List Finding
  unfolding dkim_finding spf_finding
  check_missing_auth_headers msg =
      (if not msg.header_dkim_signature_present then dkim_finding else [])
      ++ (if not (is_given msg.header_received_spf)
            && not (is_given msg.header_authentication_results)
          then spf_finding
          else [])
