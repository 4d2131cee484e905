-- ===== src/Models/Analysing.antt =====
-- app/messages/schemas.py, the rows of app/messages/models.py that an analysis reads, and
-- app/analysis/models.py. A date is a number.
use mind_wall.Prelude.{ℕ, Bool, Option, List}
use mind_wall.Wire.{Text}
use mind_wall.Models.Numbers.{Float}
use mind_wall.Models.Verdicts.{Verdict, ManipulationDimension}

pub data UrlSource : Type 0 where
  text_source html_source : UrlSource

pub record ExtractedUrl : Type 0 where
  pub raw_url : Text
  pub normalized_url : Text
  pub scheme : Text
  pub host : Text
  pub path : Text
  pub source : UrlSource
  pub link_text : Option Text

pub record ExtractedAttachment : Type 0 where
  pub content_type : Text
  pub size_bytes : ℕ
  pub is_inline : Bool
  pub filename : Option Text
  pub sha256 : Option Text
  pub content_id : Option Text

pub record ParsedMessage : Type 0 where
  pub raw_size_bytes : ℕ
  pub raw_sha256 : Text
  pub message_id : Option Text
  pub in_reply_to : Option Text
  pub references : Option Text
  pub subject : Option Text
  pub from_address : Option Text
  pub from_display_name : Option Text
  pub reply_to_address : Option Text
  pub to_addresses : List Text
  pub cc_addresses : List Text
  pub bcc_addresses : List Text
  pub date : Option ℕ
  pub has_text_plain : Bool
  pub has_text_html : Bool
  pub text_plain : Option Text
  pub text_html_safe : Option Text
  pub raw_storage_path : Option Text
  pub header_authentication_results : Option Text
  pub header_received_spf : Option Text
  pub header_dkim_signature_present : Bool
  pub header_x_mailer : Option Text
  pub urls : List ExtractedUrl
  pub attachments : List ExtractedAttachment

-- A row of `message_urls`.
pub record MessageUrl : Type 0 where
  pub raw_url : Text
  pub normalized_url : Text
  pub scheme : Option Text
  pub host : Option Text
  pub path : Option Text
  pub source : UrlSource
  pub link_text : Option Text

-- A row of `message_attachments`.
pub record MessageAttachment : Type 0 where
  pub filename : Option Text
  pub content_type : Text
  pub size_bytes : ℕ
  pub sha256 : Option Text
  pub is_inline : Bool
  pub content_id : Option Text

-- A row of `messages` with its urls and attachments loaded.
pub record StoredMessage : Type 0 where
  pub id : ℕ
  pub raw_size_bytes : ℕ
  pub raw_sha256 : Text
  pub raw_storage_path : Option Text
  pub message_id : Option Text
  pub in_reply_to : Option Text
  pub references : Option Text
  pub subject : Option Text
  pub from_address : Option Text
  pub from_display_name : Option Text
  pub reply_to_address : Option Text
  pub to_addresses : Option Text
  pub cc_addresses : Option Text
  pub bcc_addresses : Option Text
  pub date : Option ℕ
  pub has_text_plain : Bool
  pub has_text_html : Bool
  pub text_plain : Option Text
  pub text_html_safe : Option Text
  pub header_authentication_results : Option Text
  pub header_received_spf : Option Text
  pub header_dkim_signature_present : Bool
  pub header_x_mailer : Option Text
  pub urls : List MessageUrl
  pub attachments : List MessageAttachment

pub data AnalysisStatus : Type 0 where
  pending complete degraded failed : AnalysisStatus

pub data ModelProvider : Type 0 where
  ollama no_provider : ModelProvider

-- Where a score comes from; the column also allows "combined", which nothing writes.
pub data ScoreSource : Type 0 where
  by_llm by_checks : ScoreSource

pub record AnalysisRun : Type 0 where
  pub id : ℕ
  pub message_id : ℕ
  pub analysis_version : Text
  pub prompt_version : Option Text
  pub model_provider : ModelProvider
  pub model_name : Option Text
  pub status : AnalysisStatus
  pub is_degraded : Bool
  pub deterministic_risk_score : Option Float
  pub llm_risk_score : Option Float
  pub overall_risk_score : Option Float
  pub confidence : Option Float
  pub verdict : Option Verdict
  pub rationale : Option Text
  pub evidence_json : Option Text
  pub deterministic_findings_json : Option Text
  pub llm_raw_response : Option Text
  pub created_at : ℕ

pub record DimensionScore : Type 0 where
  pub id : ℕ
  pub analysis_run_id : ℕ
  pub dimension : ManipulationDimension
  pub score : Float
  pub source : ScoreSource
