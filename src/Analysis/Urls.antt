-- ===== src/Analysis/Urls.antt =====
-- app/analysis/deterministic.py, `_check_suspicious_url_structure`.
pub mod Once
use mind_wall.Prelude.{
  ℕ, Bool, true, false, not, ◌&&◌, ◌||◌, Option, none, some, List, [], ◌∷◌, ◌++◌, map, any, take,
  length, leb, if◌then◌else◌,
}
use mind_wall.Wire.{Text, codes, contains}
use mind_wall.Wire.Splitting.{split_all}
use mind_wall.Models.Numbers.{FloatOps}
use mind_wall.Models.Verdicts.{impersonation, credential_or_payment_capture}
use mind_wall.Models.Analysing.{ExtractedUrl, ParsedMessage}
use mind_wall.Analysis.Patterns.{path_keywords}
use mind_wall.Analysis.Checks.{TextLibrary, Finding}

-- Which issues are in the set `seen_issues`.
pub record SeenIssues : Type 0 where
  pub ip_host : Bool
  pub deep_subdomain : Bool
  pub cred_path : Bool

abbrev pub nothing_seen : SeenIssues
nothing_seen = record { ip_host = false; deep_subdomain = false; cred_path = false }

module _ (lib : TextLibrary) where
  unfoldable pub is_ip_host : ExtractedUrl → Bool
  is_ip_host url = lib.matches "^\\d{1,3}(\\.\\d{1,3}){3}$" url.host

  unfoldable pub is_deep : ExtractedUrl → Bool
  is_deep url = leb 4 (length (split_all b'.' url.host))

  -- The keywords in the path that `urlparse` gives.
  unfoldable pub has_keyword : Text → Bool
  has_keyword path = any (λ kw. contains kw (lib.lower path)) (map codes path_keywords)

module _ (lib : TextLibrary) (ops : FloatOps) where
  unfoldable pub ip_finding : ExtractedUrl → Finding
  ip_finding url = record {
    rule = codes "url_ip_address_host";
    description = codes "URL uses an IP address as host (unusual for legitimate services).";
    severity = ops.decimal 65 2;
    dimensions = impersonation ∷ [];
    evidence = codes "URL: " ++ take 120 url.raw_url;
  }

  unfoldable pub deep_finding : ExtractedUrl → Finding
  deep_finding url = record {
    rule = codes "url_excessive_subdomains";
    description = codes "URL has unusually deep subdomain nesting.";
    severity = ops.decimal 45 2;
    dimensions = impersonation ∷ [];
    evidence = codes "Host: " ++ url.host;
  }

  unfoldable pub keyword_finding : ExtractedUrl → Finding
  keyword_finding url = record {
    rule = codes "url_credential_path";
    description = codes "URL path contains credential or authentication keywords.";
    severity = ops.decimal 55 2;
    dimensions = credential_or_payment_capture ∷ [];
    evidence = codes "URL: " ++ take 120 url.raw_url;
  }

  abbrev pub when_new : Bool → Bool → Finding → List Finding
  when_new issue seen f = if issue && not seen then f ∷ [] else []

  -- One round of the loop, with the path of the URL.
  unfoldable pub url_findings : ExtractedUrl → Text → SeenIssues → List Finding
  unfolding is_ip_host is_deep has_keyword
  url_findings url path seen =
      when_new (is_ip_host lib url) seen.ip_host (ip_finding url)
      ++ when_new (is_deep lib url) seen.deep_subdomain (deep_finding url)
      ++ when_new (has_keyword lib path) seen.cred_path (keyword_finding url)

  unfoldable pub url_seen : ExtractedUrl → Text → SeenIssues → SeenIssues
  unfolding is_ip_host is_deep has_keyword
  url_seen url path seen = record {
    ip_host = seen.ip_host || is_ip_host lib url;
    deep_subdomain = seen.deep_subdomain || is_deep lib url;
    cred_path = seen.cred_path || has_keyword lib path;
  }

  -- The loop; `none` where `urlparse` raises.
  unfoldable pub scan_urls : List ExtractedUrl → SeenIssues → Option (List Finding)
  unfolding url_findings url_seen
  scan_urls [] seen = some []
  scan_urls (url ∷ urls) seen = elim (lib.url_path url.raw_url) [
    | none ↦ none
    | some path ↦ elim (scan_urls urls (url_seen url path seen)) [
      | none ↦ none
      | some fs ↦ some (url_findings url path seen ++ fs)
    ]
  ]

  -- `_check_suspicious_url_structure`.
  unfoldable pub check_suspicious_url_structure : ParsedMessage → Option (List Finding)
  unfolding scan_urls
  check_suspicious_url_structure msg = scan_urls msg.urls nothing_seen
