-- ===== src/Analysis/Checks.antt =====
-- app/analysis/deterministic.py: the ten checks of a parsed message.
use mind_wall.Prelude.{
  ℕ, String, Bool, true, false, not, ◌&&◌, Option, none, some, List, [], ◌∷◌, ◌++◌, map, find, take,
  if◌then◌else◌,
}
use mind_wall.Wire.{Text, codes, text_eq, is_empty, one_of, contains}
use mind_wall.Wire.Splitting.{split_all}
use mind_wall.Models.Numbers.{Float, FloatOps}
use mind_wall.Models.Verdicts.{
  ManipulationDimension, secrecy_isolation, impersonation, credential_or_payment_capture,
}
use mind_wall.Models.Analysing.{UrlSource, text_source, html_source, ExtractedUrl, ParsedMessage}
use mind_wall.Analysis.Patterns.{brand_words}

-- What Python and its library do with texts.
pub record TextLibrary : Type 0 where
  -- text.lower()
  pub lower : Text → Text
  -- re.compile(pattern, re.IGNORECASE).search(text), the text of the match
  pub search : String → Text → Option Text
  -- re.search(pattern, text), the text of the match
  pub search_exact : String → Text → Option Text
  -- re.compile(pattern).match(text)
  pub matches : String → Text → Bool
  -- urlparse(url).path, `none` where it raises ValueError
  pub url_path : Text → Option Text
  -- the order in which a set of texts is iterated
  pub set_order : List Text → List Text

pub record Finding : Type 0 where
  pub rule : Text
  pub description : Text
  pub severity : Float
  pub dimensions : List ManipulationDimension
  pub evidence : Text

-- A text that is neither `None` nor empty.
abbrev pub is_given : Option Text → Bool
is_given none = false
is_given (some t) = not (is_empty t)

-- `t or ""`.
abbrev pub or_empty : Option Text → Text
or_empty none = []
or_empty (some t) = t

-- A text in an f-string.
abbrev pub shown : Option Text → Text
shown none = codes "None"
shown (some t) = t

abbrev pub has_char : ℕ → Text → Bool
has_char c t = contains (c ∷ []) t

-- `t.rsplit(sep, 1)[-1]`.
abbrev pub last_of : List Text → Text
last_of [] = []
last_of (w ∷ ws) = elim ws [ [] ↦ w | _ ∷ _ ↦ last_of ws ]

abbrev pub last_part : ℕ → Text → Text
last_part sep t = last_of (split_all sep t)

-- `" ".join(…)` and `"; ".join(…)`.
abbrev pub join : Text → List Text → Text
join sep [] = []
join sep (t ∷ ts) = elim ts [ [] ↦ t | _ ∷ _ ↦ t ++ sep ++ join sep ts ]

abbrev pub given : Option Text → List Text
given o = if is_given o then or_empty o ∷ [] else []

-- Whether a text is in a set that is written with literals.
abbrev pub among : List String → Text → Bool
among words t = one_of (map codes words) t

module _ (lib : TextLibrary) (ops : FloatOps) where
  open ops use {decimal, add, mul}
  open lib use {lower, search}

  unfoldable pub domain_of : Text → Text
  domain_of address = if has_char b'@' address then lower (last_part b'@' address) else []

  unfoldable pub reply_to_mismatch : Text → Option Text → Text → List Finding
  unfolding domain_of
  reply_to_mismatch address reply_to from_domain =
      let reply_domain = domain_of (or_empty reply_to) in
      if is_given reply_to
        && (not (is_empty from_domain)
            && (not (is_empty reply_domain) && not (text_eq from_domain reply_domain)))
      then (record {
        rule = codes "display_name_reply_to_mismatch";
        description = codes "From domain differs from Reply-To domain.";
        severity = decimal 75 2;
        dimensions = impersonation ∷ secrecy_isolation ∷ [];
        evidence = codes "From: " ++ address ++ codes "  Reply-To: " ++ or_empty reply_to;
      }
          ∷ [])
      else []

  unfoldable pub brand_finding : Text → Text → Text → Text → Finding
  brand_finding address display_name from_domain brand = record {
    rule = codes "brand_impersonation_display_name";
    description =
        codes "Display name contains '"
        ++ brand
        ++ codes "' but sender domain is '"
        ++ from_domain
        ++ codes "'.";
    severity = decimal 85 2;
    dimensions = impersonation ∷ [];
    evidence =
        codes "Display name: '"
        ++ display_name
        ++ codes "'  From address: '"
        ++ address
        ++ codes "'";
  }

  unfoldable pub brand_impersonation : Text → Option Text → Text → List Finding
  unfolding brand_finding
  brand_impersonation address display_name from_domain =
      let name = lower (or_empty display_name) in
      let named = λ (brand : Text). contains brand name && not (contains brand from_domain) in
      if is_given display_name && not (is_empty from_domain)
      then elim (find named (lib.set_order (map codes brand_words))) [
        | none ↦ []
        | some brand ↦ brand_finding address (or_empty display_name) from_domain brand ∷ []
      ]
      else []

  -- `_check_display_name_reply_to_mismatch`.
  unfoldable pub check_display_name_reply_to_mismatch : ParsedMessage → List Finding
  unfolding reply_to_mismatch brand_impersonation
  check_display_name_reply_to_mismatch msg =
      let address = or_empty msg.from_address in
      let from_domain = domain_of address in
      if is_given msg.from_address
      then reply_to_mismatch address msg.reply_to_address from_domain
        ++ brand_impersonation address msg.from_display_name from_domain
      else []

  abbrev is_html : UrlSource → Bool
  is_html text_source = false
  is_html html_source = true

  unfoldable pub is_mismatched : ExtractedUrl → Bool
  is_mismatched url =
      let host = lower url.host in
      is_html url.source
      && (is_given url.link_text
          && elim (lib.search_exact "[\\w-]+\\.[a-z]{2,6}" (lower (or_empty url.link_text))) [
            | none ↦ false
            | some found ↦
                (let text_domain = lower found in
                  not (is_empty text_domain)
                  && (not (contains text_domain host) && not (contains host text_domain)))
          ])

  -- `_check_url_link_text_mismatch`: the loop ends at the first URL that is found.
  unfoldable pub check_url_link_text_mismatch : ParsedMessage → List Finding
  unfolding is_mismatched
  check_url_link_text_mismatch msg = elim (find is_mismatched msg.urls) [
    | none ↦ []
    | some url ↦
        record {
          rule = codes "link_text_href_mismatch";
          description = codes "Anchor text suggests a different domain than the actual href.";
          severity = decimal 80 2;
          dimensions = impersonation ∷ credential_or_payment_capture ∷ [];
          evidence =
              codes "Link text: '"
              ++ take 80 (or_empty url.link_text)
              ++ codes "'  Href host: '"
              ++ url.host
              ++ codes "'";
        }
        ∷ []
  ]
