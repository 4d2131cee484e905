-- ===== src/Messages/Urls.antt =====
-- app/messages/urls.py: the URLs of a message.
pub mod Safe
use mind_wall.Prelude.{Bool, not, ◌||◌, Option, none, some, List, [], ◌∷◌, ◌++◌, map, if◌then◌else◌}
use mind_wall.Wire.{Text, codes, one_of, is_empty}
use mind_wall.Models.Analysing.{UrlSource, text_source, html_source, ExtractedUrl}
use mind_wall.Messages.HtmlSafe.{HtmlLibrary, extract_anchors_from_html}

-- What `urlparse` returns.
pub record ParseResult : Type 0 where
  pub scheme : Text
  pub netloc : Text
  pub path : Text
  pub params : Text
  pub query : Text
  pub fragment : Text

-- `urlparse` and `urlunparse`, `none` where they raise; `str.lower`; and the matches of the pattern for
-- the URLs of a text, in order.
pub record UrlLibrary : Type 0 where
  pub urlparse : Text → Option ParseResult
  pub urlunparse : ParseResult → Option Text
  pub lower : Text → Text
  pub find_urls : Text → List Text

abbrev pub blocked : List Text
blocked = codes "javascript" ∷ codes "data" ∷ codes "vbscript" ∷ codes "file" ∷ []

abbrev or_raw : Text → Option Text → Text
or_raw raw none = raw
or_raw raw (some t) = t

-- `link_text or None`.
abbrev pub or_none : Option Text → Option Text
or_none none = none
or_none (some t) = if is_empty t then none else some t

module _ (lib : UrlLibrary) where
  abbrev in_lower : ParseResult → ParseResult
  in_lower p = record p { scheme = lib.lower p.scheme; netloc = lib.lower p.netloc }

  unfoldable normalize_url : Text → Text
  normalize_url raw = elim (lib.urlparse raw) [
    | none ↦ raw
    | some p ↦ or_raw raw (lib.urlunparse (in_lower p))
  ]

  -- Whether a parsed URL is refused.
  unfoldable pub is_refused : ParseResult → Bool
  is_refused p = is_empty p.scheme || is_empty p.netloc || one_of blocked (lib.lower p.scheme)

  unfoldable pub url_from : Text → UrlSource → Option Text → ParseResult → ExtractedUrl
  unfolding normalize_url
  url_from raw source link_text p = record {
    raw_url = raw;
    normalized_url = normalize_url raw;
    scheme = lib.lower p.scheme;
    host = lib.lower p.netloc;
    path = if is_empty p.path then codes "/" else p.path;
    source = source;
    link_text = or_none link_text;
  }

  unfoldable pub built_url : Text → UrlSource → Option Text → ParseResult → Option ExtractedUrl
  unfolding is_refused url_from
  built_url raw source link_text p =
      if is_refused p then none else some (url_from raw source link_text p)

  unfoldable pub build_extracted_url : Text → UrlSource → Option Text → Option ExtractedUrl
  unfolding built_url
  build_extracted_url raw source link_text = elim (lib.urlparse raw) [
    | none ↦ none
    | some p ↦ built_url raw source link_text p
  ]

  abbrev pub kept : Option ExtractedUrl → List ExtractedUrl → List ExtractedUrl
  kept none urls = urls
  kept (some url) urls = url ∷ urls

  -- The loop over the matches in a text, with the set of those that have been seen.
  unfoldable pub text_urls : List Text → List Text → List ExtractedUrl
  unfolding build_extracted_url
  text_urls seen [] = []
  text_urls seen (raw ∷ raws) =
      let known = one_of seen raw in
      let rest = text_urls (if known then seen else raw ∷ seen) raws in
      if known then rest else kept (build_extracted_url raw text_source none) rest

  unfoldable pub extract_urls_from_text : Text → List ExtractedUrl
  unfolding text_urls
  extract_urls_from_text text = if is_empty text then [] else text_urls [] (lib.find_urls text)

  -- The loop over the anchors of HTML.
  unfoldable pub anchor_urls : List Text → List (Text × Text) → List ExtractedUrl
  unfolding build_extracted_url
  anchor_urls seen [] = []
  anchor_urls seen ((href, link_text) ∷ anchors) =
      let known = is_empty href || one_of seen href in
      let rest = anchor_urls (if known then seen else href ∷ seen) anchors in
      if known
      then rest
      else kept (build_extracted_url href html_source (or_none (some link_text))) rest

  unfoldable pub extract_urls_from_html : HtmlLibrary → Text → List ExtractedUrl
  unfolding anchor_urls
  extract_urls_from_html html_lib html =
      if is_empty html then [] else anchor_urls [] (extract_anchors_from_html html_lib html)
