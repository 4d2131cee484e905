-- ===== src/Examples/Extracting.antt =====
-- The reading of HTML and of URLs.
use mind_wall.Prelude.{String, none, ◌≡◌, refl, some, List, [], ◌∷◌, ◌++◌, All, if◌then◌else◌}
use mind_wall.Wire.{codes, text_eq, starts_with}
use mind_wall.Messages.HtmlSafe.{
  HtmlEvent, start_tag, end_tag, char_data, HtmlLibrary, extract_text_from_html,
  extract_anchors_from_html, new_extractor, fed, handled, closed_tag, end_steps,
}
use mind_wall.Models.Analysing.{html_source, ExtractedUrl}
use mind_wall.Messages.Urls.{UrlLibrary, extract_urls_from_html}
use mind_wall.Messages.Urls.Safe.{Distinct, IsNavigable, extract_urls_from_html-IsNavigable}
use mind_wall.Messages.HtmlSafe.Skipping.{skipped_element}

abbrev seen_before : List HtmlEvent
seen_before =
    start_tag (codes "a") ((codes "href", some (codes "https://a.example")) ∷ [])
    ∷ char_data (codes "here")
    ∷ end_tag (codes "a")
    ∷ []

-- A script with a style in it, and with an anchor.
abbrev in_script : List HtmlEvent
in_script =
    start_tag (codes "style") []
    ∷ char_data (codes "p {}")
    ∷ end_tag (codes "style")
    ∷ start_tag (codes "a") ((codes "href", some (codes "https://b.example")) ∷ [])
    ∷ end_tag (codes "a")
    ∷ []

abbrev seen_after : List HtmlEvent
seen_after = start_tag (codes "p") [] ∷ char_data (codes "bye") ∷ []

abbrev parser : HtmlLibrary
parser = record {
  feed = λ html.
      if text_eq html (codes "long")
      then seen_before
        ++ start_tag (codes "script") [] ∷ (in_script ++ end_tag (codes "script") ∷ seen_after)
      else seen_before ++ seen_after;
  lower = λ t. t;
  squash_lines = λ t. t;
  squash_blanks = λ t. t;
}

skipped_element_example :
    (extract_text_from_html parser (codes "long") ≡ extract_text_from_html parser (codes "short"))
    × (extract_anchors_from_html parser (codes "long")
        ≡ extract_anchors_from_html parser (codes "short"))
unfolding fed handled closed_tag end_steps new_extractor starts_with
skipped_element_example =
    skipped_element parser seen_before in_script seen_after (codes "script") (codes "script") []
      (codes "long") (codes "short") refl refl refl refl refl refl refl refl

-- What is read of it, the anchor before the script.
two_lines : extract_text_from_html parser (codes "long") ≡ codes "here\nbye"
unfolding extract_text_from_html fed handled starts_with
two_lines = refl

one_anchor :
    extract_anchors_from_html parser (codes "long") ≡ (codes "https://a.example", codes "here") ∷ []
unfolding extract_anchors_from_html fed handled starts_with
one_anchor = refl

-- Texts that start with an f are of files, all others are of the web.
abbrev splitter : UrlLibrary
splitter = record {
  urlparse = λ t. some (record {
    scheme = if starts_with (codes "f") t then codes "file" else codes "https";
    netloc = t;
    path = [];
    params = [];
    query = [];
    fragment = [];
  });
  urlunparse = λ p. some p.netloc;
  lower = λ t. t;
  find_urls = λ t. t ∷ [];
}

-- The parser of the anchors a, f and a.
abbrev three_anchors : HtmlLibrary
three_anchors = record parser { feed = λ html. anchor "a" ++ anchor "f" ++ anchor "a" }
  where
    anchor : String → List HtmlEvent
    anchor t =
        start_tag (codes "a") ((codes "href", some (codes t)) ∷ []) ∷ end_tag (codes "a") ∷ []

abbrev url_a : ExtractedUrl
url_a = record {
  raw_url = codes "a";
  normalized_url = codes "a";
  scheme = codes "https";
  host = codes "a";
  path = codes "/";
  source = html_source;
  link_text = none;
}

extracted_once : extract_urls_from_html splitter three_anchors (codes "x") ≡ url_a ∷ []
unfolding extract_urls_from_html extract_anchors_from_html fed handled starts_with
extracted_once = refl

extract_urls_from_html-IsNavigable_example :
    All (IsNavigable splitter) (url_a ∷ []) × Distinct (url_a ∷ [])
unfolding extract_urls_from_html extract_anchors_from_html fed handled starts_with
extract_urls_from_html-IsNavigable_example =
    extract_urls_from_html-IsNavigable splitter three_anchors (codes "x")
