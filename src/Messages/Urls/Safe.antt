-- ===== src/Messages/Urls/Safe.antt =====
-- app/messages/urls.py: what the extraction of URLs lets through.
use mind_wall.Prelude.{
  ◌≡◌, refl, sym, subst, Bool, true, false, ◌||◌, Option, none, some, List, [], ◌∷◌, All,
  Bool-cases, inl, inr, Option-cases, if◌then◌else◌,
}
use mind_wall.Wire.{Text, text_eq, one_of, is_empty}
use mind_wall.Models.Analysing.{UrlSource, html_source, ExtractedUrl}
use mind_wall.Messages.HtmlSafe.{HtmlLibrary, extract_anchors_from_html}
use mind_wall.Messages.Urls.{
  ParseResult, UrlLibrary, blocked, or_none, is_refused, url_from, built_url, build_extracted_url,
  kept, anchor_urls, extract_urls_from_html,
}

or_false : {a b : Bool} → (a || b) ≡ false → (a ≡ false) × (b ≡ false)
or_false {a = true} e = cc
or_false {a = false} e = (refl, e)

-- No two of the URLs have one text.
abbrev pub Distinct : List ExtractedUrl → Type 0
Distinct [] = Unit
Distinct (url ∷ urls) =
    All (λ (v : ExtractedUrl). text_eq v.raw_url url.raw_url ≡ false) urls × Distinct urls

module _ (lib : UrlLibrary) where
  -- A URL whose parts are those of its text, with a host and with a scheme that is not blocked.
  abbrev pub IsNavigable : ExtractedUrl → Type 0
  IsNavigable url =
      (p : ParseResult) × (lib.urlparse url.raw_url ≡ some p)
      × (url.host ≡ lib.lower p.netloc)
      × (is_empty p.netloc ≡ false)
      × (url.scheme ≡ lib.lower p.scheme)
      × (one_of blocked url.scheme ≡ false)

  -- What is built of a text, if anything is.
  abbrev IsBuilt : Text → Option ExtractedUrl → Type 0
  IsBuilt raw none = Unit
  IsBuilt raw (some url) = IsNavigable url × (url.raw_url ≡ raw)

  url_from-IsBuilt :
      (raw : Text) (source : UrlSource) (text : Option Text) (p : ParseResult)
      → lib.urlparse raw ≡ some p
      → is_refused lib p ≡ false
      → IsBuilt raw (some (url_from lib raw source text p))
  unfolding url_from is_refused
  url_from-IsBuilt raw source text p parsed f =
      let (given, allowed) = or_false f in
      ((p, parsed, refl, (or_false given).1, refl, allowed), refl)

  built_url-IsBuilt :
      (raw : Text) (source : UrlSource) (text : Option Text) (p : ParseResult)
      → lib.urlparse raw ≡ some p
      → IsBuilt raw (built_url lib raw source text p)
  unfolding built_url
  built_url-IsBuilt raw source text p parsed = elim (Bool-cases (is_refused lib p)) [
    | inl t ↦
        subst (λ b. IsBuilt raw (if b then none else some (url_from lib raw source text p))) (sym t)
          tt
    | inr f ↦
        subst (λ b. IsBuilt raw (if b then none else some (url_from lib raw source text p))) (sym f)
          (url_from-IsBuilt raw source text p parsed f)
  ]

  build_extracted_url-IsBuilt :
      (raw : Text) (source : UrlSource) (text : Option Text)
      → IsBuilt raw (build_extracted_url lib raw source text)
  unfolding build_extracted_url
  build_extracted_url-IsBuilt raw source text = elim (Option-cases (lib.urlparse raw)) [
    | inl e ↦ subst (λ o. IsBuilt raw (of_parsed o)) (sym e) tt
    | inr (p, e) ↦
        subst (λ o. IsBuilt raw (of_parsed o)) (sym e) (built_url-IsBuilt raw source text p e)
  ]
    where
      of_parsed : Option ParseResult → Option ExtractedUrl
      of_parsed none = none
      of_parsed (some p) = built_url lib raw source text p

  -- The URLs of a loop that has seen some texts.
  abbrev IsFresh : List Text → List ExtractedUrl → Type 0
  IsFresh seen urls = All (λ (v : ExtractedUrl). one_of seen v.raw_url ≡ false) urls

  abbrev IsExtracted : List Text → List ExtractedUrl → Type 0
  IsExtracted seen urls = All IsNavigable urls × IsFresh seen urls × Distinct urls

  older :
      (seen : List Text) (raw : Text) (urls : List ExtractedUrl)
      → IsFresh (raw ∷ seen) urls
      → IsFresh seen urls
  older seen raw [] fresh = tt
  older seen raw (v ∷ urls) (h, fresh) = ((or_false h).1, older seen raw urls fresh)

  others :
      (seen : List Text) (raw : Text) (urls : List ExtractedUrl)
      → IsFresh (raw ∷ seen) urls
      → All (λ (v : ExtractedUrl). text_eq v.raw_url raw ≡ false) urls
  others seen raw [] fresh = tt
  others seen raw (v ∷ urls) (h, fresh) = ((or_false h).0, others seen raw urls fresh)

  kept-IsExtracted :
      (seen : List Text) (raw : Text) (o : Option ExtractedUrl) (urls : List ExtractedUrl)
      → one_of seen raw ≡ false
      → IsBuilt raw o
      → IsExtracted (raw ∷ seen) urls
      → IsExtracted seen (kept lib o urls)
  kept-IsExtracted seen raw none urls new built (good, fresh, distinct) =
      (good, older seen raw urls fresh, distinct)
  kept-IsExtracted seen raw (some url) urls new (navigable, same) (good, fresh, distinct) = (
    (navigable, good),
    (subst (λ t. one_of seen t ≡ false) (sym same) new, older seen raw urls fresh),
    (
      subst (λ t. All (λ (v : ExtractedUrl). text_eq v.raw_url t ≡ false) urls) (sym same)
          (others seen raw urls fresh),
      distinct,
    ),
  )

  anchor_urls-IsExtracted :
      (seen : List Text) (anchors : List (Text × Text))
      → IsExtracted seen (anchor_urls lib seen anchors)
  unfolding anchor_urls
  anchor_urls-IsExtracted seen [] = (tt, tt, tt)
  anchor_urls-IsExtracted seen ((href, text) ∷ anchors) =
      elim (Bool-cases (is_empty href || one_of seen href)) [
        | inl known ↦ subst step (sym known) (anchor_urls-IsExtracted seen anchors)
        | inr new ↦ subst step (sym new) (
            kept-IsExtracted seen href
              (build_extracted_url lib href html_source (or_none (some text)))
              (anchor_urls lib (href ∷ seen) anchors) (or_false new).1
              (build_extracted_url-IsBuilt href html_source (or_none (some text)))
              (anchor_urls-IsExtracted (href ∷ seen) anchors))
      ]
    where
      step : Bool → Type 0
      step known =
          let rest = anchor_urls lib (if known then seen else href ∷ seen) anchors in
          IsExtracted seen (
            if known
            then rest
            else kept lib (build_extracted_url lib href html_source (or_none (some text))) rest)

  -- Whatever HTML a message has, each URL that is extracted from it is that of a text that can be
  -- parsed, with a host and with a scheme that is not blocked in lower case, and no two are of one text.
  pub extract_urls_from_html-IsNavigable :
      (html_lib : HtmlLibrary) (html : Text)
      → All IsNavigable (extract_urls_from_html lib html_lib html)
        × Distinct (extract_urls_from_html lib html_lib html)
  unfolding extract_urls_from_html
  extract_urls_from_html-IsNavigable html_lib html = elim (Bool-cases (is_empty html)) [
    | inl e ↦ rw e (tt, tt)
    | inr e ↦
        let (good, fresh, distinct) =
          anchor_urls-IsExtracted [] (extract_anchors_from_html html_lib html) in
        rw e (good, distinct)
  ]
