-- ===== src/Messages/HtmlSafe.antt =====
-- app/messages/html_safe.py: the text and the anchors of HTML.
pub mod Skipping
use mind_wall.Prelude.{
  ℕ, zero, suc, ◌+◌, ◌-◌, Bool, true, false, not, ◌&&◌, ◌||◌, Option, none, some, List, [], ◌∷◌,
  ◌++◌, ◌==◌, if◌then◌else◌, any,
}
use mind_wall.Wire.{Text, codes, text_eq, one_of, is_empty, starts_with, strip}

-- What the parser of the standard library calls, with the attributes of a tag.
pub data HtmlEvent : Type 0 where
  start_tag : Text → List (Text × Option Text) → HtmlEvent
  end_tag char_data : Text → HtmlEvent

-- `HTMLParser.feed`, up to its end or its exception; `str.lower`; and the two `re.sub` of `get_text`.
pub record HtmlLibrary : Type 0 where
  pub feed : Text → List HtmlEvent
  pub lower : Text → Text
  pub squash_lines : Text → Text
  pub squash_blanks : Text → Text

-- `_TextExtractor`.
pub record TextExtractor : Type 0 where
  pub skip_depth : ℕ
  pub parts : List Text
  pub anchors : List (Text × Text)
  pub current_anchor_href : Option Text
  pub current_anchor_parts : List Text

abbrev pub skip_tags : List Text
skip_tags =
    codes "script"
    ∷ codes "style"
    ∷ codes "head"
    ∷ codes "meta"
    ∷ codes "link"
    ∷ codes "noscript"
    ∷ codes "template"
    ∷ []

abbrev pub block_tags : List Text
block_tags =
    codes "p"
    ∷ codes "div"
    ∷ codes "h1"
    ∷ codes "h2"
    ∷ codes "h3"
    ∷ codes "h4"
    ∷ codes "h5"
    ∷ codes "h6"
    ∷ codes "li"
    ∷ codes "tr"
    ∷ codes "blockquote"
    ∷ []

abbrev blocked_schemes : List Text
blocked_schemes = codes "javascript:" ∷ codes "data:" ∷ codes "vbscript:" ∷ []

-- `"".join(…)`.
abbrev joined : List Text → Text
joined [] = []
joined (t ∷ ts) = t ++ joined ts

unfoldable pub new_extractor : TextExtractor
new_extractor = record {
  skip_depth = 0;
  parts = [];
  anchors = [];
  current_anchor_href = none;
  current_anchor_parts = [];
}

abbrev add_part : Text → TextExtractor → TextExtractor
add_part t x = record x { parts = x.parts ++ t ∷ [] }

-- The destination of an anchor that may be kept.
unfoldable is_href : Text → Bool
is_href v = not (is_empty v) && not (any (λ scheme. starts_with scheme v) blocked_schemes)

unfoldable pub first_href : List (Text × Option Text) → Option Text
unfolding is_href
first_href [] = none
first_href ((k, none) ∷ attrs) = first_href attrs
first_href ((k, some v) ∷ attrs) =
    let rest = first_href attrs in if text_eq k (codes "href") && is_href v then some v else rest

-- A line break, where the tag makes one.
abbrev pub break_at : Bool → TextExtractor → TextExtractor
break_at b x = if b then add_part (codes "\n") x else x

-- A start tag that is not skipped, in lower case.
unfoldable pub opened_tag : Text → List (Text × Option Text) → TextExtractor → TextExtractor
unfolding first_href
opened_tag tag attrs x =
    let y = break_at (text_eq tag (codes "br")) (break_at (one_of block_tags tag) x) in
    if text_eq tag (codes "a")
    then record y { current_anchor_href = first_href attrs; current_anchor_parts = [] }
    else y

-- The end of an anchor, if one is open.
unfoldable pub close_anchor : Option Text → TextExtractor → TextExtractor
unfolding strip
close_anchor none x = x
close_anchor (some href) x = record x {
  anchors = x.anchors ++ (href, strip (joined x.current_anchor_parts)) ∷ [];
  current_anchor_href = none;
  current_anchor_parts = [];
}

unfoldable pub leave_skipped : Bool → TextExtractor → TextExtractor
leave_skipped b x = if b then record x { skip_depth = x.skip_depth - 1 } else x

-- `self._skip_depth == 0`.
abbrev pub is_outside : ℕ → Bool
is_outside zero = true
is_outside (suc depth) = false

-- The steps of `handle_endtag`: whether the tag is skipped, is that of an anchor, and makes a line
-- break.
unfoldable pub end_steps : Bool → Bool → Bool → TextExtractor → TextExtractor
unfolding leave_skipped close_anchor
end_steps skipped anchor block x =
    let y = leave_skipped skipped x in
    let z = if anchor then close_anchor y.current_anchor_href y else y in
    break_at (block && is_outside z.skip_depth) z

-- `handle_endtag`, with the tag in lower case.
unfoldable pub closed_tag : Text → TextExtractor → TextExtractor
unfolding end_steps
closed_tag tag x =
    end_steps (one_of skip_tags tag) (text_eq tag (codes "a")) (one_of block_tags tag) x

-- `handle_data` outside what is skipped.
unfoldable pub text_data : Text → Option Text → TextExtractor → TextExtractor
text_data t none x = add_part t x
text_data t (some href) x =
    add_part t (record x { current_anchor_parts = x.current_anchor_parts ++ t ∷ [] })

-- `handle_starttag`, with the tag in lower case, and whether it is skipped.
unfoldable pub start_steps : Bool → Text → List (Text × Option Text) → TextExtractor → TextExtractor
unfolding opened_tag
start_steps true tag attrs x = record x { skip_depth = x.skip_depth + 1 }
start_steps false tag attrs x = if is_outside x.skip_depth then opened_tag tag attrs x else x

module _ (lib : HtmlLibrary) where
  -- `handle_starttag`, `handle_endtag` and `handle_data`.
  unfoldable pub handled : HtmlEvent → TextExtractor → TextExtractor
  unfolding start_steps closed_tag text_data
  handled (start_tag tag attrs) x =
      start_steps (one_of skip_tags (lib.lower tag)) (lib.lower tag) attrs x
  handled (end_tag tag) x = closed_tag (lib.lower tag) x
  handled (char_data t) x =
      if is_outside x.skip_depth then text_data t x.current_anchor_href x else x

  unfoldable pub fed : List HtmlEvent → TextExtractor → TextExtractor
  unfolding handled
  fed [] x = x
  fed (e ∷ es) x = fed es (handled e x)

  unfoldable pub get_text : TextExtractor → Text
  unfolding strip
  get_text x = strip (lib.squash_blanks (lib.squash_lines (joined x.parts)))

  unfoldable pub extract_text_from_html : Text → Text
  unfolding fed get_text new_extractor
  extract_text_from_html html =
      if is_empty html then [] else get_text (fed (lib.feed html) new_extractor)

  unfoldable pub extract_anchors_from_html : Text → List (Text × Text)
  unfolding fed new_extractor
  extract_anchors_from_html html =
      if is_empty html then [] else (fed (lib.feed html) new_extractor).anchors
