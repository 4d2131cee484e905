-- ===== src/Imap/Fetch.antt =====
-- app/proxies/imap/server.py: the FETCH response of one message.
pub mod Sections
use mind_wall.Prelude.{
  ℕ, Bool, true, false, not, ◌&&◌, ◌||◌, Option, none, some, List, [], ◌∷◌, ◌++◌, ◌==◌, length,
  if◌then◌else◌, any,
}
use mind_wall.Wire.{Text, codes, text_eq, strip, upper, contains, cut, one_of}
use mind_wall.Wire.Numerals.{show}
use mind_wall.Imap.Args.{but_last, tail}
use mind_wall.Imap.Folders.{ImapMessage, Platform, crlf}

abbrev pub lf : Text
lf = 10 ∷ []

abbrev pub crlf_crlf : Text
crlf_crlf = 13 ∷ 10 ∷ 13 ∷ 10 ∷ []

abbrev pub lf_lf : Text
lf_lf = 10 ∷ 10 ∷ []

-- `_extract_headers` and `_extract_body` look for the blank line in the same two ways.
unfoldable pub extract_headers : Text → Text
unfolding cut
extract_headers raw = elim (cut crlf_crlf raw) [
  | some (before, after) ↦ before ++ crlf_crlf
  | none ↦ elim (cut lf_lf raw) [ some (before, after) ↦ before ++ lf_lf | none ↦ raw ]
]

unfoldable pub extract_body : Text → Text
unfolding cut
extract_body raw = elim (cut crlf_crlf raw) [
  | some (before, after) ↦ after
  | none ↦ elim (cut lf_lf raw) [ some (before, after) ↦ after | none ↦ [] ]
]

-- `_imap_literal`.
unfoldable pub imap_literal : Platform → Text → Text
unfolding show
imap_literal p bytes = codes "{" ++ show (length bytes) ++ codes "}" ++ crlf ++ p.decode_utf8 bytes

-- `_nstr`.
abbrev nstr : Option Text → Text
nstr none = codes "NIL"
nstr (some s) = b'"' ∷ s ++ codes "\""

abbrev from_text : Option Text → Text
from_text none = []
from_text (some s) = s

abbrev address : ImapMessage → Text
address m = codes "((\"" ++ from_text m.from_address ++ codes "\" NIL NIL NIL))"

abbrev space : Text
space = 32 ∷ []

-- `_build_envelope`.
unfoldable pub build_envelope : ImapMessage → Text
build_envelope m =
    codes "("
    ++ nstr m.date_str
    ++ space
    ++ nstr m.subject
    ++ space
    ++ address m
    ++ space
    ++ address m
    ++ space
    ++ address m
    ++ codes " NIL NIL NIL NIL NIL)"

-- `" ".join(words)`.
abbrev pub join_words : List Text → Text
join_words [] = []
join_words (w ∷ []) = w
join_words (w ∷ v ∷ ws) = w ++ space ++ join_words (v ∷ ws)

-- A part of the response: the word that it begins with, which is its key, and what follows the
-- space.
abbrev Part : Type 0
Part = Text × Text

abbrev when : Bool → Part → List Part
when true p = p ∷ []
when false p = []

-- The section of the message that is asked for; the first of the three forms counts.
abbrev body_part : Platform → Text → ImapMessage → List Part
body_part p up m =
    if contains (codes "BODY[]") up
      || contains (codes "BODY.PEEK[]") up
      || contains (codes "RFC822") up
    then (codes "BODY[]", imap_literal p m.raw_bytes) ∷ []
    else if contains (codes "BODY[HEADER]") up || contains (codes "BODY.PEEK[HEADER]") up
    then (codes "BODY[HEADER]", imap_literal p (extract_headers m.raw_bytes)) ∷ []
    else if contains (codes "BODY[TEXT]") up || contains (codes "BODY.PEEK[TEXT]") up
    then (codes "BODY[TEXT]", imap_literal p (extract_body m.raw_bytes)) ∷ []
    else []

abbrev structure : ImapMessage → Part
structure m = (
  codes "BODYSTRUCTURE",
  codes "(\"TEXT\" \"PLAIN\" (\"CHARSET\" \"UTF-8\") NIL NIL \"7BIT\" "
      ++ show m.size
      ++ codes " 1 NIL NIL NIL)",
)

-- The parts in the order of the code.
unfoldable pub fetch_parts : Platform → Text → ImapMessage → List Part
unfolding imap_literal extract_headers extract_body build_envelope show contains
fetch_parts p up m =
    (codes "UID", show m.uid)
      ∷ when (contains (codes "FLAGS") up)
          (codes "FLAGS", codes "(" ++ join_words m.flags ++ codes ")")
    ++ when
        (contains (codes "RFC822.SIZE") up
          || contains (codes "BODY") up
          || contains (codes "RFC822") up)
        (codes "RFC822.SIZE", show m.size)
    ++ body_part p up m
    ++ when (contains (codes "ENVELOPE") up) (codes "ENVELOPE", build_envelope m)
    ++ when
        (contains (codes "BODYSTRUCTURE") up
          || contains (codes "BODY") up && not (contains (codes "[") up))
        (structure m)

-- The last loop: a part whose key has been seen is dropped.
unfoldable pub unique_parts : List Text → List Part → List Part
unique_parts seen [] = []
unique_parts seen ((k, v) ∷ ps) =
    let rest = unique_parts (k ∷ seen) ps in
    let same = unique_parts seen ps in if one_of seen k then same else (k, v) ∷ rest

abbrev join_parts : List Part → List Text
join_parts [] = []
join_parts ((k, v) ∷ ps) = (k ++ space ++ v) ∷ join_parts ps

abbrev starts_paren : Text → Bool
starts_paren [] = false
starts_paren (c ∷ s) = c == b'('

abbrev ends_paren : Text → Bool
ends_paren [] = false
ends_paren (c ∷ []) = c == b')'
ends_paren (c ∷ d ∷ s) = ends_paren (d ∷ s)

-- The outer parentheses go.
unfoldable pub normalize_items : Text → Text
unfolding strip
normalize_items items =
    let t = strip items in if starts_paren t && ends_paren t then but_last (tail t) else t

-- `_build_fetch_response`.
unfoldable pub build_fetch_response : Platform → ImapMessage → Text → Text
unfolding fetch_parts unique_parts normalize_items upper
build_fetch_response p m items =
    join_words (join_parts (unique_parts [] (fetch_parts p (upper (normalize_items items)) m)))
