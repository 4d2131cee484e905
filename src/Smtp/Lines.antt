-- ===== src/Smtp/Lines.antt =====
-- app/proxies/smtp/server.py: reading lines, the DATA section, the command parser and addresses.
pub mod Stuffing
use mind_wall.Prelude.{
  ℕ, zero, suc, ◌+◌, ◌-◌, Bool, true, false, ◌&&◌, ◌||◌, not, Option, none, some, List, [], ◌∷◌,
  ◌++◌, ◌==◌, ltb, length, take, drop, if◌then◌else◌,
}
use mind_wall.Wire.{Text, codes, text_eq, is_empty, strip, upper, starts_with}
use mind_wall.Wire.Splitting.{split_once}

-- What a read meets: the bytes of a line (none at the end of the stream), or no line in time.
pub data Input : Type 0 where
  received : Text → Input
  timed_out : Input

abbrev is_break : ℕ → Bool
is_break c = c == 13 || c == 10

-- `raw.rstrip(b"\r\n")`.
unfoldable pub strip_break : Text → Text
strip_break [] = []
strip_break (c ∷ s) =
    let rest = strip_break s in if is_break c && is_empty rest then [] else c ∷ rest

-- `_readline`, with the decoder of UTF-8: the line, and what is left to read.
unfoldable pub readline : (Text → Text) → List Input → Option Text × List Input
unfolding strip_break
readline decode [] = (none, [])
readline decode (timed_out ∷ inputs) = (none, inputs)
readline decode (received raw ∷ inputs) =
    if is_empty raw || ltb 8192 (length raw)
    then (none, inputs)
    else (some (decode (strip_break raw)), inputs)

abbrev pub terminator : Text
terminator = b'.' ∷ 13 ∷ 10 ∷ []

abbrev pub two_dots : Text
two_dots = b'.' ∷ b'.' ∷ []

abbrev pub unstuff : Text → Text
unstuff raw = if starts_with two_dots raw then drop 1 raw else raw

abbrev pub after : Text → Option Text × List Input → Option Text × List Input
after raw (none, inputs) = (none, inputs)
after raw (some data_, inputs) = (some (raw ++ data_), inputs)

-- The loop of `_collect_data`: the limit, and the bytes so far.
unfoldable pub collect_data : ℕ → ℕ → List Input → Option Text × List Input
unfolding starts_with
collect_data max_message_bytes total [] = (none, [])
collect_data max_message_bytes total (timed_out ∷ inputs) = (none, inputs)
collect_data max_message_bytes total (received raw ∷ inputs) =
    let line = unstuff raw in
    let rest = collect_data max_message_bytes (total + length line) inputs in
    if is_empty raw
    then (none, inputs)
    else if text_eq raw terminator
    then (some [], inputs)
    else if ltb max_message_bytes (total + length line)
    then (none, inputs)
    else after line rest

-- `_parse_command`.
unfoldable pub parse_command : Text → Text × Text
unfolding split_once upper strip
parse_command line = elim (split_once 32 line) [
  | none ↦ (strip (upper line), [])
  | some (cmd, args) ↦ (strip (upper cmd), strip args)
]

-- `s.find(c)`.
unfoldable pub index_of : ℕ → Text → Option ℕ
index_of c [] = none
index_of c (d ∷ s) =
    let rest = index_of c s in
    if d == c then some 0 else elim rest [ none ↦ none | some i ↦ some (suc i) ]

-- What follows the colon, of an argument without angle brackets.
unfoldable pub after_colon : Text → Text
unfolding split_once strip
after_colon s = elim (split_once b':' s) [ none ↦ strip s | some (before, address) ↦ strip address ]

-- `_extract_address`.
unfoldable pub extract_address : Text → Text
unfolding index_of after_colon strip
extract_address s = elim (index_of b'<' s) [
  | none ↦ after_colon s
  | some start ↦ elim (index_of b'>' s) [
    | none ↦ after_colon s
    | some stop ↦
        if ltb start stop
        then strip (take (stop - (start + 1)) (drop (start + 1) s))
        else after_colon s
  ]
]
