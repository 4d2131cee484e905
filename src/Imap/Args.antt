-- ===== src/Imap/Args.antt =====
-- app/proxies/imap/server.py, the argument parsers: `_parse_login_args`, `_split_imap_args`,
-- `_unquote`, and the two regular expressions of the handlers.
pub mod Quoting
use mind_wall.Prelude.{
  ℕ, zero, suc, Bool, false, not, ◌&&◌, ◌||◌, Option, none, some, List, [], ◌∷◌, ◌==◌, length,
  if◌then◌else◌,
}
use mind_wall.Wire.{Text, is_space, strip, is_empty}
use mind_wall.Wire.Splitting.{span}

-- A quoted string from behind its opening quote: its text, and what follows the closing quote. The
-- flag says that the last character was a backslash; one at the very end stands for itself.
unfoldable pub quoted : Bool → Text → Text × Text
quoted escaped [] = (if escaped then b'\\' ∷ [] else [], [])
quoted escaped (c ∷ s) =
    let starts = not escaped && c == b'\\' in
    let (w, rest) = quoted starts s in
    if starts then (w, rest) else if not escaped && c == b'"' then ([], s) else (c ∷ w, rest)

abbrev pub is_word : ℕ → Bool
is_word c = not (c == b' ' || c == b'"')

-- One round of the loop at a character: a quoted string, a space, or a word.
unfoldable pub next_arg : ℕ → Text → Option Text × Text
unfolding quoted span
next_arg c s =
    if c == b'"'
    then (let (w, rest) = quoted false s in (some w, rest))
    else if c == b' '
    then (none, s)
    else (let (w, rest) = span is_word s in (some (c ∷ w), rest))

abbrev pub add_arg : Option Text → List Text → List Text
add_arg none ws = ws
add_arg (some w) ws = w ∷ ws

unfoldable pub split_loop : ℕ → Text → List Text
unfolding next_arg
split_loop zero s = []
split_loop (suc f) [] = []
split_loop (suc f) (c ∷ s) = let (w, rest) = next_arg c s in add_arg w (split_loop f rest)

-- `_split_imap_args`: each round takes a character at least, so the length is fuel enough.
unfoldable pub split_imap_args : Text → List Text
unfolding split_loop
split_imap_args s = split_loop (length s) s

abbrev pub first_two : List Text → Option (Text × Text)
first_two [] = none
first_two (a ∷ []) = none
first_two (a ∷ b ∷ ws) = some (a, b)

-- `_parse_login_args`.
unfoldable pub parse_login_args : Text → Option (Text × Text)
unfolding split_imap_args strip
parse_login_args args = first_two (split_imap_args (strip args))

abbrev pub ends_with_quote : Text → Bool
ends_with_quote [] = false
ends_with_quote (c ∷ []) = c == b'"'
ends_with_quote (c ∷ d ∷ s) = ends_with_quote (d ∷ s)

abbrev pub but_last : Text → Text
but_last [] = []
but_last (c ∷ []) = []
but_last (c ∷ d ∷ s) = c ∷ but_last (d ∷ s)

abbrev pub starts_with_quote : Text → Bool
starts_with_quote [] = false
starts_with_quote (c ∷ s) = c == b'"'

abbrev pub tail : Text → Text
tail [] = []
tail (c ∷ s) = s

-- `_unquote`; `s[1:-1]` of a single quote is empty.
unfoldable pub unquote : Text → Text
unfolding strip
unquote s =
    let t = strip s in if starts_with_quote t && ends_with_quote t then but_last (tail t) else t

abbrev pub after_spaces : Text → Text
after_spaces [] = []
after_spaces (c ∷ s) = let rest = after_spaces s in if is_space c then rest else c ∷ s

-- The group in parentheses: not empty, up to the first closing one.
unfoldable pub status_items : Text → Option Text
unfolding span
status_items [] = none
status_items (c ∷ s) =
    let (items, rest) = span (λ d. not (d == b')')) s in
    if c == b'(' && not (is_empty items) && not (is_empty rest) then some items else none

abbrev pub drop_quote : Text → Text
drop_quote [] = []
drop_quote (c ∷ s) = if c == b'"' then s else c ∷ s

-- The match of `"?([^"(]+)"?\s*\(([^)]+)\)`: the name and the items.
unfoldable pub match_status : Text → Option (Text × Text)
unfolding status_items span
match_status s =
    let (name, rest) = span (λ d. not (d == b'"' || d == b'(')) (drop_quote s) in
    elim (status_items (after_spaces (drop_quote rest))) [
      | none ↦ none
      | some items ↦ if is_empty name then none else some (name, items)
    ]
