-- ===== src/Imap/Sets.antt =====
-- app/proxies/imap/server.py: `_parse_uid_set`, `_parse_seq_set` and `_apply_search`. A set is the
-- list of its members; `none` is the ValueError of `int` on a bound of a range, which no handler
-- catches.
pub mod Range
use mind_wall.Prelude.{
  ℕ, zero, suc, ◌-◌, Bool, ◌&&◌, ◌||◌, Option, none, some, List, [], ◌∷◌, ◌++◌, map, ◌==◌, leb, ltb,
  select, any, if◌then◌else◌, drop,
}
use mind_wall.Wire.{Text, codes, text_eq, is_empty, strip, upper, starts_with}
use mind_wall.Wire.Splitting.{split_once, split_all}
use mind_wall.Wire.Numerals.{ℤ, pos, negsuc, le_ℕ, ℕ_le, is_ℕ, int_of}
use mind_wall.Imap.Folders.{ImapMessage, ImapMailbox, max_uid, exists}

abbrev pub all_uids : ImapMailbox → List ℕ
all_uids m = map (λ (x : ImapMessage). x.uid) m.messages

-- A bound of a range: `*` is the greatest number.
unfoldable pub bound : ℕ → Text → Option ℤ
bound greatest s = if text_eq s (codes "*") then some (pos greatest) else int_of s

unfoldable pub bounds : ℕ → Text × Text → Option (ℤ × ℤ)
unfolding bound
bounds greatest (lo, hi) = elim (bound greatest lo) [
  | none ↦ none
  | some a ↦ elim (bound greatest hi) [ none ↦ none | some b ↦ some (a, b) ]
]

abbrev pub within : ℤ × ℤ → ℕ → Bool
within (lo, hi) n = le_ℕ lo n && ℕ_le n hi

-- A part with no colon.
abbrev single : (ℤ → List ℤ) → ℕ → Text → List ℤ
single keep greatest s =
    if text_eq s (codes "*")
    then pos greatest ∷ []
    else elim (int_of s) [ none ↦ [] | some n ↦ keep n ]

unfoldable pub uid_part : List ℕ → ℕ → Text → Option (List ℤ)
unfolding bounds
uid_part uids greatest part = elim (split_once b':' (strip part)) [
  | none ↦ some (single (λ n. n ∷ []) greatest (strip part))
  | some range ↦ elim (bounds greatest range) [
    | none ↦ none
    | some r ↦ some (map pos (select (within r) uids))
  ]
]

-- The numbers of `range(start, stop)`.
abbrev pub count_up : ℕ → ℕ → List ℕ
count_up start zero = []
count_up start (suc n) = start ∷ count_up (suc start) n

-- The number that a bound is after `max(1, lo)`, and the first after `min(n, hi)`.
abbrev pub from_one : ℤ → ℕ
from_one (pos zero) = 1
from_one (pos (suc a)) = suc a
from_one (negsuc a) = 1

abbrev pub past : ℕ → ℤ → ℕ
past n (pos a) = if ltb a n then suc a else suc n
past n (negsuc a) = 0

abbrev keep_seq : ℕ → ℤ → List ℤ
keep_seq n (pos a) = if leb 1 a && leb a n then pos a ∷ [] else []
keep_seq n (negsuc a) = []

unfoldable pub seq_part : ℕ → Text → Option (List ℤ)
unfolding bounds
seq_part n part = elim (split_once b':' (strip part)) [
  | none ↦ some (single (keep_seq n) n (strip part))
  | some range ↦ elim (bounds n range) [
    | none ↦ none
    | some (lo, hi) ↦ some (map pos (count_up (from_one lo) (past n hi - from_one lo)))
  ]
]

-- The loop over the parts.
unfoldable pub union_parts : (Text → Option (List ℤ)) → List Text → Option (List ℤ)
union_parts f [] = some []
union_parts f (p ∷ ps) = elim (f p) [
  | none ↦ none
  | some xs ↦ elim (union_parts f ps) [ none ↦ none | some ys ↦ some (xs ++ ys) ]
]

unfoldable pub parse_uid_set : Text → ImapMailbox → Option (List ℤ)
unfolding union_parts uid_part
parse_uid_set s m =
    if exists m == 0
    then some []
    else union_parts (uid_part (all_uids m) (max_uid m.messages)) (split_all b',' s)

unfoldable pub parse_seq_set : Text → ImapMailbox → Option (List ℤ)
unfolding union_parts seq_part
parse_seq_set s m =
    if exists m == 0 then some [] else union_parts (seq_part (exists m)) (split_all b',' s)

-- `n in target`.
abbrev pub member : ℕ → List ℤ → Bool
member n target = any (λ z. is_ℕ z n) target

-- `_apply_search`.
unfoldable pub apply_search : Text → ImapMailbox → Option (List ℕ)
unfolding parse_uid_set
apply_search criteria m =
    let up = upper (strip criteria) in
    if is_empty up || text_eq up (codes "ALL")
    then some (all_uids m)
    else if starts_with (codes "UID ") up
    then elim (parse_uid_set (drop 4 (strip criteria)) m) [
      | none ↦ none
      | some target ↦ some (select (λ u. member u target) (all_uids m))
    ]
    else some (all_uids m)
