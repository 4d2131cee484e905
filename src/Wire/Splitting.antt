-- ===== src/Wire/Splitting.antt =====
-- `str.split` in the ways that the proxies call it.
use mind_wall.Prelude.{
  ℕ, zero, suc, Bool, not, Option, none, some, List, [], ◌∷◌, ◌==◌, if◌then◌else◌,
}
use mind_wall.Wire.{Text, is_space, lstrip, prepend}

-- The longest prefix of code points that pass, and the rest.
unfoldable pub span : (ℕ → Bool) → Text → Text × Text
span p [] = ([], [])
span p (c ∷ s) = let (a, b) = span p s in if p c then (c ∷ a, b) else ([], c ∷ s)

abbrev pub is_printing : ℕ → Bool
is_printing c = not (is_space c)

abbrev pub nonempty : Text → List Text
nonempty [] = []
nonempty (c ∷ s) = (c ∷ s) ∷ []

abbrev pub before_rest : Text → List Text → List Text
before_rest [] rest = []
before_rest (c ∷ w) rest = (c ∷ w) ∷ rest

-- `s.split(None, n)`: at most n fields, then the rest without its leading white space.
unfoldable pub split_fields : ℕ → Text → List Text
unfolding span lstrip
split_fields zero s = nonempty (lstrip s)
split_fields (suc n) s =
    let (word, rest) = span is_printing (lstrip s) in before_rest word (split_fields n rest)

-- `s.split(sep, 1)` where the separator occurs; `none` where it does not.
unfoldable pub split_once : ℕ → Text → Option (Text × Text)
split_once sep [] = none
split_once sep (c ∷ s) = if c == sep then some ([], s) else prepend c (split_once sep s)

abbrev pub into_first : ℕ → List Text → List Text
into_first c [] = (c ∷ []) ∷ []
into_first c (w ∷ ws) = (c ∷ w) ∷ ws

-- `s.split(sep)`.
unfoldable pub split_all : ℕ → Text → List Text
split_all sep [] = [] ∷ []
split_all sep (c ∷ s) = if c == sep then [] ∷ split_all sep s else into_first c (split_all sep s)
