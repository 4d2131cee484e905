-- ===== src/Wire.antt =====
-- Text and bytes on the wire, as Python handles them. A text is the list of its code points; case,
-- white space and digits are those of ASCII, which is what the two protocols are written in.
pub mod Equality
pub mod Splitting
pub mod Numerals
use Prim.Native.Char.{code}
use Prim.Native.String.{String}
use mind_wall.Prelude.{
  ℕ, ◌+◌, ◌-◌, Bool, true, false, not, ◌&&◌, ◌||◌, Option, none, some, List, [], ◌∷◌, ◌++◌, map,
  any, ◌==◌, leb, if◌then◌else◌, drop, length,
}

abbrev pub Text : Type 0
Text = List ℕ

-- The code points of a literal.
abbrev pub codes : String → Text
codes String.[] = []
codes (String.◌∷◌ c s) = code c ∷ codes s

abbrev pub text_eq : Text → Text → Bool
text_eq [] [] = true
text_eq [] (b ∷ t) = false
text_eq (a ∷ s) [] = false
text_eq (a ∷ s) (b ∷ t) = a == b && text_eq s t

abbrev pub is_empty : Text → Bool
is_empty [] = true
is_empty (c ∷ s) = false

-- `t in (a, b, …)`.
abbrev pub one_of : List Text → Text → Bool
one_of [] t = false
one_of (x ∷ xs) t = text_eq t x || one_of xs t

unfoldable pub is_space : ℕ → Bool
is_space c = leb 9 c && leb c 13 || leb 28 c && leb c 32

unfoldable pub upper : Text → Text
upper [] = []
upper (c ∷ s) = (if leb b'a' c && leb c b'z' then c - 32 else c) ∷ upper s

unfoldable pub lstrip : Text → Text
unfolding is_space
lstrip [] = []
lstrip (c ∷ s) = let rest = lstrip s in if is_space c then rest else c ∷ s

unfoldable pub rstrip : Text → Text
unfolding is_space
rstrip [] = []
rstrip (c ∷ s) = let rest = rstrip s in if is_space c && is_empty rest then [] else c ∷ rest

unfoldable pub strip : Text → Text
unfolding lstrip rstrip
strip s = lstrip (rstrip s)

unfoldable pub starts_with : Text → Text → Bool
starts_with [] s = true
starts_with (p ∷ ps) [] = false
starts_with (p ∷ ps) (c ∷ s) = p == c && starts_with ps s

-- `sub in s`.
unfoldable pub contains : Text → Text → Bool
unfolding starts_with
contains sub [] = starts_with sub []
contains sub (c ∷ s) = starts_with sub (c ∷ s) || contains sub s

abbrev pub prepend : ℕ → Option (Text × Text) → Option (Text × Text)
prepend c none = none
prepend c (some (a, b)) = some (c ∷ a, b)

-- What comes before the first occurrence of a separator, and what comes after; `none` where `find`
-- answers -1.
unfoldable pub cut : Text → Text → Option (Text × Text)
unfolding starts_with
cut sep [] = none
cut sep (c ∷ s) =
    let rest = cut sep s in
    if starts_with sep (c ∷ s) then some ([], drop (length sep) (c ∷ s)) else prepend c rest
