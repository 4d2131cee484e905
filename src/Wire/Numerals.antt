-- ===== src/Wire/Numerals.antt =====
-- Decimal numbers: `str(n)` and `int(text)`.
use mind_wall.Prelude.{
  ℕ, zero, suc, ◌+◌, ◌*◌, ◌/◌, ◌%◌, ◌-◌, ◌≡◌, refl, Bool, true, false, ◌&&◌, ◌||◌, Option, none,
  some, [], ◌∷◌, ◌++◌, ◌==◌, leb, ltb, if◌then◌else◌,
}
use mind_wall.Wire.{Text, codes, strip}

-- Python's integers; `negsuc n` is -(n + 1).
pub data ℤ : Type 0 where
  pos : ℕ → ℤ
  negsuc : ℕ → ℤ

abbrev pub negate : ℕ → ℤ
negate zero = pos 0
negate (suc n) = negsuc n

-- a <= b for an integer and a natural number, and the other way round.
abbrev pub le_ℕ : ℤ → ℕ → Bool
le_ℕ (pos a) b = leb a b
le_ℕ (negsuc a) b = true

abbrev pub ℕ_le : ℕ → ℤ → Bool
ℕ_le a (pos b) = leb a b
ℕ_le a (negsuc b) = false

abbrev pub is_ℕ : ℤ → ℕ → Bool
is_ℕ (pos a) b = a == b
is_ℕ (negsuc a) b = false

-- The fuel n is enough: each round divides by ten.
unfoldable pub show_fuel : ℕ → ℕ → Text
show_fuel zero n = []
show_fuel (suc f) n =
    let rest = show_fuel f (n / 10) in
    if ltb n 10 then (n + 48) ∷ [] else rest ++ (n % 10 + 48) ∷ []

unfoldable pub show : ℕ → Text
unfolding show_fuel
show n = show_fuel (suc n) n

abbrev pub is_digit : ℕ → Bool
is_digit c = leb b'0' c && leb c b'9'

-- The digits of `int`: single underscores may stand between two digits, so the scan keeps whether
-- the last one was a digit. It counts the digits, since `int` refuses more than 4300 of them.
unfoldable pub int_digits : Bool → ℕ → ℕ → Text → Option ℕ
int_digits after_digit count n [] = if after_digit && leb count 4300 then some n else none
int_digits after_digit count n (c ∷ s) =
    let digit = is_digit c in
    let rest =
      int_digits digit (if digit then count + 1 else count) (if digit then n * 10 + (c - 48) else n)
        s in
    if digit || c == b'_' && after_digit then rest else none

unfoldable pub int_unsigned : Text → Option ℕ
unfolding int_digits
int_unsigned = int_digits false 0 0

abbrev pub signed : (ℕ → ℤ) → Option ℕ → Option ℤ
signed f none = none
signed f (some n) = some (f n)

abbrev by_sign : Text → Option ℤ
by_sign [] = none
by_sign (c ∷ s) =
    if c == b'-'
    then signed negate (int_unsigned s)
    else if c == b'+'
    then signed pos (int_unsigned s)
    else signed pos (int_unsigned (c ∷ s))

-- `int(text)`; `none` where it raises ValueError.
unfoldable pub int_of : Text → Option ℤ
unfolding int_unsigned strip
int_of text = by_sign (strip text)

int_of-tests :
    (int_of (codes " -12 ") ≡ some (negsuc 11))
    × (int_of (codes "1_000") ≡ some (pos 1000))
    × (int_of (codes "1__0") ≡ none)
    × (int_of (codes "_1") ≡ none)
    × (int_of (codes "1_") ≡ none)
    × (int_of (codes "*") ≡ none)
    × (show 1207 ≡ codes "1207")
unfolding int_of show
int_of-tests = (refl, refl, refl, refl, refl, refl, refl)

-- a < b
abbrev pub lt_int : ℤ → ℤ → Bool
lt_int (pos a) (pos b) = ltb a b
lt_int (pos a) (negsuc b) = false
lt_int (negsuc a) (pos b) = true
lt_int (negsuc a) (negsuc b) = ltb b a
