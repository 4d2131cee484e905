-- ===== src/Models/Numbers.antt =====
-- Python's floats. A value is the 64 bits of a double; what the platform computes with it is a
-- record of operations, and the facts that a theorem needs of them are a record of laws.
use mind_wall.Prelude.{ℕ, ◌≡◌, Bool, true, false, Option, String, List, if◌then◌else◌}

abbrev pub Float : Type 0
Float = ℕ

pub record FloatOps : Type 0 where
  -- a <= b and a < b, both false where one is a NaN
  pub le : Float → Float → Bool
  pub lt : Float → Float → Bool
  pub add : Float → Float → Float
  pub mul : Float → Float → Float
  pub div : Float → Float → Float
  -- sum(xs)
  pub sum : List Float → Float
  -- `decimal n k` is the literal n / 10 ^ k
  pub decimal : ℕ → ℕ → Float
  -- round(x, k)
  pub round : ℕ → Float → Float
  -- f"{x:.{k}f}"
  pub fixed : ℕ → Float → String
  -- float(text), `none` where it raises ValueError
  pub parse : String → Option Float

module _ (ops : FloatOps) where
  open ops use {lt}

  -- Python's `min(a, b)` and `max(a, b)` keep the first argument unless the second is smaller, or
  -- larger.
  unfoldable pub min_float : Float → Float → Float
  min_float a b = if lt b a then b else a

  unfoldable pub max_float : Float → Float → Float
  max_float a b = if lt a b then b else a

-- Facts of IEEE 754 comparison and addition, those that the theorems use.
pub record FloatLaws (ops : FloatOps) : Type 0 where
  pub le_trans : (a b c : Float) → ops.le a b ≡ true → ops.le b c ≡ true → ops.le a c ≡ true
  pub le-lt_trans : (a b c : Float) → ops.le a b ≡ true → ops.lt b c ≡ true → ops.lt a c ≡ true
  pub le_of_lt : (a b : Float) → ops.lt a b ≡ true → ops.le a b ≡ true
  pub le_refl_decimal : (n k : ℕ) → ops.le (ops.decimal n k) (ops.decimal n k) ≡ true
  -- Two numbers, neither a NaN, are in order.
  pub le_of_not_lt :
      (a b : Float) → ops.le a a ≡ true → ops.le b b ≡ true → ops.lt a b ≡ false → ops.le b a ≡ true
  pub zero_le_one : ops.le (ops.decimal 0 1) (ops.decimal 10 1) ≡ true
  pub add_tenth_mono :
      (a b : Float)
      → ops.le a b ≡ true
      → ops.le (ops.add a (ops.decimal 10 2)) (ops.add b (ops.decimal 10 2)) ≡ true
  -- A tenth more is no less.
  pub le-add_tenth :
      (a : Float) → ops.le a a ≡ true → ops.le a (ops.add a (ops.decimal 10 2)) ≡ true
