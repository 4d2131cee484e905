-- ===== src/Prelude/Results.antt =====
-- Values of fallible code: the result, or what it raises.
use mathlib.Core.Path.{◌≡◌, refl}
use mathlib.Core.Logic.{◌⊎◌, inl, inr}
use mathlib.Core.Bool.{Bool, true, false}

pub data Result {ℓ κ} (E : Type κ) (A : Type ℓ) : Type (ℓ ⊔ κ) where
  ok : A → Result E A
  err : E → Result E A

module _ {ℓ} {E A : Type ℓ} where
  -- Whether the call returned.
  abbrev pub returned : Result E A → Bool
  returned (ok a) = true
  returned (err e) = false

  pub Result-cases : (r : Result E A) → ((a : A) × (r ≡ ok a)) ⊎ ((e : E) × (r ≡ err e))
  Result-cases (ok a) = inl (a, refl)
  Result-cases (err e) = inr (e, refl)

-- What follows a call that may raise.
infixl 5 ◌>>=◌ ◌>>◌
abbrev pub ◌>>=◌ {ℓ κ μ} :
    {E : Type μ} {A : Type ℓ} {B : Type κ} → Result E A → (A → Result E B) → Result E B
◌>>=◌ (ok a) f = f a
◌>>=◌ (err e) f = err e

abbrev pub ◌>>◌ {ℓ κ μ} :
    {E : Type μ} {A : Type ℓ} {B : Type κ} → Result E A → Result E B → Result E B
◌>>◌ (ok a) r = r
◌>>◌ (err e) r = err e

-- A chain that returns has returned at each of its links.
pub >>=-returned {ℓ κ μ} :
    {E : Type μ} {A : Type ℓ} {B : Type κ} (r : Result E A) (f : A → Result E B) {b : B}
    → (r >>= f) ≡ ok b
    → (a : A) × (r ≡ ok a) × (f a ≡ ok b)
>>=-returned (ok a) f h = (a, refl, h)
>>=-returned (err e) f h = cc
