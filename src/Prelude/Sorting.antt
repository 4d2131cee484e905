-- ===== src/Prelude/Sorting.antt =====
-- A stable insertion sort, for ORDER BY.
use mathlib.Core.Bool.{Bool}
use mathlib.Core.List.{List, [], ◌∷◌, Perm}
use mathlib.Core.List.Perm
use mathlib.Core.Logic.{inl, inr}
use Prim.Native.Nat.{◌+◌}
use mathlib.Core.Path.{◌≡◌, refl, ◌∙◌}
use native.Mathlib.Omega.{arith}
use mind_wall.Prelude.Tests.{if◌then◌else◌, Bool-cases}
use mind_wall.Prelude.Lists.{length}

module _ {ℓ} {A : Type ℓ} (before : A → A → Bool) where
  -- Before the first element that must not come before it.
  unfoldable pub insert : A → List A → List A
  insert a [] = a ∷ []
  insert a (x ∷ xs) = if before a x then a ∷ x ∷ xs else x ∷ insert a xs

  unfoldable pub sort : List A → List A
  unfolding insert
  sort [] = []
  sort (x ∷ xs) = insert x (sort xs)

  insert-perm : (a : A) (xs : List A) → Perm (insert a xs) (a ∷ xs)
  unfolding insert
  insert-perm a [] = Perm.refl (a ∷ [])
  insert-perm a (x ∷ xs) = elim (Bool-cases (before a x)) [
    | inl e ↦ rw e (Perm.refl (a ∷ x ∷ xs))
    | inr e ↦ rw e (Perm.trans (Perm.cons x (insert-perm a xs)) (Perm.swap a x xs))
  ]

  pub sort-perm : (xs : List A) → Perm (sort xs) xs
  unfolding sort
  sort-perm [] = Perm.refl []
  sort-perm (x ∷ xs) = Perm.trans (insert-perm x (sort xs)) (Perm.cons x (sort-perm xs))

  insert-length : (a : A) (xs : List A) → length (insert a xs) ≡ length xs + 1
  unfolding insert
  insert-length a [] = refl
  insert-length a (x ∷ xs) = elim (Bool-cases (before a x)) [
    | inl e ↦ rw e (omega arith)
    | inr e ↦ rw e (omega (arith, insert-length a xs))
  ]

  pub sort-length : (xs : List A) → length (sort xs) ≡ length xs
  unfolding sort
  sort-length [] = refl
  sort-length (x ∷ xs) = insert-length x (sort xs) ∙ omega (arith, sort-length xs)
