-- ===== src/Wire/Equality.antt =====
-- `==` of two texts is their equality.
use mind_wall.Prelude.{
  ◌≡◌, refl, ap, ◌∙◌, sym, ◌==◌, ==_iff, ==_refl, ◌&&◌, true, [], ◌∷◌, Bool-cases, inl, inr,
}
use mind_wall.Wire.{Text, text_eq}

pub text_eq→eq : (s t : Text) → text_eq s t ≡ true → s ≡ t
text_eq→eq [] [] e = refl
text_eq→eq [] (b ∷ t) e = cc
text_eq→eq (a ∷ s) [] e = cc
text_eq→eq (a ∷ s) (b ∷ t) e = elim (Bool-cases (a == b)) [
  | inl same ↦
      ap (λ c. c ∷ s) ((==_iff a b).0 same)
      ∙ ap (λ r. b ∷ r) (text_eq→eq s t (sym (ap (λ q. q && text_eq s t) same) ∙ e))
  | inr other ↦ cc
]

pub text_eq_refl : (t : Text) → text_eq t t ≡ true
text_eq_refl [] = refl
text_eq_refl (c ∷ t) = rw (==_refl c, text_eq_refl t) refl
