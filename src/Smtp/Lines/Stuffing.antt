-- ===== src/Smtp/Lines/Stuffing.antt =====
-- app/proxies/smtp/server.py: lines that begin with a dot.
use mind_wall.Prelude.{
  ℕ, ◌+◌, ◌≤◌, ◌≡◌, refl, false, some, List, [], ◌∷◌, ◌++◌, ◌==◌, ltb, length, length-append, All,
  arith, Bool-cases, inl, inr, if◌then◌else◌,
}
use mind_wall.Wire.{Text, text_eq, is_empty, starts_with}
use mind_wall.Smtp.Lines.{Input, received, collect_data, unstuff, terminator}

-- RFC 5321, 4.5.2: a client puts a dot before a line that begins with one.
abbrev pub stuff : Text → Text
stuff [] = []
stuff (c ∷ s) = if b'.' == c then b'.' ∷ c ∷ s else c ∷ s

abbrev pub IsLine : Text → Type 0
IsLine l = is_empty l ≡ false

abbrev pub join : List Text → Text
join [] = []
join (l ∷ ls) = l ++ join ls

abbrev pub stuffed : List Text → List Input → List Input
stuffed [] inputs = received terminator ∷ inputs
stuffed (l ∷ ls) inputs = received (stuff l) ∷ stuffed ls inputs

unstuff-stuff : (l : Text) → IsLine l → unstuff (stuff l) ≡ l
unfolding starts_with
unstuff-stuff [] h = cc
unstuff-stuff (c ∷ s) h = elim (Bool-cases (b'.' == c)) [
  | inl t ↦ rw (t, t) refl
  | inr f ↦ rw (f, f) refl
]

stuff-ends_nothing : (l : Text) → IsLine l → text_eq (stuff l) terminator ≡ false
stuff-ends_nothing [] h = cc
stuff-ends_nothing (c ∷ s) h = ground arith

stuff-IsLine : (l : Text) → IsLine l → is_empty (stuff l) ≡ false
stuff-IsLine [] h = h
stuff-IsLine (c ∷ s) h = ground arith

-- The lines of a message that are stuffed and ended by a line with a dot alone come out as they were,
-- and what is behind that line is left to read, if the message is within the limit.
pub collect_data-stuffed :
    (limit total : ℕ) (ls : List Text) (inputs : List Input)
    → All IsLine ls
    → total + length (join ls) ≤ limit
    → collect_data limit total (stuffed ls inputs) ≡ (some (join ls), inputs)
unfolding collect_data
collect_data-stuffed limit total [] inputs h b = refl
collect_data-stuffed limit total (l ∷ ls) inputs h b =
    let u = unstuff-stuff l h.0 in
    let fits : total + length l + length (join ls) ≤ limit =
      omega (arith, b, length-append l (join ls)) in
    let within : ltb limit (total + length l) ≡ false = ground (arith, fits) in
    rw
      (
        stuff-IsLine l h.0,
        stuff-ends_nothing l h.0,
        u,
        within,
        collect_data-stuffed limit (total + length l) ls inputs h.1 fits,
      )
      refl
