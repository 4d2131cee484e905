-- ===== src/Imap/Fetch/Sections.antt =====
-- app/proxies/imap/server.py: the header section and the body section of a message.
use mind_wall.Prelude.{
  ℕ, ◌≡◌, refl, ap, true, Option, none, some, [], ◌∷◌, ◌++◌, drop, length, arith, inl, inr,
  Bool-cases, Option-cases, append-nil,
}
use mind_wall.Wire.{Text, starts_with, cut, prepend}
use mind_wall.Imap.Fetch.{extract_headers, extract_body, crlf_crlf, lf_lf}

starts_with-drop : (p s : Text) → starts_with p s ≡ true → p ++ drop (length p) s ≡ s
unfolding starts_with
starts_with-drop [] s h = refl
starts_with-drop (a ∷ p) [] h = cc
starts_with-drop (a ∷ p) (c ∷ s) h = ground (arith, starts_with-drop p s)

prepend-some :
    (c : ℕ) (o : Option (Text × Text)) {a b : Text}
    → prepend c o ≡ some (a, b)
    → (a' : Text) × (a ≡ c ∷ a') × (o ≡ some (a', b))
prepend-some c none e = cc
prepend-some c (some (x, y)) e = (x, cc, cc)

-- A cut at a separator puts the text together again.
pub cut-append : (sep s : Text) {a b : Text} → cut sep s ≡ some (a, b) → a ++ sep ++ b ≡ s
unfolding cut
cut-append sep [] e = cc
cut-append sep (c ∷ s) {a} {b} e = elim (Bool-cases (starts_with sep (c ∷ s))) [
  | inl h ↦
      (let e' = rw (h, cut) at e in
        let x : [] ≡ a = cc in
        let y : drop (length sep) (c ∷ s) ≡ b = cc in
        rw (← x, ← y) (starts_with-drop sep (c ∷ s) h))
  | inr h ↦
      (let (a', x, y) = prepend-some c (cut sep s) (rw (h, cut) at e) in
        rw x (ap (λ t. c ∷ t) (cut-append sep s y)))
]

-- The header section and the body section of a message are the message, in whichever way its lines
-- end and also where it has no blank line.
pub extract_headers-append-extract_body :
    (raw : Text) → extract_headers raw ++ extract_body raw ≡ raw
unfolding extract_headers extract_body
extract_headers-append-extract_body raw = elim (Option-cases (cut crlf_crlf raw)) [
  | inr ((a, b), found) ↦ rw (found, extract_headers, extract_body) (cut-append crlf_crlf raw found)
  | inl missing ↦ elim (Option-cases (cut lf_lf raw)) [
    | inr ((a, b), found) ↦
        rw (missing, found, extract_headers, extract_body) (cut-append lf_lf raw found)
    | inl also ↦ rw (missing, also, extract_headers, extract_body) (append-nil raw)
  ]
]
