-- ===== src/Imap/Args/Quoting.antt =====
-- app/proxies/imap/server.py, `_parse_login_args`: what a client quotes comes back.
use mind_wall.Prelude.{
  ℕ, zero, suc, ◌-◌, ◌≡◌, refl, ◌∙◌, ap, false, ◌||◌, some, [], ◌∷◌, ◌++◌, ◌==◌, length,
  length-append, Bool-cases, inl, inr, if◌then◌else◌, arith,
}
use mind_wall.Wire.{Text, is_space, is_empty, rstrip, lstrip, strip}
use mind_wall.Imap.Args.{quoted, first_two, split_loop, split_imap_args, parse_login_args}

-- A text as RFC 3501 has it in a quoted string: a quote and a backslash stand behind a backslash.
abbrev pub escape : Text → Text
escape [] = []
escape (c ∷ w) =
    let rest = escape w in if c == b'"' || c == b'\\' then b'\\' ∷ c ∷ rest else c ∷ rest

-- A quoted string, and what follows it.
abbrev pub quote_then : Text → Text → Text
quote_then w rest = b'"' ∷ (escape w ++ b'"' ∷ rest)

-- The arguments of LOGIN.
abbrev pub login_args : Text → Text → Text
login_args user password = quote_then user (b' ' ∷ quote_then password [])

quoted-escape : (w rest : Text) → quoted false (escape w ++ b'"' ∷ rest) ≡ (w, rest)
unfolding quoted
quoted-escape [] rest = refl
quoted-escape (c ∷ w) rest = elim (Bool-cases (c == b'"')) [
  | inl t ↦ rw (t, quoted-escape w rest) refl
  | inr f ↦ elim (Bool-cases (c == b'\\')) [
    | inl t ↦ rw (f, t, quoted-escape w rest) refl
    | inr g ↦ rw (f, g, g, f, quoted-escape w rest) refl
  ]
]

nothing_more : (f : ℕ) → split_loop f [] ≡ []
unfolding split_loop
nothing_more zero = refl
nothing_more (suc f) = refl

split_loop-login :
    (f : ℕ) (user password : Text)
    → split_loop (suc (suc (suc f))) (login_args user password) ≡ user ∷ password ∷ []
unfolding split_loop
split_loop-login f user password =
    rw (quoted-escape user (b' ' ∷ quote_then password []), quoted-escape password [])
      (ap (λ ws. user ∷ password ∷ ws) (nothing_more f))

-- A text that `rstrip` leaves as it is.
abbrev pub Kept : Text → Type 0
Kept t = (rstrip t ≡ t) × (is_empty t ≡ false)

pub Kept-cons : (c : ℕ) (t : Text) → Kept t → Kept (c ∷ t)
unfolding rstrip
Kept-cons c t (e, n) = elim (Bool-cases (is_space c)) [
  | inl s ↦ (rw (e, s, n) refl, refl)
  | inr s ↦ (rw (e, s) refl, refl)
]

Kept-escape : (w t : Text) → Kept t → Kept (escape w ++ t)
Kept-escape [] t k = k
Kept-escape (c ∷ w) t k = elim (Bool-cases (c == b'"' || c == b'\\')) [
  | inl e ↦ rw e (Kept-cons b'\\' _ (Kept-cons c _ (Kept-escape w t k)))
  | inr e ↦ rw e (Kept-cons c _ (Kept-escape w t k))
]

Kept-quote : (w t : Text) → Kept t → Kept (quote_then w t)
Kept-quote w t k = Kept-cons b'"' _ (Kept-escape w (b'"' ∷ t) (Kept-cons b'"' t k))

pub Kept-login : (user password : Text) → Kept (login_args user password)
unfolding rstrip is_space
Kept-login user password =
    Kept-quote user _
      (Kept-cons b' ' _ (Kept-cons b'"' _ (Kept-escape password (b'"' ∷ []) (refl, refl))))

strip-login : (user password : Text) → strip (login_args user password) ≡ login_args user password
unfolding strip lstrip is_space
strip-login user password = ap lstrip (Kept-login user password).0

-- Whatever the username and the password are, also with quotes, backslashes and spaces in them: where
-- a client sends both as quoted strings, LOGIN takes them as they were.
pub parse_login_args-quoted :
    (user password : Text) → parse_login_args (login_args user password) ≡ some (user, password)
unfolding parse_login_args split_imap_args
parse_login_args-quoted user password =
    let s = login_args user password in
    let enough : length s ≡ suc (suc (suc (length s - 3))) = omega (
      arith,
      length-append (escape user) (b'"' ∷ b' ' ∷ quote_then password []),
      length-append (escape password) (b'"' ∷ []),
    ) in
    ap (λ t. first_two (split_loop (length t) t)) (strip-login user password)
    ∙ ap (λ n. first_two (split_loop n s)) enough
    ∙ ap first_two (split_loop-login (length s - 3) user password)
