-- ===== src/Imap/Server/Login.antt =====
-- app/proxies/imap/server.py: the LOGIN command, from the line to the session.
use mind_wall.Prelude.{
  ℕ, zero, suc, ◌≡◌, refl, ◌∙◌, ap, false, some, [], ◌∷◌, ◌++◌, All, if◌then◌else◌, ok,
}
use mind_wall.Wire.{Text, codes, is_space, is_empty, lstrip, strip, upper}
use mind_wall.Wire.Splitting.{span, is_printing, before_rest, split_fields}
use mind_wall.Models.Mailboxes.{MailTables}
use mind_wall.Imap.Auth.{ProxySession, CheckPassword, authenticate_proxy_credentials}
use mind_wall.Imap.Folders.{Platform}
use mind_wall.Imap.Args.Quoting.{login_args, Kept, Kept-cons, Kept-login, parse_login_args-quoted}
use mind_wall.Imap.Server.State.{not_auth, auth, Conn, Outcome, send, tagged}
use mind_wall.Imap.Server.Mailboxes.{cmd_login, logged_in}
use mind_wall.Imap.Server.{dispatch, run_fields, run_command, command_of}

-- A word of a line: a first character and more, none of them white space.
abbrev pub IsWord : Text → Type 0
IsWord [] = ⊥
IsWord (c ∷ w) = (is_space c ≡ false) × All (λ d. is_space d ≡ false) w

-- The line of a LOGIN with quoted arguments.
abbrev pub login_line : Text → Text → Text → Text
login_line tag user password = tag ++ b' ' ∷ (codes "LOGIN" ++ b' ' ∷ login_args user password)

span-space : (rest : Text) → span is_printing (b' ' ∷ rest) ≡ ([], b' ' ∷ rest)
unfolding span is_space
span-space rest = refl

span-word :
    (w rest : Text)
    → All (λ d. is_space d ≡ false) w
    → span is_printing (w ++ b' ' ∷ rest) ≡ (w, b' ' ∷ rest)
unfolding span
span-word [] rest h = span-space rest
span-word (c ∷ w) rest h = rw (span-word w rest h.1, h.0) refl

lstrip-word : (c : ℕ) (s : Text) → is_space c ≡ false → lstrip (c ∷ s) ≡ c ∷ s
unfolding lstrip
lstrip-word c s h = rw h refl

-- A word and a space in front of what is split.
split_fields-word :
    (n c : ℕ) (w rest : Text)
    → is_space c ≡ false
    → All (λ d. is_space d ≡ false) w
    → split_fields (suc n) ((c ∷ w) ++ b' ' ∷ rest) ≡ (c ∷ w) ∷ split_fields n (b' ' ∷ rest)
unfolding split_fields
split_fields-word n c w rest printing h =
    ap (λ t. let (word, after) = span is_printing t in before_rest word (split_fields n after))
      (lstrip-word c (w ++ b' ' ∷ rest) printing)
    ∙ ap (λ (q : Text × Text). before_rest q.0 (split_fields n q.1))
        (span-word (c ∷ w) rest (printing, h))

split_fields-space : (n : ℕ) (rest : Text) → split_fields n (b' ' ∷ rest) ≡ split_fields n rest
unfolding split_fields lstrip is_space
split_fields-space zero rest = refl
split_fields-space (suc n) rest = refl

split_fields-args :
    (user password : Text)
    → split_fields 0 (login_args user password) ≡ login_args user password ∷ []
unfolding split_fields lstrip is_space
split_fields-args user password = refl

-- The fields of the line.
split_fields-login :
    (tag user password : Text)
    → IsWord tag
    → split_fields 2 (login_line tag user password)
      ≡ tag ∷ codes "LOGIN" ∷ login_args user password ∷ []
unfolding is_space
split_fields-login [] user password h = absurd h
split_fields-login (c ∷ w) user password (printing, h) =
    let args = login_args user password in
    split_fields-word 1 c w (codes "LOGIN" ++ b' ' ∷ args) printing h
    ∙ ap (λ fields. (c ∷ w) ∷ fields)
        (split_fields-space 1 (codes "LOGIN" ++ b' ' ∷ args)
          ∙ split_fields-word 0 b'L' (codes "OGIN") args refl (refl, (refl, (refl, (refl, tt))))
          ∙ ap (λ fields. codes "LOGIN" ∷ fields)
              (split_fields-space 0 args ∙ split_fields-args user password))

Kept-append : (w t : Text) → Kept t → Kept (w ++ t)
Kept-append [] t k = k
Kept-append (c ∷ w) t k = Kept-cons c (w ++ t) (Kept-append w t k)

not_blank :
    (tag user password : Text)
    → IsWord tag
    → is_empty (strip (login_line tag user password)) ≡ false
unfolding strip
not_blank [] user password h = absurd h
not_blank (c ∷ w) user password (printing, h) =
    let kept = Kept-append (c ∷ w) _ (Kept-append (codes " LOGIN ") _ (Kept-login user password)) in
    ap (λ t. is_empty (lstrip t)) kept.0
    ∙ ap is_empty (lstrip-word c (w ++ (codes " LOGIN " ++ login_args user password)) printing)

-- The connection after a login, which the client is told.
abbrev pub welcome : Text → Text → ProxySession → Conn → Outcome
welcome tag user s c = ok (
    send (record c { proxy_session = some s; state = auth })
      (tagged tag (codes "OK [CAPABILITY IMAP4rev1] LOGIN completed, authenticated as " ++ user)
        ∷ []))

cmd_login-quoted :
    (check : CheckPassword) (db : MailTables) (c : Conn) (tag user password : Text)
    {s : ProxySession}
    → authenticate_proxy_credentials check db.mailbox_profiles user password ≡ some s
    → cmd_login check db tag (login_args user password) c not_auth ≡ welcome tag user s c
unfolding cmd_login logged_in
cmd_login-quoted check db c tag user password accepted =
    rw (cmd_login, parse_login_args-quoted user password, accepted) refl

-- A LOGIN with quoted credentials that are accepted logs a client in, whatever characters they have:
-- the connection, which has not logged in before, has the session of the credentials, and the client
-- is told so. The tag is not empty and has no white space.
pub dispatch-login :
    (p : Platform) (check : CheckPassword) (db : MailTables) (c : Conn) (tag user password : Text)
    {s : ProxySession}
    → c.state ≡ not_auth
    → IsWord tag
    → authenticate_proxy_credentials check db.mailbox_profiles user password ≡ some s
    → dispatch p check db (login_line tag user password) c ≡ welcome tag user s c
unfolding dispatch run_fields run_command command_of upper
dispatch-login p check db c tag user password e h accepted =
    ap (λ b. if b then ok c else run_fields p check db c (split_fields 2 line))
      (not_blank tag user password h)
    ∙ ap (run_fields p check db c) (split_fields-login tag user password h)
    ∙ ap (cmd_login check db tag (login_args user password) c) e
    ∙ cmd_login-quoted check db c tag user password accepted
  where
    line : Text
    line = login_line tag user password
