-- ===== src/Smtp/Server/Fuel.antt =====
-- app/proxies/smtp/server.py: the end of the command loop.
use mind_wall.Prelude.{
  ℕ, zero, suc, ◌+◌, ◌≤◌, ◌<◌, ◌≡◌, refl, subst, Option, none, some, List, [], ◌∷◌, length,
  Option-cases, Bool-cases, inl, inr, ◌⊎◌, arith, ltb, ◌||◌,
}
use mind_wall.Wire.{Text, codes, text_eq, is_empty, upper}
use mind_wall.Imap.Auth.{ProxySession}
use mind_wall.Smtp.Lines.{
  Input, received, timed_out, readline, collect_data, unstuff, after, terminator, parse_command,
}
use mind_wall.Smtp.Commands.{
  SmtpState, greeting, ehlo, auth, mail, rcpt, data_, Conn, Server, and_rest, cmd_data, cmd_auth,
  authenticated, decoded_line, partition, handle_auth_plain, handle_auth_login,
}
use mind_wall.Smtp.Server.{
  Command, quit, noop, say_ehlo, say_helo, with_auth, reset, mail_from, rcpt_to, with_data, unknown,
  Next, finished, going_on, assertion_error, next_of, early_data, is_greeting, run_authenticated,
  when_authenticated, run_auth, run_command, command_of, round, serve, greeted, handle,
}
use mind_wall.Smtp.Server.Sound.{IsSound}
use mind_wall.Smtp.Server.Safe.{IsSafe, round-IsSafe}

-- No more than n lines are left to read.
abbrev LeavesAtMost : ℕ → Next → Type 0
LeavesAtMost n (finished c) = Unit
LeavesAtMost n (going_on c rest) = length rest ≤ n
LeavesAtMost n assertion_error = Unit

length-readline :
    (decode : Text → Text) (inputs : List Input) → length (readline decode inputs).1 ≤ length inputs
unfolding readline
length-readline decode [] = omega arith
length-readline decode (timed_out ∷ inputs) = omega arith
length-readline decode (received raw ∷ inputs) =
    elim (Bool-cases (is_empty raw || ltb 8192 (length raw))) [
      | inl t ↦ rw (t, readline) (omega arith)
      | inr f ↦ rw (f, readline) (omega arith)
    ]

readline-reads :
    (decode : Text → Text) (inputs : List Input) {line : Text}
    → (readline decode inputs).0 ≡ some line
    → length (readline decode inputs).1 < length inputs
unfolding readline
readline-reads decode [] e = cc
readline-reads decode (timed_out ∷ inputs) e = cc
readline-reads decode (received raw ∷ inputs) e =
    elim (Bool-cases (is_empty raw || ltb 8192 (length raw))) [
      | inl t ↦ rw (t, readline) (omega arith)
      | inr f ↦ rw (f, readline) (omega arith)
    ]

length-after : (line : Text) (r : Option Text × List Input) → length (after line r).1 ≡ length r.1
length-after line (none, rest) = refl
length-after line (some d, rest) = refl

length-collect_data :
    (limit total : ℕ) (inputs : List Input)
    → length (collect_data limit total inputs).1 ≤ length inputs
unfolding collect_data
length-collect_data limit total [] = omega arith
length-collect_data limit total (timed_out ∷ inputs) = omega arith
length-collect_data limit total (received raw ∷ inputs) = elim (Bool-cases (is_empty raw)) [
  | inl t ↦ rw (t, collect_data) (omega arith)
  | inr n ↦ elim (Bool-cases (text_eq raw terminator)) [
    | inl t ↦ rw (n, t, collect_data) (omega arith)
    | inr n' ↦ elim (Bool-cases (ltb limit (total + length (unstuff raw)))) [
      | inl t ↦ rw (n, n', t, collect_data) (omega arith)
      | inr n'' ↦
          rw (n, n', n'', collect_data)
            (omega (
              arith,
              length-after (unstuff raw) (collect_data limit (total + length (unstuff raw)) inputs),
              length-collect_data limit (total + length (unstuff raw)) inputs,
            ))
    ]
  ]
]

module _ (v : Server) where
  length-authenticated :
      (c : Conn) (found : Option ProxySession) (rest : List Input)
      → (authenticated v (c, found, rest)).1 ≡ rest
  unfolding authenticated
  length-authenticated c none rest = refl
  length-authenticated c (some s) rest = refl

  length-auth_plain :
      (c : Conn) (initial : Text) (inputs : List Input)
      → length (handle_auth_plain v c initial inputs).2 ≤ length inputs
  unfolding handle_auth_plain
  length-auth_plain c initial inputs = elim (Bool-cases (is_empty initial)) [
    | inl t ↦ rw (t, handle_auth_plain) (length-readline v.decode_utf8 inputs)
    | inr f ↦ rw (f, handle_auth_plain) (omega arith)
  ]

  length-auth_login :
      (c : Conn) (inputs : List Input) → length (handle_auth_login v c inputs).2 ≤ length inputs
  unfolding handle_auth_login
  length-auth_login c inputs =
      let rest = (readline v.decode_utf8 inputs).1 in
      elim (Option-cases (decoded_line v (readline v.decode_utf8 inputs).0)) [
        | inl missing ↦ rw (missing, handle_auth_login) (length-readline v.decode_utf8 inputs)
        | inr (name, found) ↦
            rw (found, handle_auth_login)
              (omega
                (arith, length-readline v.decode_utf8 inputs, length-readline v.decode_utf8 rest))
      ]

  length-cmd_auth :
      (c : Conn) (args : Text) (inputs : List Input)
      → length (cmd_auth v c args inputs).1 ≤ length inputs
  unfolding cmd_auth
  length-cmd_auth c args inputs =
      let (word, initial) = partition v args in
      elim (Bool-cases (text_eq (upper word) (codes "PLAIN"))) [
        | inl t ↦
            rw
              (
                t,
                cmd_auth,
                length-authenticated (handle_auth_plain v c initial inputs).0
                    (handle_auth_plain v c initial inputs).1
                    (handle_auth_plain v c initial inputs).2,
              )
              (length-auth_plain c initial inputs)
        | inr f ↦ elim (Bool-cases (text_eq (upper word) (codes "LOGIN"))) [
          | inl t ↦
              rw
                (
                  f,
                  t,
                  cmd_auth,
                  length-authenticated (handle_auth_login v c inputs).0
                      (handle_auth_login v c inputs).1 (handle_auth_login v c inputs).2,
                )
                (length-auth_login c inputs)
          | inr f' ↦ rw (f, f', cmd_auth) (omega arith)
        ]
      ]

  run_auth-leaves :
      (args : Text) (c : Conn) (inputs : List Input) (st : SmtpState)
      (session : Option ProxySession)
      → LeavesAtMost (length inputs) (run_auth v args c inputs st session)
  unfolding run_auth
  run_auth-leaves args c inputs st (some s) = elim (Bool-cases (is_greeting st)) [
    | inl t ↦ rw (t, run_auth) (omega arith)
    | inr f ↦ rw (f, run_auth) (omega arith)
  ]
  run_auth-leaves args c inputs st none = elim (Bool-cases (is_greeting st)) [
    | inl t ↦ rw (t, run_auth) (omega arith)
    | inr f ↦ rw (f, run_auth) (length-cmd_auth c args inputs)
  ]

  and_rest-leaves :
      (o : Option Conn) (rest : List Input) (n : ℕ)
      → length rest ≤ n
      → LeavesAtMost n (next_of (and_rest o rest))
  and_rest-leaves none rest n h = tt
  and_rest-leaves (some c) rest n h = h

  data-leaves :
      (c : Conn) (s : ProxySession) (inputs : List Input) (st : SmtpState)
      → LeavesAtMost (length inputs) (next_of (early_data c (cmd_data v c s inputs) inputs st))
  unfolding cmd_data
  data-leaves c s inputs greeting = omega arith
  data-leaves c s inputs ehlo = omega arith
  data-leaves c s inputs auth = omega arith
  data-leaves c s inputs mail = omega arith
  data-leaves c s inputs data_ = omega arith
  data-leaves c s inputs rcpt =
      and_rest-leaves _ (collect_data v.max_message_bytes 0 inputs).1 (length inputs)
        (length-collect_data v.max_message_bytes 0 inputs)

  when_authenticated-leaves :
      (name args : Text) (c : Conn) (inputs : List Input) (command : Command)
      (session : Option ProxySession)
      → LeavesAtMost (length inputs) (when_authenticated v name args c inputs command session)
  unfolding when_authenticated run_authenticated
  when_authenticated-leaves name args c inputs command none = omega arith
  when_authenticated-leaves name args c inputs reset (some s) = omega arith
  when_authenticated-leaves name args c inputs mail_from (some s) = omega arith
  when_authenticated-leaves name args c inputs rcpt_to (some s) = omega arith
  when_authenticated-leaves name args c inputs with_data (some s) = data-leaves c s inputs c.state
  when_authenticated-leaves name args c inputs quit (some s) = omega arith
  when_authenticated-leaves name args c inputs noop (some s) = omega arith
  when_authenticated-leaves name args c inputs say_ehlo (some s) = omega arith
  when_authenticated-leaves name args c inputs say_helo (some s) = omega arith
  when_authenticated-leaves name args c inputs with_auth (some s) = omega arith
  when_authenticated-leaves name args c inputs unknown (some s) = omega arith

  run_command-leaves :
      (name args : Text) (c : Conn) (inputs : List Input) (command : Command)
      → LeavesAtMost (length inputs) (run_command v name args c inputs command)
  unfolding run_command
  run_command-leaves name args c inputs quit = tt
  run_command-leaves name args c inputs noop = omega arith
  run_command-leaves name args c inputs say_ehlo = omega arith
  run_command-leaves name args c inputs say_helo = omega arith
  run_command-leaves name args c inputs with_auth =
      run_auth-leaves args c inputs c.state c.proxy_session
  run_command-leaves name args c inputs reset =
      when_authenticated-leaves name args c inputs reset c.proxy_session
  run_command-leaves name args c inputs mail_from =
      when_authenticated-leaves name args c inputs mail_from c.proxy_session
  run_command-leaves name args c inputs rcpt_to =
      when_authenticated-leaves name args c inputs rcpt_to c.proxy_session
  run_command-leaves name args c inputs with_data =
      when_authenticated-leaves name args c inputs with_data c.proxy_session
  run_command-leaves name args c inputs unknown =
      when_authenticated-leaves name args c inputs unknown c.proxy_session

  -- The loop goes on from a round with fewer lines to read.
  abbrev Shrinks : ℕ → Next → Type 0
  Shrinks n (finished c) = Unit
  Shrinks n (going_on c rest) = length rest < n
  Shrinks n assertion_error = Unit

  sooner : (k n : ℕ) (next : Next) → LeavesAtMost k next → k < n → Shrinks n next
  sooner k n (finished c) h l = tt
  sooner k n (going_on c rest) h l = omega arith
  sooner k n assertion_error h l = tt

  round-Shrinks :
      (c : Conn) (read : Option Text × List Input) (n : ℕ)
      → ((text : Text) → read.0 ≡ some text → length read.1 < n)
      → Shrinks n (round v c read)
  unfolding round
  round-Shrinks c (none, rest) n h = tt
  round-Shrinks c (some text, rest) n h =
      sooner (length rest) n
        (run_command v (parse_command text).0 (parse_command text).1 c rest
          (command_of (parse_command text).0))
        (run_command-leaves (parse_command text).0 (parse_command text).1 c rest
          (command_of (parse_command text).0))
        (h text refl)

  Next-cases :
      (n : Next)
      → ((c : Conn) × (n ≡ finished c))
        ⊎ ((c : Conn) × (rest : List Input) × (n ≡ going_on c rest))
        ⊎ (n ≡ assertion_error)
  Next-cases (finished c) = inl (c, refl)
  Next-cases (going_on c rest) = inr (inl (c, rest, refl))
  Next-cases assertion_error = inr (inr refl)

  -- With more fuel than lines the loop ends.
  serve-finished :
      (f : ℕ) (inputs : List Input) (c : Conn)
      → length inputs < f
      → IsSound v c
      → (c' : Conn) × (serve v f inputs c ≡ finished c') × IsSound v c'
  unfolding serve
  serve-finished zero inputs c l h = absurd (omega (arith, l))
  serve-finished (suc f) inputs c l h =
      let read = readline v.decode_utf8 inputs in
      let safe = round-IsSafe v c read h in
      let shrinks =
        round-Shrinks c read (length inputs) (λ text e. readline-reads v.decode_utf8 inputs e) in
      elim (Next-cases (round v c read)) [
        | inl (c', e) ↦ (c', rw (e, serve) refl, subst (IsSafe v) e safe)
        | inr (inl (c', rest, e)) ↦
            (let fewer = subst (Shrinks (length inputs)) e shrinks in
              let (c'', q, sound) =
                serve-finished f rest c' (omega (arith, l, fewer)) (subst (IsSafe v) e safe) in
              (c'', rw (e, serve) q, sound))
        | inr (inr e) ↦ absurd (subst (IsSafe v) e safe)
      ]

  -- Whatever a client sends, the loop comes to an end before its fuel does, with no assertion failed,
  -- in a connection in which the state fits the session and the envelope and in which each row of the
  -- outbound table is of a submission by the logged-in profile that has a recipient and is within the
  -- limit; it is what the delivery makes of it without a profile to relay with.
  pub handle-finished :
      (inputs : List Input) → (c : Conn) × (handle v inputs ≡ finished c) × IsSound v c
  unfolding handle
  handle-finished inputs = serve-finished (length inputs + 1) inputs greeted (omega arith) (tt, tt)
