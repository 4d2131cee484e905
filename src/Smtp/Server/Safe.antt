-- ===== src/Smtp/Server/Safe.antt =====
-- app/proxies/smtp/server.py: the commands of a sound connection.
use mind_wall.Prelude.{
  ◌≤◌, ◌≡◌, refl, sym, subst, Option, none, some, List, [], ◌∷◌, ◌++◌, length, All, All-map,
  Option-cases, Bool-cases, inl, inr, ◌⊎◌, arith,
}
use mind_wall.Wire.{Text, codes, text_eq, is_empty, upper}
use mind_wall.Imap.Auth.{ProxySession}
use mind_wall.Smtp.Lines.{Input, readline, collect_data, parse_command, extract_address}
use mind_wall.Smtp.Commands.{
  SmtpState, greeting, ehlo, auth, mail, rcpt, data_, Conn, Server, send, Outcome, and_rest,
  collected, cmd_data, cmd_auth, authenticated, decoded_line, partition, handle_auth_plain,
  handle_auth_login,
}
use mind_wall.Smtp.Server.{
  Command, quit, noop, say_ehlo, say_helo, with_auth, reset, mail_from, rcpt_to, with_data, unknown,
  Next, finished, going_on, assertion_error, next_of, greet, cmd_mail, cmd_rcpt, early_data,
  is_greeting, run_authenticated, when_authenticated, run_auth, run_command, command_of, round,
}
use mind_wall.Smtp.Server.Sound.{
  IsOwnRow, IsReady, IsSound, IsFine, idle_state-IsReady, reset_envelope-IsSound,
  collect_data-bounded, submit-rows,
}

-- A round leaves a sound connection, and fails no assertion.
abbrev pub IsSafe : Server → Next → Type 0
IsSafe v (finished c) = IsSound v c
IsSafe v (going_on c rest) = IsSound v c
IsSafe v assertion_error = ⊥

module _ (v : Server) where
  -- DATA, of a connection whose envelope is complete.
  collected-IsFine :
      (c : Conn) (s : ProxySession) (sender : Option Text) (to : List Text) (raw : Option Text)
      → (rest : List Input) → c.proxy_session ≡ some s
      → c.envelope_to ≡ to
      → ((text : Text) → raw ≡ some text → length text ≤ v.max_message_bytes)
      → IsReady rcpt (some s) sender to
      → All (IsOwnRow v c.proxy_session) c.outbound
      → IsFine v (and_rest (collected v c s sender raw) rest)
  unfolding collected
  collected-IsFine c s sender to none rest e t b r h = reset_envelope-IsSound v (send c []) h
  collected-IsFine c s (some a) (x ∷ xs) (some raw) rest e t b r h =
      (idle_state-IsReady c.proxy_session none [], submit-rows v c s a raw x xs e t (b raw refl) h)
  collected-IsFine c s (some a) [] (some raw) rest e t b r h = absurd r
  collected-IsFine c s none to (some raw) rest e t b r h = absurd r

  early_data-IsFine :
      (c : Conn) (inputs : List Input) (s : ProxySession) (st : SmtpState)
      → c.proxy_session ≡ some s
      → c.state ≡ st
      → IsSound v c
      → IsFine v (early_data c (cmd_data v c s inputs) inputs st)
  unfolding cmd_data
  early_data-IsFine c inputs s greeting e f h = h
  early_data-IsFine c inputs s ehlo e f h = h
  early_data-IsFine c inputs s auth e f h = h
  early_data-IsFine c inputs s mail e f h = h
  early_data-IsFine c inputs s data_ e f h = h
  early_data-IsFine c inputs s rcpt e f h =
      collected-IsFine (send c (codes "354 Start mail input; end with <CRLF>.<CRLF>")) s
        c.envelope_from c.envelope_to (collect_data v.max_message_bytes 0 inputs).0
        (collect_data v.max_message_bytes 0 inputs).1 e refl
        (λ text q. omega (arith, collect_data-bounded v 0 inputs (omega arith) q))
        (subst (λ q. IsReady rcpt q c.envelope_from c.envelope_to) e
          (subst (λ q. IsReady q c.proxy_session c.envelope_from c.envelope_to) f h.0))
        h.1

  -- Nobody is logged in yet, and the connection is sound.
  abbrev IsOutside : Conn → Type 0
  IsOutside c = (c.proxy_session ≡ none) × IsSound v c

  handle_auth_plain-IsOutside :
      (c : Conn) (initial : Text) (inputs : List Input)
      → IsOutside c
      → IsOutside (handle_auth_plain v c initial inputs).0
  unfolding handle_auth_plain
  handle_auth_plain-IsOutside c initial inputs h = elim (Bool-cases (is_empty initial)) [
    | inl t ↦ rw (t, handle_auth_plain) h
    | inr f ↦ rw (f, handle_auth_plain) h
  ]

  handle_auth_login-IsOutside :
      (c : Conn) (inputs : List Input) → IsOutside c → IsOutside (handle_auth_login v c inputs).0
  unfolding handle_auth_login
  handle_auth_login-IsOutside c inputs h =
      elim (Option-cases (decoded_line v (readline v.decode_utf8 inputs).0)) [
        | inl missing ↦ rw (missing, handle_auth_login) h
        | inr (name, found) ↦ rw (found, handle_auth_login) h
      ]

  authenticated-IsSound :
      (c : Conn) (found : Option ProxySession) (rest : List Input)
      → IsOutside c
      → IsSound v (authenticated v (c, found, rest)).0
  unfolding authenticated
  authenticated-IsSound c none rest h = h.1
  authenticated-IsSound c (some s) rest h = (
    tt,
    All-map (IsOwnRow v none) (IsOwnRow v (some s)) c.outbound (λ row no. absurd no)
        (subst (λ q. All (IsOwnRow v q) c.outbound) h.0 h.1.1),
  )

  cmd_auth-IsSound :
      (c : Conn) (args : Text) (inputs : List Input)
      → IsOutside c
      → IsSound v (cmd_auth v c args inputs).0
  unfolding cmd_auth
  cmd_auth-IsSound c args inputs h =
      let (word, initial) = partition v args in
      elim (Bool-cases (text_eq (upper word) (codes "PLAIN"))) [
        | inl t ↦
            rw (t, cmd_auth)
              (authenticated-IsSound (handle_auth_plain v c initial inputs).0 _ _
                (handle_auth_plain-IsOutside c initial inputs h))
        | inr f ↦ elim (Bool-cases (text_eq (upper word) (codes "LOGIN"))) [
          | inl t ↦
              rw (f, t, cmd_auth)
                (authenticated-IsSound (handle_auth_login v c inputs).0 _ _
                  (handle_auth_login-IsOutside c inputs h))
          | inr f' ↦ rw (f, f', cmd_auth) h.1
        ]
      ]

  run_auth-IsSafe :
      (args : Text) (c : Conn) (inputs : List Input) (st : SmtpState)
      (session : Option ProxySession)
      → c.proxy_session ≡ session
      → IsSound v c
      → IsSafe v (run_auth v args c inputs st session)
  unfolding run_auth
  run_auth-IsSafe args c inputs st (some s) e h = elim (Bool-cases (is_greeting st)) [
    | inl t ↦ rw (t, run_auth) h
    | inr f ↦ rw (f, run_auth) h
  ]
  run_auth-IsSafe args c inputs st none e h = elim (Bool-cases (is_greeting st)) [
    | inl t ↦ rw (t, run_auth) h
    | inr f ↦ rw (f, run_auth) (cmd_auth-IsSound c args inputs (e, h))
  ]

  cmd_mail-IsSound :
      (args : Text) (c : Conn) (s : ProxySession) (st : SmtpState)
      → c.proxy_session ≡ some s
      → IsSound v c
      → IsSound v (cmd_mail v args c st)
  unfolding cmd_mail
  cmd_mail-IsSound args c s greeting e h = h
  cmd_mail-IsSound args c s mail e h = h
  cmd_mail-IsSound args c s rcpt e h = h
  cmd_mail-IsSound args c s data_ e h = h
  cmd_mail-IsSound args c s ehlo e h =
      (subst (λ q. IsReady mail q (some (extract_address args)) []) (sym e) tt, h.1)
  cmd_mail-IsSound args c s auth e h =
      (subst (λ q. IsReady mail q (some (extract_address args)) []) (sym e) tt, h.1)

  -- A recipient more completes the envelope.
  add_recipient-IsReady :
      (session : Option ProxySession) (sender : Option Text) (to : List Text) (t : Text)
      → IsReady mail session sender to ⊎ IsReady rcpt session sender to
      → IsReady rcpt session sender (to ++ t ∷ [])
  add_recipient-IsReady (some s) (some a) [] t h = tt
  add_recipient-IsReady (some s) (some a) (x ∷ xs) t h = tt
  add_recipient-IsReady (some s) none to t (inl h) = absurd h
  add_recipient-IsReady (some s) none to t (inr h) = absurd h
  add_recipient-IsReady none sender to t (inl h) = absurd h
  add_recipient-IsReady none sender to t (inr h) = absurd h

  cmd_rcpt-IsSound :
      (args : Text) (c : Conn) (st : SmtpState)
      → c.state ≡ st
      → IsSound v c
      → IsSound v (cmd_rcpt v args c st)
  unfolding cmd_rcpt
  cmd_rcpt-IsSound args c greeting e h = h
  cmd_rcpt-IsSound args c ehlo e h = h
  cmd_rcpt-IsSound args c auth e h = h
  cmd_rcpt-IsSound args c data_ e h = h
  cmd_rcpt-IsSound args c mail e h = (
    add_recipient-IsReady c.proxy_session c.envelope_from c.envelope_to (extract_address args)
        (inl (subst (λ q. IsReady q c.proxy_session c.envelope_from c.envelope_to) e h.0)),
    h.1,
  )
  cmd_rcpt-IsSound args c rcpt e h = (
    add_recipient-IsReady c.proxy_session c.envelope_from c.envelope_to (extract_address args)
        (inr (subst (λ q. IsReady q c.proxy_session c.envelope_from c.envelope_to) e h.0)),
    h.1,
  )

  next_of-IsSafe : (o : Outcome) → IsFine v o → IsSafe v (next_of o)
  next_of-IsSafe none h = h
  next_of-IsSafe (some (c, rest)) h = h

  when_authenticated-IsSafe :
      (name args : Text) (c : Conn) (inputs : List Input) (command : Command)
      (session : Option ProxySession)
      → c.proxy_session ≡ session
      → IsSound v c
      → IsSafe v (when_authenticated v name args c inputs command session)
  unfolding when_authenticated run_authenticated
  when_authenticated-IsSafe name args c inputs command none e h = h
  when_authenticated-IsSafe name args c inputs reset (some s) e h = reset_envelope-IsSound v c h.1
  when_authenticated-IsSafe name args c inputs mail_from (some s) e h =
      cmd_mail-IsSound args c s c.state e h
  when_authenticated-IsSafe name args c inputs rcpt_to (some s) e h =
      cmd_rcpt-IsSound args c c.state refl h
  when_authenticated-IsSafe name args c inputs with_data (some s) e h =
      next_of-IsSafe _ (early_data-IsFine c inputs s c.state e refl h)
  when_authenticated-IsSafe name args c inputs quit (some s) e h = h
  when_authenticated-IsSafe name args c inputs noop (some s) e h = h
  when_authenticated-IsSafe name args c inputs say_ehlo (some s) e h = h
  when_authenticated-IsSafe name args c inputs say_helo (some s) e h = h
  when_authenticated-IsSafe name args c inputs with_auth (some s) e h = h
  when_authenticated-IsSafe name args c inputs unknown (some s) e h = h

  run_command-IsSafe :
      (name args : Text) (c : Conn) (inputs : List Input) (command : Command)
      → IsSound v c
      → IsSafe v (run_command v name args c inputs command)
  unfolding run_command greet
  run_command-IsSafe name args c inputs quit h = h
  run_command-IsSafe name args c inputs noop h = h
  run_command-IsSafe name args c inputs say_ehlo h =
      (idle_state-IsReady c.proxy_session c.envelope_from c.envelope_to, h.1)
  run_command-IsSafe name args c inputs say_helo h =
      (idle_state-IsReady c.proxy_session c.envelope_from c.envelope_to, h.1)
  run_command-IsSafe name args c inputs with_auth h =
      run_auth-IsSafe args c inputs c.state c.proxy_session refl h
  run_command-IsSafe name args c inputs reset h =
      when_authenticated-IsSafe name args c inputs reset c.proxy_session refl h
  run_command-IsSafe name args c inputs mail_from h =
      when_authenticated-IsSafe name args c inputs mail_from c.proxy_session refl h
  run_command-IsSafe name args c inputs rcpt_to h =
      when_authenticated-IsSafe name args c inputs rcpt_to c.proxy_session refl h
  run_command-IsSafe name args c inputs with_data h =
      when_authenticated-IsSafe name args c inputs with_data c.proxy_session refl h
  run_command-IsSafe name args c inputs unknown h =
      when_authenticated-IsSafe name args c inputs unknown c.proxy_session refl h

  -- One round, whatever is to be read: the connection stays sound.
  pub round-IsSafe :
      (c : Conn) (read : Option Text × List Input) → IsSound v c → IsSafe v (round v c read)
  unfolding round
  round-IsSafe c (none, inputs) h = h
  round-IsSafe c (some line, inputs) h =
      run_command-IsSafe (parse_command line).0 (parse_command line).1 c inputs
        (command_of (parse_command line).0) h
