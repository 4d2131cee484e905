-- ===== src/Mailboxes/Profiles/Login.antt =====
-- app/mailboxes/service.py with app/proxies/imap/session.py: the credentials that the service hands
-- out, and the login of the proxies.
use mind_wall.Prelude.{
  ℕ, ◌≡◌, ◌∙◌, sym, find_passes, refl, true, false, none, some, List, [], ◌∷◌, ◌++◌, map, any, ap,
  find, Bool-cases, inl, inr, if◌then◌else◌, ok,
}
use mind_wall.Wire.{Text, is_empty}
use mind_wall.Wire.Equality.{text_eq_refl}
use mind_wall.Models.Mailboxes.{MailboxProfile}
use mind_wall.Models.Session.{NewId}
use mind_wall.Imap.Auth.{
  CheckPassword, has_username, may_log_in, session_of, admit, authenticate_profile,
  authenticate_proxy_credentials,
}
use mind_wall.Mailboxes.Profiles.{
  MailboxFormData, Encryptor, Secrets, generate_proxy_username, new_profile, create_mailbox,
  replace_profile, with_password, reset_proxy_password,
}
use mind_wall.Mailboxes.Profiles.Rows.{find-replace_profile, find-append_profile}

module _ (check : CheckPassword) where
  -- The login of a name whose profile is found.
  pub login_of :
      (profiles : List MailboxProfile) (name word hash : Text) (p : MailboxProfile)
      → find (has_username name) profiles ≡ some p
      → p.proxy_password_hash ≡ some hash
      → authenticate_proxy_credentials check profiles name word ≡ admit name p (check word hash)
  unfolding authenticate_proxy_credentials authenticate_profile
  login_of profiles name word hash p found set =
      rw (found, authenticate_proxy_credentials, set, authenticate_profile) refl

  module _ (lower : Text → Text) (enc : Encryptor) (secrets : Secrets) (new_id : NewId)
      (now owner : ℕ) (form : MailboxFormData) (profiles : List MailboxProfile) where
    abbrev name_of : Text
    name_of = generate_proxy_username lower secrets form.email_address

    abbrev created : MailboxProfile
    created =
        new_profile lower enc secrets (new_id (map (λ (p : MailboxProfile). p.id) profiles)) now
          owner form

    -- A call that returns has added the row, under a name that no other row has.
    created_row :
        {p : MailboxProfile} {word : Text}
        → let (result, profiles') =
            create_mailbox lower enc secrets new_id now owner form profiles in
          result ≡ ok (p, word)
          → (created ≡ p)
            × (secrets.token_urlsafe ≡ word)
            × (profiles' ≡ profiles ++ created ∷ [])
            × (any (has_username name_of) profiles ≡ false)
    unfolding create_mailbox
    created_row {p} {word} e = elim (Bool-cases (is_empty form.imap_password)) [
      | inl t ↦ (let e' = rw (t, create_mailbox) at e in cc)
      | inr f ↦ elim (Bool-cases (is_empty form.smtp_password)) [
        | inl t ↦ (let e' = rw (f, t, create_mailbox) at e in cc)
        | inr g ↦ elim (Bool-cases (any (has_username name_of) profiles)) [
          | inl t ↦ (let e' = rw (f, g, t, create_mailbox) at e in cc)
          | inr t ↦
              (let e' = rw (f, g, t, create_mailbox) at e in
                (cc, cc, rw (f, g, t, create_mailbox) refl, t))
        ]
      ]
    ]

    -- The row's own password opens it.
    created_opens :
        check secrets.token_urlsafe (secrets.hash_password secrets.token_urlsafe) ≡ some true
        → any (has_username name_of) profiles ≡ false
        → authenticate_proxy_credentials check
            (profiles ++ created ∷ [])
            name_of
            secrets.token_urlsafe
          ≡ some (session_of name_of created)
    unfolding new_profile admit
    created_opens accepts unused =
        login_of (profiles ++ created ∷ []) name_of secrets.token_urlsafe
          (secrets.hash_password secrets.token_urlsafe) created
          (find-append_profile (has_username name_of) created profiles unused
            (text_eq_refl name_of))
          refl
        ∙ ap (admit name_of created) accepts

    -- Who is handed out credentials can log in with them: where a mailbox has been created, the
    -- username of its row and the password that was returned give the session of that mailbox. The
    -- check of passwords accepts a password against its own hash.
    pub created_logs_in :
        check secrets.token_urlsafe (secrets.hash_password secrets.token_urlsafe) ≡ some true
        → {p : MailboxProfile} {word : Text}
        → let (result, profiles') =
            create_mailbox lower enc secrets new_id now owner form profiles in
          result ≡ ok (p, word)
          → let name = generate_proxy_username lower secrets form.email_address in
            (p.owner_id ≡ owner)
            × (p.proxy_username ≡ some name)
            × (authenticate_proxy_credentials check profiles' name word ≡ some (session_of name p))
    unfolding new_profile
    created_logs_in accepts {p} {word} e =
        let (same, password, table, unused) = created_row e in
        (
          ap (λ (x : MailboxProfile). x.owner_id) (sym same),
          ap (λ (x : MailboxProfile). x.proxy_username) (sym same),
          ap (λ rows. authenticate_proxy_credentials check rows name_of word) table
              ∙ ap (authenticate_proxy_credentials check (profiles ++ created ∷ []) name_of)
                  (sym password)
              ∙ created_opens accepts unused
              ∙ ap (λ x. some (session_of name_of x)) same,
        )

  module _ (secrets : Secrets) (name : Text) (p : MailboxProfile)
      (profiles : List MailboxProfile) where
    -- After a reset of the password of a profile that is found by its name, a login with the name is
    -- decided by the new hash alone: the returned password opens the mailbox if its status lets anyone
    -- in, and a password that does not match the new hash, as the old one, does not. The check of
    -- passwords accepts a password against its own hash.
    pub reset_proxy_password_lem :
        check secrets.token_urlsafe (secrets.hash_password secrets.token_urlsafe) ≡ some true
        → find (has_username name) profiles ≡ some p
        → let (word, profiles') = reset_proxy_password secrets p profiles in
          (authenticate_proxy_credentials check profiles' name word ≡ (
            if may_log_in p.status then some (session_of name (with_password secrets p)) else none))
          × ((old : Text)
              → check old (secrets.hash_password secrets.token_urlsafe) ≡ some false
              → authenticate_proxy_credentials check profiles' name old ≡ none)
    unfolding reset_proxy_password admit
    reset_proxy_password_lem accepts found =
        let p' = with_password secrets p in
        let hash = secrets.hash_password secrets.token_urlsafe in
        let found' =
          find-replace_profile (has_username name) p' p profiles refl
            (find_passes (has_username name) profiles found) found in
        let login =
          λ (word : Text). login_of (replace_profile p' profiles) name word hash p' found' refl in
        (
          login secrets.token_urlsafe ∙ ap (admit name p') accepts,
          λ old refused. login old ∙ ap (admit name p') refused,
        )
