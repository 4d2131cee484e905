-- ===== src/Mailboxes/Outcome.antt =====
-- app/mailboxes/service.py, `test_mailbox_connectivity`, with the login of the proxies.
use mind_wall.Prelude.{
  ℕ, ◌≡◌, ◌≤◌, ◌⊎◌, refl, ◌∙◌, ap, Bool, true, false, ◌&&◌, Option, none, some, List, [], ◌∷◌, find,
  find_passes, take, length, Bool-cases, Option-cases, inl, inr, if◌then◌else◌, ok, err, arith,
  zero, suc,
}
use mind_wall.Wire.{Text, text_eq}
use mind_wall.Models.Mailboxes.{active, connection_error, MailboxProfile}
use mind_wall.Imap.Auth.{
  CheckPassword, has_username, session_of, admit, authenticate_profile,
  authenticate_proxy_credentials,
}
use mind_wall.Mailboxes.Profiles.{Encryptor, decryption_failed, replace_profile}
use mind_wall.Mailboxes.Profiles.Login.{login_of}
use mind_wall.Mailboxes.Profiles.Rows.{find-replace_profile}
use mind_wall.Mailboxes.Connectivity.{
  ConnectivityResult, Probe, imap_upstream, smtp_upstream, error_text, tested_profile,
  probe_profile, test_mailbox_connectivity,
}

length-take : (n : ℕ) (t : Text) → length (take n t) ≤ n
length-take zero t = omega arith
length-take (suc n) [] = omega arith
length-take (suc n) (c ∷ t) = omega (arith, length-take n t)

-- Both probes have succeeded.
abbrev pub both : ConnectivityResult × ConnectivityResult → Bool
both (i, s) = i.success && s.success

-- The row after a test.
pub data IsTested (results : ConnectivityResult × ConnectivityResult) (p' : MailboxProfile)
    : Type 0 where
  reachable :
      both results ≡ true
      → p'.status ≡ active
      → p'.last_connection_error ≡ none
      → IsTested results p'
  unreachable :
      {message : Text}
      → both results ≡ false
      → p'.status ≡ connection_error
      → p'.last_connection_error ≡ some message
      → length message ≤ 500
      → IsTested results p'

tested_profile-IsTested :
    (i s : ConnectivityResult) (now : ℕ) (p : MailboxProfile)
    → IsTested (i, s) (tested_profile now i s p)
unfolding tested_profile error_text
tested_profile-IsTested i s now p = elim (Bool-cases (i.success && s.success)) [
  | inl t ↦ rw (t, tested_profile) (reachable t refl refl)
  | inr f ↦ rw (f, tested_profile) (unreachable f refl refl (length-take 500 _))
]

-- The columns that a test leaves as they are.
tested_profile-keeps :
    (i s : ConnectivityResult) (now : ℕ) (p : MailboxProfile)
    → let p' = tested_profile now i s p in
      (p'.id ≡ p.id)
      × (p'.proxy_username ≡ p.proxy_username)
      × (p'.proxy_password_hash ≡ p.proxy_password_hash)
unfolding tested_profile
tested_profile-keeps i s now p = elim (Bool-cases (i.success && s.success)) [
  | inl t ↦ rw (t, tested_profile) (refl, refl, refl)
  | inr f ↦ rw (f, tested_profile) (refl, refl, refl)
]

-- The login of a tested profile with the right password.
admit-tested :
    (i s : ConnectivityResult) (now : ℕ) (p : MailboxProfile) (name : Text)
    → admit name (tested_profile now i s p) (some true)
      ≡ (if both (i, s) then some (session_of name p) else none)
unfolding tested_profile admit
admit-tested i s now p name = elim (Bool-cases (i.success && s.success)) [
  | inl t ↦ rw (t, tested_profile) refl
  | inr f ↦ rw (f, tested_profile) refl
]

module _ (enc : Encryptor) (test_imap test_smtp : Probe) (now timeout : ℕ) (p : MailboxProfile)
    (profiles : List MailboxProfile) where
  -- What a test writes and lets in.
  pub record IsOutcome (check : CheckPassword) (name : Text) (profiles' : List MailboxProfile)
      (results : ConnectivityResult × ConnectivityResult) : Type 0 where
    pub row : MailboxProfile
    pub found : find (has_username name) profiles' ≡ some row
    pub tested : IsTested results row
    pub login :
        {hash word : Text}
        → p.proxy_password_hash ≡ some hash
        → check word hash ≡ some true
        → authenticate_proxy_credentials check profiles' name word
          ≡ (if both results then some (session_of name p) else none)

  -- The probes' results where both passwords decrypt.
  abbrev pub probed : Text → Text → ConnectivityResult × ConnectivityResult
  probed word word' =
      (test_imap (imap_upstream p word timeout), test_smtp (smtp_upstream p word' timeout))

  module _ (check : CheckPassword) (name : Text) where
    outcome :
        (i s : ConnectivityResult)
        → find (has_username name) profiles ≡ some p
        → IsOutcome check name (replace_profile (tested_profile now i s p) profiles) (i, s)
    unfolding authenticate_proxy_credentials authenticate_profile
    outcome i s found =
        let p' = tested_profile now i s p in
        let (same, named, kept) = tested_profile-keeps i s now p in
        let passes =
          ap (λ (o : Option Text). elim o as (λ _. Bool) [ none ↦ false | some u ↦ text_eq u name ])
            named
          ∙ find_passes (has_username name) profiles found in
        let found' = find-replace_profile (has_username name) p' p profiles same passes found in
        record {
          row = p';
          found = found';
          tested = tested_profile-IsTested i s now p;
          login = λ {hash} {word} set right.
              login_of check (replace_profile p' profiles) name word hash p' found' (kept ∙ set)
              ∙ ap (admit name p') right
              ∙ admit-tested i s now p name;
        }

    -- A test of the profile of a name raises and writes nothing exactly where one of its passwords does
    -- not decrypt. Otherwise both upstreams are probed with the decrypted passwords; the row becomes
    -- active without an error if both are reached, and in error with a message of at most 500
    -- characters if not; and from then on the right password opens the mailbox to a client exactly if
    -- both were reached.
    pub test_mailbox_connectivity_exact :
        find (has_username name) profiles ≡ some p
        → let (result, profiles') =
            test_mailbox_connectivity enc test_imap test_smtp now timeout p profiles in
          ((word : Text) × (word' : Text) × (enc.decrypt p.imap_password_enc ≡ some word)
            × (enc.decrypt p.smtp_password_enc ≡ some word')
            × (result ≡ ok (probed word word'))
            × IsOutcome check name profiles' (probed word word'))
          ⊎ (((enc.decrypt p.imap_password_enc ≡ none) ⊎ (enc.decrypt p.smtp_password_enc ≡ none))
              × (result ≡ err decryption_failed)
              × (profiles' ≡ profiles))
    unfolding test_mailbox_connectivity probe_profile
    test_mailbox_connectivity_exact found = elim (Option-cases (enc.decrypt p.imap_password_enc)) [
      | inl failed ↦ inr (
        inl failed,
        rw (failed, test_mailbox_connectivity) refl,
        rw (failed, test_mailbox_connectivity) refl,
      )
      | inr (word, read) ↦ elim (Option-cases (enc.decrypt p.smtp_password_enc)) [
        | inl failed ↦ inr (
          inr failed,
          rw (read, failed, test_mailbox_connectivity) refl,
          rw (read, failed, test_mailbox_connectivity) refl,
        )
        | inr (word', read') ↦ inl (
          word,
          word',
          read,
          read',
          rw (read, read', test_mailbox_connectivity) refl,
          rw (read, read', test_mailbox_connectivity)
              (outcome (test_imap (imap_upstream p word timeout))
                (test_smtp (smtp_upstream p word' timeout)) found),
        )
      ]
    ]
