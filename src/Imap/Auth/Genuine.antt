-- ===== src/Imap/Auth/Genuine.antt =====
-- app/proxies/imap/session.py: who gets a session.
use mind_wall.Prelude.{
  ◌≡◌, refl, ◌≢◌, ◌↔◌, ap, sym, subst, Bool, true, false, Option, none, some, List, [], ◌∷◌, ◌++◌,
  find, All, Option-cases, Bool-cases, inl, inr,
}
use mind_wall.Wire.{Text, text_eq}
use mind_wall.Wire.Equality.{text_eq→eq, text_eq_refl}
use mind_wall.Models.Mailboxes.{
  MailboxStatus, active, inactive, pending, connection_error, MailboxProfile,
}
use mind_wall.Imap.Auth.{
  ProxySession, CheckPassword, has_username, may_log_in, session_of, admit, authenticate_profile,
  authenticate_proxy_credentials,
}

-- A status that lets a client in: the profile works, or has not been tested yet.
pub data IsUsable : MailboxStatus → Type 0 where
  working : IsUsable active
  untested : IsUsable pending

-- The session of a profile.
pub record IsSessionOf (name : Text) (profile : MailboxProfile) (s : ProxySession) : Type 0 where
  pub profile_id : s.mailbox_profile_id ≡ profile.id
  pub owner : s.owner_user_id ≡ profile.owner_id
  pub username : s.proxy_username ≡ name
  pub email : s.email_address ≡ profile.email_address

-- The first profile of the username has a hash that the password matches, and a usable status, and the
-- session is its own.
pub record IsGenuine (check : CheckPassword) (profiles : List MailboxProfile) (name word : Text)
    (s : ProxySession) : Type 0 where
  pub profile : MailboxProfile
  pub hash : Text
  pub before : List MailboxProfile
  pub after : List MailboxProfile
  pub row : profiles ≡ before ++ profile ∷ after
  pub first : All (λ (q : MailboxProfile). q.proxy_username ≢ some name) before
  pub named : profile.proxy_username ≡ some name
  pub hashed : profile.proxy_password_hash ≡ some hash
  pub matches : check word hash ≡ some true
  pub usable : IsUsable profile.status
  pub session : IsSessionOf name profile s

abbrev is_name : Text → Option Text → Bool
is_name name o = elim o [ none ↦ false | some v ↦ text_eq v name ]

has_username→eq :
    (name : Text) (p : MailboxProfile) → has_username name p ≡ true → p.proxy_username ≡ some name
has_username→eq name p e = elim (Option-cases p.proxy_username) [
  | inl missing ↦ (let e' = rw (missing, has_username) at e in cc)
  | inr (u, there) ↦
      (let e' : text_eq u name ≡ true = subst (λ o. is_name name o ≡ true) there e in
        rw (there, text_eq→eq u name e') refl)
]

eq→has_username :
    (name : Text) (p : MailboxProfile) → p.proxy_username ≡ some name → has_username name p ≡ true
eq→has_username name p e = subst (λ o. is_name name o ≡ true) (sym e) (text_eq_refl name)

-- What the query finds is the first profile of the name.
abbrev IsFirst : Text → List MailboxProfile → MailboxProfile → Type 0
IsFirst name profiles p =
    (before : List MailboxProfile) × (after : List MailboxProfile) × (profiles
      ≡ before ++ p ∷ after)
    × All (λ (q : MailboxProfile). q.proxy_username ≢ some name) before
    × (p.proxy_username ≡ some name)

find-IsFirst :
    (name : Text) (profiles : List MailboxProfile) {p : MailboxProfile}
    → find (has_username name) profiles ≡ some p
    → IsFirst name profiles p
find-IsFirst name [] e = cc
find-IsFirst name (x ∷ xs) {p} e = elim (Bool-cases (has_username name x)) [
  | inl t ↦
      (let e' = rw t at e in
        let same : x ≡ p = cc in
        (
          [],
          xs,
          ap (λ q. q ∷ xs) same,
          tt,
          subst (λ (q : MailboxProfile). q.proxy_username ≡ some name) same
              (has_username→eq name x t),
        ))
  | inr f ↦
      (let (before, after, split, first, named) = find-IsFirst name xs (rw f at e) in
        (
          x ∷ before,
          after,
          ap (λ qs. x ∷ qs) split,
          ((λ n. cc (f, eq→has_username name x n)), first),
          named,
        ))
]

IsFirst-find :
    (name : Text) (before after : List MailboxProfile) (p : MailboxProfile)
    → All (λ (q : MailboxProfile). q.proxy_username ≢ some name) before
    → p.proxy_username ≡ some name
    → find (has_username name) (before ++ p ∷ after) ≡ some p
IsFirst-find name [] after p first named = rw (eq→has_username name p named) refl
IsFirst-find name (x ∷ before) after p first named = elim (Bool-cases (has_username name x)) [
  | inl t ↦ absurd (first.0 (has_username→eq name x t))
  | inr f ↦ rw f (IsFirst-find name before after p first.1 named)
]

may_log_in→IsUsable : (st : MailboxStatus) → may_log_in st ≡ true → IsUsable st
may_log_in→IsUsable active e = working
may_log_in→IsUsable pending e = untested
may_log_in→IsUsable inactive e = cc
may_log_in→IsUsable connection_error e = cc

IsUsable→may_log_in : {st : MailboxStatus} → IsUsable st → may_log_in st ≡ true
IsUsable→may_log_in working = refl
IsUsable→may_log_in untested = refl

session_of-eq :
    (name : Text) (profile : MailboxProfile) (s : ProxySession)
    → IsSessionOf name profile s
    → session_of name profile ≡ s
session_of-eq name profile s h = rw⁻¹ (h.profile_id, h.owner, h.username, h.email) refl

admit-some :
    (name : Text) (profile : MailboxProfile) (o : Option Bool) {s : ProxySession}
    → admit name profile o ≡ some s
    → (o ≡ some true) × IsUsable profile.status × IsSessionOf name profile s
unfolding admit
admit-some name profile none e = cc
admit-some name profile (some false) e = cc
admit-some name profile (some true) {s} e = elim (Bool-cases (may_log_in profile.status)) [
  | inl t ↦
      (let e' = rw t at e in
        let same : session_of name profile ≡ s = cc in
        (
          refl,
          may_log_in→IsUsable profile.status t,
          subst (IsSessionOf name profile) same
              (record { profile_id = refl; owner = refl; username = refl; email = refl }),
        ))
  | inr f ↦ (let e' = rw f at e in cc)
]

-- The credentials give a session exactly when they are genuine: the first profile of the username has
-- a hash that the password matches, and is active or pending, and the session has the id, the owner
-- and the address of that profile, and the username.
pub authenticate_proxy_credentials_lem :
    (check : CheckPassword) (profiles : List MailboxProfile) (name word : Text) (s : ProxySession)
    → (authenticate_proxy_credentials check profiles name word ≡ some s)
      ↔ IsGenuine check profiles name word s
unfolding authenticate_proxy_credentials authenticate_profile admit
authenticate_proxy_credentials_lem check profiles name word s = (forth, back)
  where
    forth :
        authenticate_proxy_credentials check profiles name word ≡ some s
        → IsGenuine check profiles name word s
    forth e = elim (Option-cases (find (has_username name) profiles)) [
      | inl missing ↦ (let e' = rw (missing, authenticate_proxy_credentials) at e in cc)
      | inr (profile, found) ↦
          (let e' = rw (found, authenticate_proxy_credentials) at e in
            elim (Option-cases profile.proxy_password_hash) [
              | inl missing ↦ (let e'' = rw (missing, authenticate_profile) at e' in cc)
              | inr (hash, set) ↦
                  (let e'' = rw (set, authenticate_profile) at e' in
                    let (right, usable, own) = admit-some name profile (check word hash) e'' in
                    let (before, after, row, first, named) = find-IsFirst name profiles found in
                    record {
                      profile = profile;
                      hash = hash;
                      before = before;
                      after = after;
                      row = row;
                      first = first;
                      named = named;
                      hashed = set;
                      matches = right;
                      usable = usable;
                      session = own;
                    })
            ])
    ]

    back :
        IsGenuine check profiles name word s
        → authenticate_proxy_credentials check profiles name word ≡ some s
    back g =
        let found : find (has_username name) profiles ≡ some g.profile =
          subst (λ rows. find (has_username name) rows ≡ some g.profile) (sym g.row)
            (IsFirst-find name g.before g.after g.profile g.first g.named) in
        rw (found, authenticate_proxy_credentials)
          (rw (g.hashed, authenticate_profile)
            (rw (g.matches, admit)
              (rw (IsUsable→may_log_in g.usable, session_of-eq name g.profile s g.session) refl)))
