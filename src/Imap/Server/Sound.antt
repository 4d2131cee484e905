-- ===== src/Imap/Server/Sound.antt =====
-- app/proxies/imap/server.py: what a sound connection is, and the guards and replies of one.
use mind_wall.Prelude.{
  ℕ, ◌≡◌, refl, true, Option, none, some, List, [], ◌∷◌, All, All-append, ok, err, subst, sym,
}
use mind_wall.Wire.{Text}
use mind_wall.Models.Mailboxes.{MailTables}
use mind_wall.Imap.Auth.{ProxySession, CheckPassword, authenticate_proxy_credentials}
use mind_wall.Imap.Folders.{ImapMailbox, Platform, select_mailbox}
use mind_wall.Imap.Server.State.{
  ConnState, not_auth, auth, selected_state, logout, Reply, plain, tagged, render, exists_line,
  uid_validity_line, uid_next_line, status_line, search_line, fetch_line, Conn, assertion_error,
  value_error, Outcome, send, answer, when_auth, when_selected, asserted, raising,
}
use mind_wall.Imap.Server.Tells.{is_fixed, is_answer, Tells}

module _ (p : Platform) (check : CheckPassword) (Seen : MailTables → Type 0) where
  -- A mailbox that `select_mailbox` has given for the profile, of tables that the connection has seen.
  abbrev pub IsOwnMailbox : ℕ → ImapMailbox → Type 0
  IsOwnMailbox mailbox_profile_id mailbox =
      (db : MailTables) × Seen db
      × (name : Text) × (select_mailbox p db mailbox_profile_id name ≡ some mailbox)

  -- A text that tells of a mailbox of the profile of the session; where there is no session, there is
  -- none.
  abbrev pub Told : Option ProxySession → Text → Type 0
  Told none t = ⊥
  Told (some s) t = (m : ImapMailbox) × IsOwnMailbox s.mailbox_profile_id m × Tells p m t

  -- A line is one of the fixed ones, an answer to a command, or tells of such a mailbox.
  abbrev pub IsConfined : Option ProxySession → Reply → Type 0
  IsConfined s (plain t) = is_fixed t ≡ true
  IsConfined s (tagged tag t) = is_answer t ≡ true
  IsConfined s (exists_line m) = Told s (render p (exists_line m))
  IsConfined s (uid_validity_line m) = Told s (render p (uid_validity_line m))
  IsConfined s (uid_next_line m) = Told s (render p (uid_next_line m))
  IsConfined s (status_line name parts m) = Told s (render p (status_line name parts m))
  IsConfined s (search_line m numbers) = Told s (render p (search_line m numbers))
  IsConfined s (fetch_line mailbox m items) = Told s (render p (fetch_line mailbox m items))

  -- What each state says of the session and of the mailbox.
  abbrev pub IsReady : ConnState → Option ProxySession → Option ImapMailbox → Type 0
  IsReady not_auth none none = Unit
  IsReady not_auth (some s) m = ⊥
  IsReady not_auth none (some m) = ⊥
  IsReady auth (some s) none = Unit
  IsReady auth none m = ⊥
  IsReady auth (some s) (some m) = ⊥
  IsReady selected_state (some s) (some m) = IsOwnMailbox s.mailbox_profile_id m
  IsReady selected_state none m = ⊥
  IsReady selected_state (some s) none = ⊥
  IsReady logout s m = Unit

  -- A session comes from credentials that the tables have accepted.
  abbrev pub IsAdmitted : Option ProxySession → Type 0
  IsAdmitted none = Unit
  IsAdmitted (some s) =
      (db : MailTables) × Seen db
      × (name : Text) × (word : Text) × (authenticate_proxy_credentials check db.mailbox_profiles
            name word
          ≡ some s)

  -- What a connection keeps true.
  abbrev pub IsSound : Conn → Type 0
  IsSound c =
      IsReady c.state c.proxy_session c.selected
      × All (IsConfined c.proxy_session) c.sent
      × IsAdmitted c.proxy_session

  -- A handler keeps it, and fails no assertion.
  abbrev pub IsFine : Outcome → Type 0
  IsFine (ok c) = IsSound c
  IsFine (err value_error) = Unit
  IsFine (err assertion_error) = ⊥

  pub send-IsSound :
      (c : Conn) (lines : List Reply)
      → All (IsConfined c.proxy_session) lines
      → IsSound c
      → IsSound (send c lines)
  send-IsSound c lines l h = (h.0, All-append (IsConfined c.proxy_session) c.sent lines h.1 l, h.2)

  pub answer-IsFine :
      (c : Conn) (tag t : Text) → is_answer t ≡ true → IsSound c → IsFine (answer c tag t)
  answer-IsFine c tag t a h = send-IsSound c (tagged tag t ∷ []) (a, tt) h

  -- Whoever passes the guard has a session.
  pub when_auth-IsFine :
      (c : Conn) (st : ConnState) (session : Option ProxySession) (mailbox : Option ImapMailbox)
      → (tag : Text) (handled : Outcome) → IsReady st session mailbox
      → IsSound c
      → ((s : ProxySession) → session ≡ some s → IsFine handled)
      → IsFine (when_auth st tag c handled)
  unfolding when_auth
  when_auth-IsFine c not_auth session mailbox tag handled r h k = answer-IsFine c tag _ refl h
  when_auth-IsFine c logout session mailbox tag handled r h k = answer-IsFine c tag _ refl h
  when_auth-IsFine c auth (some s) mailbox tag handled r h k = k s refl
  when_auth-IsFine c auth none mailbox tag handled r h k = absurd r
  when_auth-IsFine c selected_state (some s) mailbox tag handled r h k = k s refl
  when_auth-IsFine c selected_state none mailbox tag handled r h k = absurd r

  -- Whoever passes the other one has a mailbox too.
  pub when_selected-IsFine :
      (c : Conn) (st : ConnState) (session : Option ProxySession) (mailbox : Option ImapMailbox)
      → (tag : Text) (handled : Outcome) → IsReady st session mailbox
      → IsSound c
      → ((s : ProxySession) (m : ImapMailbox)
          → session ≡ some s
          → mailbox ≡ some m
          → IsOwnMailbox s.mailbox_profile_id m
          → IsFine handled)
      → IsFine (when_selected st tag c handled)
  unfolding when_selected
  when_selected-IsFine c not_auth session mailbox tag handled r h k = answer-IsFine c tag _ refl h
  when_selected-IsFine c logout session mailbox tag handled r h k = answer-IsFine c tag _ refl h
  when_selected-IsFine c auth session mailbox tag handled r h k = answer-IsFine c tag _ refl h
  when_selected-IsFine c selected_state (some s) (some m) tag handled r h k = k s m refl refl r
  when_selected-IsFine c selected_state none mailbox tag handled r h k = absurd r
  when_selected-IsFine c selected_state (some s) none tag handled r h k = absurd r

  -- An assertion on a value that is there holds.
  pub asserted-IsFine {ℓ} :
      {A : Type ℓ} (o : Option A) (x : A) (use_it : A → Outcome)
      → o ≡ some x
      → IsFine (use_it x)
      → IsFine (asserted o use_it)
  unfolding asserted
  asserted-IsFine o x use_it e h = subst (λ q. IsFine (asserted q use_it)) (sym e) h

  pub raising-IsFine {ℓ} :
      {A : Type ℓ} (o : Option A) (use_it : A → Outcome)
      → ((x : A) → o ≡ some x → IsFine (use_it x))
      → IsFine (raising o use_it)
  unfolding raising
  raising-IsFine none use_it h = tt
  raising-IsFine (some x) use_it h = h x refl

  -- A mailbox of the profile of the session may be told of.
  pub Told-own :
      (session : Option ProxySession) (s : ProxySession) (m : ImapMailbox) (t : Text)
      → session ≡ some s
      → IsOwnMailbox s.mailbox_profile_id m
      → Tells p m t
      → Told session t
  Told-own session s m t e own h = subst (λ q. Told q t) (sym e) (m, own, h)
