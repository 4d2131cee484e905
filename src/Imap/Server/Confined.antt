-- ===== src/Imap/Server/Confined.antt =====
-- app/proxies/imap/server.py: the handlers of a sound connection that open or close a mailbox.
use mind_wall.Prelude.{
  ◌≡◌, refl, Option, none, some, List, All, All-append, All-map, Bool-cases, Option-cases, inl, inr,
  subst, sym, length,
}
use mind_wall.Wire.{Text, is_empty, strip, upper}
use mind_wall.Wire.Splitting.{split_fields}
use mind_wall.Models.Mailboxes.{MailTables}
use mind_wall.Imap.Auth.{ProxySession, CheckPassword, authenticate_proxy_credentials}
use mind_wall.Imap.Folders.{ImapMailbox, Platform, select_mailbox}
use mind_wall.Imap.Args.{parse_login_args, match_status, unquote}
use mind_wall.Imap.Server.State.{
  ConnState, not_auth, auth, selected_state, logout, Reply, plain, tagged, exists_line,
  uid_validity_line, uid_next_line, status_line, search_line, fetch_line, Conn,
}
use mind_wall.Imap.Server.Mailboxes.{
  logged_in, cmd_login, selected_mailbox, cmd_select, status_of, cmd_status, cmd_close,
}
use mind_wall.Imap.Server.Sound.{
  IsAdmitted, IsOwnMailbox, IsConfined, IsReady, IsSound, IsFine, send-IsSound, answer-IsFine,
  asserted-IsFine, Told-own,
}
use mind_wall.Imap.Server.Tells.{
  Tells, exists_line-Tells, uid_validity_line-Tells, uid_next_line-Tells, status_line-Tells,
}
use mind_wall.Imap.Server.Found.{status_parts-IsStatus}
use mind_wall.Imap.Server.Mailboxes.{status_parts}

module _ (p : Platform) (check : CheckPassword) (Seen : MailTables → Type 0) where
  before_login :
      (session : Option ProxySession) (mailbox : Option ImapMailbox)
      → IsReady p check Seen not_auth session mailbox
      → (session ≡ none) × (mailbox ≡ none)
  before_login none none r = (refl, refl)
  before_login none (some m) r = absurd r
  before_login (some s) mailbox r = absurd r

  of_nobody :
      (s : ProxySession) (r : Reply)
      → IsConfined p check Seen none r
      → IsConfined p check Seen (some s) r
  of_nobody s (plain t) h = h
  of_nobody s (tagged tag t) h = h
  of_nobody s (exists_line m) h = absurd h
  of_nobody s (uid_validity_line m) h = absurd h
  of_nobody s (uid_next_line m) h = absurd h
  of_nobody s (status_line name parts m) h = absurd h
  of_nobody s (search_line m numbers) h = absurd h
  of_nobody s (fetch_line mailbox m items) h = absurd h

  -- A login: what was sent before it speaks of no mailbox.
  logged_in-IsFine :
      (c : Conn) (tag name : Text) (found : Option ProxySession)
      → IsAdmitted p check Seen found
      → c.state ≡ not_auth
      → IsSound p check Seen c
      → IsFine p check Seen (logged_in tag name c found)
  unfolding logged_in
  logged_in-IsFine c tag name none ad e h = answer-IsFine p check Seen c tag _ refl h
  logged_in-IsFine c tag name (some s) ad e h =
      let (no_session, no_mailbox) =
        before_login c.proxy_session c.selected
          (subst (λ q. IsReady p check Seen q c.proxy_session c.selected) e h.0) in
      (
        subst (λ q. IsReady p check Seen auth (some s) q) (sym no_mailbox) tt,
        All-append (IsConfined p check Seen (some s)) c.sent _
            (All-map (IsConfined p check Seen none) (IsConfined p check Seen (some s)) c.sent
              (of_nobody s) (subst (λ q. All (IsConfined p check Seen q) c.sent) no_session h.1))
            (refl, tt),
        ad,
      )

  admitted :
      (db : MailTables)
      → Seen db
      → (name word : Text) (found : Option ProxySession)
      → authenticate_proxy_credentials check db.mailbox_profiles name word ≡ found
      → IsAdmitted p check Seen found
  admitted db seen name word none e = tt
  admitted db seen name word (some s) e = (db, seen, name, word, e)

  selected_mailbox-IsFine :
      (c : Conn) (tag name : Text) (db : MailTables)
      → Seen db
      → (s : ProxySession) (found : Option ImapMailbox) → c.proxy_session ≡ some s
      → select_mailbox p db s.mailbox_profile_id name ≡ found
      → IsSound p check Seen c
      → IsFine p check Seen (selected_mailbox tag name c found)
  unfolding selected_mailbox
  selected_mailbox-IsFine c tag name db seen s none e f h =
      answer-IsFine p check Seen c tag _ refl h
  selected_mailbox-IsFine c tag name db seen s (some m) e f h =
      let own : IsOwnMailbox p check Seen s.mailbox_profile_id m = (db, seen, name, f) in
      let told =
        λ (t : Text) (h : Tells p m t). Told-own p check Seen c.proxy_session s m t e own h in
      (
        subst (λ q. IsReady p check Seen selected_state q (some m)) (sym e) own,
        All-append (IsConfined p check Seen c.proxy_session) c.sent _ h.1 (
          told _ (exists_line-Tells p m),
          (
            refl,
            (
              refl,
              (
                told _ (uid_validity_line-Tells p m),
                (told _ (uid_next_line-Tells p m), (refl, (refl, (refl, tt)))),
              ),
            ),
          ),
        ),
        h.2,
      )

  pub cmd_login-IsFine :
      (db : MailTables)
      → Seen db
      → (tag args : Text) (c : Conn) (st : ConnState) → c.state ≡ st
      → IsSound p check Seen c
      → IsFine p check Seen (cmd_login check db tag args c st)
  unfolding cmd_login
  cmd_login-IsFine db seen tag args c not_auth e h = elim (Option-cases (parse_login_args args)) [
    | inl missing ↦ rw (missing, cmd_login) (answer-IsFine p check Seen c tag _ refl h)
    | inr ((name, word), found) ↦
        rw (found, cmd_login)
          (logged_in-IsFine c tag name
            (authenticate_proxy_credentials check db.mailbox_profiles name word)
            (admitted db seen name word _ refl) e h)
  ]
  cmd_login-IsFine db seen tag args c auth e h = answer-IsFine p check Seen c tag _ refl h
  cmd_login-IsFine db seen tag args c selected_state e h = answer-IsFine p check Seen c tag _ refl h
  cmd_login-IsFine db seen tag args c logout e h = answer-IsFine p check Seen c tag _ refl h

  pub cmd_select-IsFine :
      (db : MailTables)
      → Seen db
      → (tag args : Text) (c : Conn) (s : ProxySession) → c.proxy_session ≡ some s
      → IsSound p check Seen c
      → IsFine p check Seen (cmd_select p db tag args c)
  unfolding cmd_select
  cmd_select-IsFine db seen tag args c s e h =
      let name = unquote (strip args) in
      elim (Bool-cases (is_empty name)) [
        | inl t ↦ rw (t, cmd_select) (answer-IsFine p check Seen c tag _ refl h)
        | inr f ↦
            rw (f, cmd_select)
              (asserted-IsFine p check Seen c.proxy_session s _ e (
                selected_mailbox-IsFine c tag name db seen s
                  (select_mailbox p db s.mailbox_profile_id name) e refl h))
      ]

  status_of-IsFine :
      (c : Conn) (tag name shown : Text) (items : List Text) (db : MailTables)
      → Seen db
      → (s : ProxySession) → (found : Option ImapMailbox) → c.proxy_session ≡ some s
      → select_mailbox p db s.mailbox_profile_id name ≡ found
      → IsSound p check Seen c
      → IsFine p check Seen (status_of tag shown items c found)
  unfolding status_of
  status_of-IsFine c tag name shown items db seen s none e f h =
      answer-IsFine p check Seen c tag _ refl h
  status_of-IsFine c tag name shown items db seen s (some m) e f h =
      send-IsSound p check Seen c _
        (
          Told-own p check Seen c.proxy_session s m _ e (db, seen, name, f)
              (status_line-Tells p m shown (status_parts m items) (status_parts-IsStatus m items)),
          (refl, tt),
        )
        h

  pub cmd_status-IsFine :
      (db : MailTables)
      → Seen db
      → (tag args : Text) (c : Conn) (s : ProxySession) → c.proxy_session ≡ some s
      → IsSound p check Seen c
      → IsFine p check Seen (cmd_status p db tag args c)
  unfolding cmd_status
  cmd_status-IsFine db seen tag args c s e h = elim (Option-cases (match_status (strip args))) [
    | inl missing ↦ rw (missing, cmd_status) (answer-IsFine p check Seen c tag _ refl h)
    | inr ((name, items), found) ↦
        rw (found, cmd_status)
          (asserted-IsFine p check Seen c.proxy_session s _ e (
            status_of-IsFine c tag (strip name) (strip name)
              (split_fields (length items) (upper items)) db seen s
              (select_mailbox p db s.mailbox_profile_id (strip name)) e refl h))
  ]

  -- CLOSE forgets the mailbox of whoever has a session.
  pub cmd_close-IsFine :
      (tag : Text) (c : Conn) (s : ProxySession)
      → c.proxy_session ≡ some s
      → IsSound p check Seen c
      → IsFine p check Seen (cmd_close tag c)
  unfolding cmd_close
  cmd_close-IsFine tag c s e h = (
    subst (λ q. IsReady p check Seen auth q none) (sym e) tt,
    All-append (IsConfined p check Seen c.proxy_session) c.sent _ h.1 (refl, tt),
    h.2,
  )
