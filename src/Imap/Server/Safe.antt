-- ===== src/Imap/Server/Safe.antt =====
-- app/proxies/imap/server.py: `_dispatch` and the loop of a sound connection.
use mind_wall.Prelude.{
  ◌≡◌, refl, Option, none, some, List, [], ◌∷◌, All-append, Bool-cases, inl, inr,
}
use mind_wall.Wire.{Text, codes, text_eq, one_of, is_empty, strip, upper}
use mind_wall.Wire.Splitting.{split_fields}
use mind_wall.Models.Mailboxes.{MailTables}
use mind_wall.Imap.Auth.{ProxySession, CheckPassword}
use mind_wall.Imap.Folders.{ImapMailbox, Platform}
use mind_wall.Imap.Sets.{parse_uid_set}
use mind_wall.Imap.Server.{
  Command, capability, noop, leave, login, authenticate, list_all, choose, status, close, with_uid,
  search, fetch, mutation, unknown, command_of, run_command, run_fields, dispatch,
}
use mind_wall.Imap.Server.State.{ConnState, not_auth, auth, selected_state, logout, Conn}
use mind_wall.Imap.Server.Reading.{cmd_uid_fetch, uid_command, uid_fields, cmd_uid}
use mind_wall.Imap.Server.Sound.{
  IsOwnMailbox, IsConfined, IsReady, IsSound, IsFine, send-IsSound, answer-IsFine, when_auth-IsFine,
  when_selected-IsFine,
}
use mind_wall.Imap.Server.Confined.{
  cmd_login-IsFine, cmd_select-IsFine, cmd_status-IsFine, cmd_close-IsFine,
}
use mind_wall.Imap.Server.Reads.{
  fetch_with-IsFine, cmd_search-IsFine, cmd_uid_search-IsFine, cmd_fetch-IsFine,
}

module _ (p : Platform) (check : CheckPassword) (Seen : MailTables → Type 0) where
  module _ (c : Conn) (s : ProxySession) (m : ImapMailbox) (e : c.proxy_session ≡ some s)
      (f : c.selected ≡ some m) (own : IsOwnMailbox p check Seen s.mailbox_profile_id m)
      (h : IsSound p check Seen c) where
    cmd_uid_fetch-IsFine : (tag args : Text) → IsFine p check Seen (cmd_uid_fetch tag args c)
    unfolding cmd_uid_fetch
    cmd_uid_fetch-IsFine tag args =
        fetch_with-IsFine p check Seen c s m e f own h parse_uid_set (λ x. x.uid) tag _ _ refl refl
          (split_fields 1 (strip args))

    uid_command-IsFine :
        (tag subcmd args : Text) → IsFine p check Seen (uid_command tag subcmd args c)
    unfolding uid_command
    uid_command-IsFine tag subcmd args = elim (Bool-cases (text_eq subcmd (codes "SEARCH"))) [
      | inl t ↦ rw (t, uid_command) (cmd_uid_search-IsFine p check Seen c s m e f own h tag args)
      | inr n ↦ elim (Bool-cases (text_eq subcmd (codes "FETCH"))) [
        | inl t ↦ rw (n, t, uid_command) (cmd_uid_fetch-IsFine tag args)
        | inr n' ↦
            elim (Bool-cases (
              one_of (codes "STORE" ∷ codes "COPY" ∷ codes "MOVE" ∷ codes "EXPUNGE" ∷ []) subcmd)) [
                | inl t ↦ rw (n, n', t, uid_command) (answer-IsFine p check Seen c tag _ refl h)
                | inr n'' ↦ rw (n, n', n'', uid_command) (answer-IsFine p check Seen c tag _ refl h)
              ]
      ]
    ]

    uid_fields-IsFine :
        (tag : Text) (fields : List Text) → IsFine p check Seen (uid_fields tag fields c)
    unfolding uid_fields
    uid_fields-IsFine tag [] = answer-IsFine p check Seen c tag _ refl h
    uid_fields-IsFine tag (sub ∷ []) = uid_command-IsFine tag (upper sub) []
    uid_fields-IsFine tag (sub ∷ args ∷ more) = uid_command-IsFine tag (upper sub) args

  cmd_uid-IsFine :
      (c : Conn) (tag args : Text) (st : ConnState) (session : Option ProxySession)
      → (mailbox : Option ImapMailbox) → c.proxy_session ≡ session
      → c.selected ≡ mailbox
      → IsReady p check Seen st session mailbox
      → IsSound p check Seen c
      → IsFine p check Seen (cmd_uid tag args c st)
  unfolding cmd_uid
  cmd_uid-IsFine c tag args not_auth session mailbox e f r h =
      answer-IsFine p check Seen c tag _ refl h
  cmd_uid-IsFine c tag args auth session mailbox e f r h = answer-IsFine p check Seen c tag _ refl h
  cmd_uid-IsFine c tag args logout session mailbox e f r h =
      answer-IsFine p check Seen c tag _ refl h
  cmd_uid-IsFine c tag args selected_state (some s) (some m) e f r h =
      uid_fields-IsFine c s m e f r h tag (split_fields 1 (strip args))
  cmd_uid-IsFine c tag args selected_state none mailbox e f r h = absurd r
  cmd_uid-IsFine c tag args selected_state (some s) none e f r h = absurd r

  run_command-IsFine :
      (db : MailTables)
      → Seen db
      → (tag name args : Text) (c : Conn) (command : Command) → IsSound p check Seen c
      → IsFine p check Seen (run_command p check db tag name args c command)
  unfolding run_command
  run_command-IsFine db seen tag name args c capability h =
      send-IsSound p check Seen c _ (refl, (refl, tt)) h
  run_command-IsFine db seen tag name args c noop h = answer-IsFine p check Seen c tag _ refl h
  run_command-IsFine db seen tag name args c leave h = (
    tt,
    All-append (IsConfined p check Seen c.proxy_session) c.sent _ h.1 (refl, (refl, tt)),
    h.2,
  )
  run_command-IsFine db seen tag name args c login h =
      cmd_login-IsFine p check Seen db seen tag args c c.state refl h
  run_command-IsFine db seen tag name args c authenticate h =
      answer-IsFine p check Seen c tag _ refl h
  run_command-IsFine db seen tag name args c list_all h =
      when_auth-IsFine p check Seen c c.state c.proxy_session c.selected tag _ h.0 h
        (λ s e. send-IsSound p check Seen c _ (refl, (refl, (refl, tt))) h)
  run_command-IsFine db seen tag name args c choose h =
      when_auth-IsFine p check Seen c c.state c.proxy_session c.selected tag _ h.0 h
        (λ s e. cmd_select-IsFine p check Seen db seen tag args c s e h)
  run_command-IsFine db seen tag name args c status h =
      when_auth-IsFine p check Seen c c.state c.proxy_session c.selected tag _ h.0 h
        (λ s e. cmd_status-IsFine p check Seen db seen tag args c s e h)
  run_command-IsFine db seen tag name args c close h =
      when_selected-IsFine p check Seen c c.state c.proxy_session c.selected tag _ h.0 h
        (λ s m e f own. cmd_close-IsFine p check Seen tag c s e h)
  run_command-IsFine db seen tag name args c with_uid h =
      when_auth-IsFine p check Seen c c.state c.proxy_session c.selected tag _ h.0 h
        (λ s e. cmd_uid-IsFine c tag args c.state c.proxy_session c.selected refl refl h.0 h)
  run_command-IsFine db seen tag name args c search h =
      when_selected-IsFine p check Seen c c.state c.proxy_session c.selected tag _ h.0 h
        (λ s m e f own. cmd_search-IsFine p check Seen c s m e f own h tag args)
  run_command-IsFine db seen tag name args c fetch h =
      when_selected-IsFine p check Seen c c.state c.proxy_session c.selected tag _ h.0 h
        (λ s m e f own. cmd_fetch-IsFine p check Seen c s m e f own h tag args)
  run_command-IsFine db seen tag name args c mutation h = answer-IsFine p check Seen c tag _ refl h
  run_command-IsFine db seen tag name args c unknown h = answer-IsFine p check Seen c tag _ refl h

  run_fields-IsFine :
      (db : MailTables)
      → Seen db
      → (c : Conn) (fields : List Text) → IsSound p check Seen c
      → IsFine p check Seen (run_fields p check db c fields)
  unfolding run_fields
  run_fields-IsFine db seen c [] h = send-IsSound p check Seen c _ (refl, tt) h
  run_fields-IsFine db seen c (tag ∷ []) h = send-IsSound p check Seen c _ (refl, tt) h
  run_fields-IsFine db seen c (tag ∷ name ∷ []) h =
      run_command-IsFine db seen tag (upper name) [] c (command_of (upper name)) h
  run_fields-IsFine db seen c (tag ∷ name ∷ args ∷ more) h =
      run_command-IsFine db seen tag (upper name) args c (command_of (upper name)) h

  -- A command that is run on a sound connection leaves it sound, whatever the line, the tables and
  -- the password check are, and no assertion of a handler fails; the ValueError of a malformed range
  -- is the only exception.
  pub dispatch-IsFine :
      (db : MailTables)
      → Seen db
      → (text : Text) (c : Conn) → IsSound p check Seen c
      → IsFine p check Seen (dispatch p check db text c)
  unfolding dispatch
  dispatch-IsFine db seen text c h = elim (Bool-cases (is_empty (strip text))) [
    | inl t ↦ rw (t, dispatch) h
    | inr f ↦ rw (f, dispatch) (run_fields-IsFine db seen c (split_fields 2 text) h)
  ]
