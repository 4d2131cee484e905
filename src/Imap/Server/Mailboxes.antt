-- ===== src/Imap/Server/Mailboxes.antt =====
-- app/proxies/imap/server.py: the handlers that open a mailbox: LOGIN, SELECT, STATUS and CLOSE.
use mind_wall.Prelude.{Option, none, some, List, [], ◌∷◌, ◌++◌, length, ok, if◌then◌else◌}
use mind_wall.Wire.{Text, codes, text_eq, is_empty, strip, upper}
use mind_wall.Wire.Splitting.{split_fields}
use mind_wall.Wire.Numerals.{show}
use mind_wall.Models.Mailboxes.{MailTables}
use mind_wall.Imap.Auth.{ProxySession, CheckPassword, authenticate_proxy_credentials}
use mind_wall.Imap.Folders.{ImapMailbox, Platform, exists, uid_next, select_mailbox}
use mind_wall.Imap.Args.{parse_login_args, unquote, match_status}
use mind_wall.Imap.Server.State.{
  ConnState, not_auth, auth, selected_state, logout, plain, exists_line, uid_validity_line,
  uid_next_line, status_line, Conn, Outcome, send, tagged, answer, asserted,
}

-- The session that the credentials give, or none.
unfoldable pub logged_in : Text → Text → Conn → Option ProxySession → Outcome
logged_in tag username c none = answer c tag (codes "NO [AUTHENTICATIONFAILED] Invalid credentials")
logged_in tag username c (some s) =
    answer (record c { proxy_session = some s; state = auth }) tag
      (codes "OK [CAPABILITY IMAP4rev1] LOGIN completed, authenticated as " ++ username)

abbrev already : Text → Conn → Outcome
already tag c = answer c tag (codes "BAD Already authenticated")

-- `_cmd_login`.
unfoldable pub cmd_login : CheckPassword → MailTables → Text → Text → Conn → ConnState → Outcome
unfolding parse_login_args authenticate_proxy_credentials logged_in
cmd_login check db tag args c not_auth = elim (parse_login_args args) [
  | none ↦ answer c tag (codes "BAD LOGIN requires username and password")
  | some (username, password) ↦
      logged_in tag username c
        (authenticate_proxy_credentials check db.mailbox_profiles username password)
]
cmd_login check db tag args c auth = already tag c
cmd_login check db tag args c selected_state = already tag c
cmd_login check db tag args c logout = already tag c

-- What SELECT does with the mailbox that it finds.
unfoldable pub selected_mailbox : Text → Text → Conn → Option ImapMailbox → Outcome
selected_mailbox tag folder_name c none =
    answer c tag (codes "NO [NONEXISTENT] Mailbox does not exist: " ++ folder_name)
selected_mailbox tag folder_name c (some mailbox) = ok (
    send (record c { selected = some mailbox; state = selected_state })
      (exists_line mailbox
        ∷ plain (codes "* 0 RECENT")
        ∷ plain (codes "* OK [UNSEEN 0] No unseen messages")
        ∷ uid_validity_line mailbox
        ∷ uid_next_line mailbox
        ∷ plain (codes "* FLAGS (\\Answered \\Flagged \\Deleted \\Seen \\Draft)")
        ∷ plain (codes "* OK [PERMANENTFLAGS ()] No permanent flags in read-only proxy")
        ∷ tagged tag (codes "OK [READ-ONLY] SELECT completed, mailbox is read-only")
        ∷ []))

-- `_cmd_select`.
unfoldable pub cmd_select : Platform → MailTables → Text → Text → Conn → Outcome
unfolding unquote strip asserted selected_mailbox select_mailbox
cmd_select p db tag args c =
    let folder_name = unquote (strip args) in
    if is_empty folder_name
    then answer c tag (codes "BAD SELECT requires a mailbox name")
    else asserted c.proxy_session (λ (s : ProxySession).
      selected_mailbox tag folder_name c (select_mailbox p db s.mailbox_profile_id folder_name))

-- One round of the loop over the items of STATUS.
unfoldable pub status_part : ImapMailbox → Text → List Text
unfolding exists uid_next show
status_part mailbox item =
    if text_eq item (codes "MESSAGES")
    then (codes "MESSAGES " ++ show (exists mailbox)) ∷ []
    else if text_eq item (codes "UIDVALIDITY")
    then (codes "UIDVALIDITY " ++ show mailbox.uid_validity) ∷ []
    else if text_eq item (codes "UIDNEXT")
    then (codes "UIDNEXT " ++ show (uid_next mailbox)) ∷ []
    else if text_eq item (codes "UNSEEN")
    then codes "UNSEEN 0" ∷ []
    else if text_eq item (codes "RECENT")
    then codes "RECENT 0" ∷ []
    else []

abbrev pub status_parts : ImapMailbox → List Text → List Text
status_parts mailbox [] = []
status_parts mailbox (i ∷ is) = status_part mailbox i ++ status_parts mailbox is

-- What STATUS says of the mailbox that it finds.
unfoldable pub status_of : Text → Text → List Text → Conn → Option ImapMailbox → Outcome
unfolding status_part
status_of tag name items c none = answer c tag (codes "NO [NONEXISTENT] Mailbox does not exist")
status_of tag name items c (some mailbox) = ok (
    send c (
      status_line name (status_parts mailbox items) mailbox
      ∷ tagged tag (codes "OK STATUS completed")
      ∷ []))

-- `_cmd_status`.
unfoldable pub cmd_status : Platform → MailTables → Text → Text → Conn → Outcome
unfolding match_status strip upper split_fields asserted status_of select_mailbox
cmd_status p db tag args c = elim (match_status (strip args)) [
  | none ↦ answer c tag (codes "BAD STATUS syntax error")
  | some (name, items) ↦ asserted c.proxy_session (λ (s : ProxySession).
      status_of tag (strip name) (split_fields (length items) (upper items)) c
        (select_mailbox p db s.mailbox_profile_id (strip name)))
]

-- `_cmd_close`.
unfoldable pub cmd_close : Text → Conn → Outcome
cmd_close tag c =
    answer (record c { selected = none; state = auth }) tag (codes "OK CLOSE completed")
