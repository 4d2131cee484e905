-- ===== src/Imap/Server.antt =====
-- app/proxies/imap/server.py: the commands of a connection and its loop.
pub mod State
pub mod Mailboxes
pub mod Reading
pub mod Tells
pub mod Found
pub mod Sound
pub mod Confined
pub mod Reads
pub mod Safe
pub mod Login
use mind_wall.Prelude.{
  ℕ, Bool, true, false, ◌&&◌, ◌||◌, Option, none, some, List, [], ◌∷◌, ◌++◌, ◌==◌, ltb, length,
  Result, ok, err, if◌then◌else◌,
}
use mind_wall.Wire.{Text, codes, text_eq, one_of, is_empty, strip, upper}
use mind_wall.Wire.Splitting.{split_fields}
use mind_wall.Models.Mailboxes.{MailTables}
use mind_wall.Imap.Auth.{CheckPassword}
use mind_wall.Imap.Folders.{Platform, folder_name, inbox, quarantine_folder}
use mind_wall.Imap.Server.State.{
  ConnState, not_auth, auth, selected_state, logout, Reply, plain, Conn, Outcome, send, tagged,
  answer, when_auth, when_selected,
}
use mind_wall.Imap.Server.Mailboxes.{cmd_login, cmd_select, cmd_status, cmd_close}
use mind_wall.Imap.Server.Reading.{cmd_search, cmd_fetch, cmd_uid, readonly_msg}

pub data Command : Type 0 where
  capability noop leave login authenticate list_all choose status close with_uid search fetch
        mutation unknown :
      Command

abbrev mutation_commands : List Text
mutation_commands =
    codes "STORE"
    ∷ codes "COPY"
    ∷ codes "MOVE"
    ∷ codes "APPEND"
    ∷ codes "EXPUNGE"
    ∷ codes "CREATE"
    ∷ codes "DELETE"
    ∷ codes "RENAME"
    ∷ codes "SUBSCRIBE"
    ∷ codes "UNSUBSCRIBE"
    ∷ codes "LSUB"
    ∷ codes "SETACL"
    ∷ codes "DELETEACL"
    ∷ codes "SETMETADATA"
    ∷ codes "SETQUOTA"
    ∷ codes "SORT"
    ∷ []

-- The tests of `_dispatch`.
unfoldable pub command_of : Text → Command
command_of t =
    if text_eq t (codes "CAPABILITY")
    then capability
    else if text_eq t (codes "NOOP")
    then noop
    else if text_eq t (codes "LOGOUT")
    then leave
    else if text_eq t (codes "LOGIN")
    then login
    else if text_eq t (codes "AUTHENTICATE")
    then authenticate
    else if text_eq t (codes "LIST")
    then list_all
    else if one_of (codes "SELECT" ∷ codes "EXAMINE" ∷ []) t
    then choose
    else if text_eq t (codes "STATUS")
    then status
    else if text_eq t (codes "CLOSE")
    then close
    else if text_eq t (codes "UID")
    then with_uid
    else if text_eq t (codes "SEARCH")
    then search
    else if text_eq t (codes "FETCH")
    then fetch
    else if one_of mutation_commands t
    then mutation
    else unknown

-- `_cmd_list`, over `list_folders()`.
abbrev pub cmd_list : Text → Conn → Outcome
cmd_list tag c = ok (
    send c (
      plain (codes "* LIST (\\HasNoChildren) \"/\" \"" ++ folder_name inbox ++ codes "\"")
      ∷ plain
          (codes "* LIST (\\HasNoChildren) \"/\" \"" ++ folder_name quarantine_folder ++ codes "\"")
      ∷ tagged tag (codes "OK LIST completed")
      ∷ []))

-- What the loop meets: a line of bytes, the end of the stream, no line in time, or an exception of
-- the reader or of the timeout around the loop.
pub data Event : Type 0 where
  received : Text → Event
  disconnected timed_out interrupted : Event

abbrev is_break : ℕ → Bool
is_break c = c == 13 || c == 10

-- `line.rstrip(b"\r\n")`.
unfoldable pub strip_break : Text → Text
strip_break [] = []
strip_break (c ∷ s) =
    let rest = strip_break s in if is_break c && is_empty rest then [] else c ∷ rest

-- The connection as it is accepted, with the greeting.
abbrev pub greeted : Conn
greeted = record {
  state = not_auth;
  proxy_session = none;
  selected = none;
  sent = plain (codes "* OK [CAPABILITY IMAP4rev1] Mindwall IMAP proxy ready") ∷ [];
}

abbrev last_line : Conn → Text → Conn
last_line c t = send c (plain t ∷ [])

abbrev pub went_on : Conn → Outcome → Conn × Bool
went_on c (ok c') = (c', true)
went_on c (err fault) = (c, false)

abbrev pub is_open : ConnState → Bool
is_open logout = false
is_open not_auth = true
is_open auth = true
is_open selected_state = true

module _ (p : Platform) (check : CheckPassword) where
  -- The branches of `_dispatch`.
  unfoldable pub run_command : MailTables → Text → Text → Text → Conn → Command → Outcome
  unfolding cmd_login cmd_select cmd_status cmd_close cmd_search cmd_fetch cmd_uid when_auth
      when_selected
  run_command db tag name args c capability = ok (
      send c (
        plain (codes "* CAPABILITY IMAP4rev1 LITERAL+ AUTH=PLAIN IMAP4rev1")
        ∷ tagged tag (codes "OK CAPABILITY completed")
        ∷ []))
  run_command db tag name args c noop = answer c tag (codes "OK NOOP completed")
  run_command db tag name args c leave = ok (
      send (record c { state = logout })
        (plain (codes "* BYE Mindwall IMAP proxy signing out")
          ∷ tagged tag (codes "OK LOGOUT completed")
          ∷ []))
  run_command db tag name args c login = cmd_login check db tag args c c.state
  run_command db tag name args c authenticate =
      answer c tag (codes "NO AUTHENTICATE not supported. Use LOGIN.")
  run_command db tag name args c list_all = when_auth c.state tag c (cmd_list tag c)
  run_command db tag name args c choose = when_auth c.state tag c (cmd_select p db tag args c)
  run_command db tag name args c status = when_auth c.state tag c (cmd_status p db tag args c)
  run_command db tag name args c close = when_selected c.state tag c (cmd_close tag c)
  run_command db tag name args c with_uid = when_auth c.state tag c (cmd_uid tag args c c.state)
  run_command db tag name args c search = when_selected c.state tag c (cmd_search tag args c)
  run_command db tag name args c fetch = when_selected c.state tag c (cmd_fetch tag args c)
  run_command db tag name args c mutation = answer c tag readonly_msg
  run_command db tag name args c unknown = answer c tag (codes "BAD Unknown command: " ++ name)

  -- The fields of a line: a tag, a command and its arguments.
  unfoldable pub run_fields : MailTables → Conn → List Text → Outcome
  unfolding run_command command_of upper
  run_fields db c [] = ok (send c (plain (codes "* BAD Could not parse command") ∷ []))
  run_fields db c (tag ∷ []) = ok (send c (plain (codes "* BAD Could not parse command") ∷ []))
  run_fields db c (tag ∷ name ∷ []) = run_command db tag (upper name) [] c (command_of (upper name))
  run_fields db c (tag ∷ name ∷ args ∷ more) =
      run_command db tag (upper name) args c (command_of (upper name))

  -- `_dispatch`.
  unfoldable pub dispatch : MailTables → Text → Conn → Outcome
  unfolding run_fields split_fields strip
  dispatch db line c = if is_empty (strip line) then ok c else run_fields db c (split_fields 2 line)

  -- A line that is not empty.
  unfoldable pub run_line : MailTables → Text → Conn → Outcome
  unfolding dispatch strip_break
  run_line db bytes c = dispatch db (p.decode_utf8 (strip_break bytes)) c

  -- One round of the loop: the connection after it, and whether the loop goes on. A fault ends the
  -- connection; it comes before the handler has sent or changed anything.
  unfoldable pub round : MailTables → Conn → Event → Conn × Bool
  unfolding run_line
  round db c (received []) = (c, false)
  round db c (received (b ∷ bytes)) =
      if ltb 8192 (length (b ∷ bytes))
      then (last_line c (codes "* BAD Line too long"), false)
      else went_on c (run_line db (b ∷ bytes) c)
  round db c disconnected = (c, false)
  round db c timed_out = (last_line c (codes "* BYE Idle timeout"), false)
  round db c interrupted = (c, false)

  -- The loop of `handle`: an event comes with the tables as they are at that moment.
  unfoldable pub handle : List (MailTables × Event) → Conn → Conn
  unfolding round
  handle [] c = c
  handle ((db, e) ∷ events) c =
      let (c', more) = round db c e in
      let rest = handle events c' in if more && is_open c'.state then rest else c'
