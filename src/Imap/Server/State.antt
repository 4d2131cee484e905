-- ===== src/Imap/Server/State.antt =====
-- app/proxies/imap/server.py: the state of a connection, the lines that it sends, and its guards.
use mind_wall.Prelude.{ℕ, Option, none, some, List, [], ◌∷◌, ◌++◌, map, Result, ok, err}
use mind_wall.Wire.{Text, codes}
use mind_wall.Wire.Numerals.{show}
use mind_wall.Imap.Auth.{ProxySession}
use mind_wall.Imap.Folders.{ImapMessage, ImapMailbox, Platform, exists, uid_next}
use mind_wall.Imap.Fetch.{join_words, build_fetch_response}

pub data ConnState : Type 0 where
  not_auth auth selected_state logout : ConnState

-- A line: a fixed text, the answer to the command of a tag, or one that says something of a mailbox.
pub data Reply : Type 0 where
  plain : Text → Reply
  tagged : Text → Text → Reply
  exists_line uid_validity_line uid_next_line : ImapMailbox → Reply
  status_line : Text → List Text → ImapMailbox → Reply
  search_line : ImapMailbox → List ℕ → Reply
  fetch_line : ImapMailbox → ImapMessage → Text → Reply

pub record Conn : Type 0 where
  pub state : ConnState
  pub proxy_session : Option ProxySession
  pub selected : Option ImapMailbox
  pub sent : List Reply

-- What a handler raises: a failed `assert`, or the ValueError of `int`.
pub data Fault : Type 0 where
  assertion_error value_error : Fault

abbrev pub Outcome : Type 0
Outcome = Result Fault Conn

-- The text that `_send` writes, without the CRLF.
unfoldable pub render : Platform → Reply → Text
unfolding exists uid_next show build_fetch_response
render p (plain t) = t
render p (tagged tag t) = tag ++ b' ' ∷ t
render p (exists_line m) = codes "* " ++ show (exists m) ++ codes " EXISTS"
render p (uid_validity_line m) =
    codes "* OK [UIDVALIDITY " ++ show m.uid_validity ++ codes "] UIDs valid"
render p (uid_next_line m) =
    codes "* OK [UIDNEXT " ++ show (uid_next m) ++ codes "] Predicted next UID"
render p (status_line name parts m) =
    codes "* STATUS \"" ++ name ++ codes "\" (" ++ join_words parts ++ codes ")"
render p (search_line m numbers) = codes "* SEARCH " ++ join_words (map show numbers)
render p (fetch_line mailbox m items) =
    codes "* " ++ show m.seq ++ codes " FETCH (" ++ build_fetch_response p m items ++ codes ")"

abbrev pub send : Conn → List Reply → Conn
send c lines = record c { sent = c.sent ++ lines }

abbrev pub answer : Conn → Text → Text → Outcome
answer c tag t = ok (send c (tagged tag t ∷ []))

-- `_require_auth`, before a handler.
unfoldable pub when_auth : ConnState → Text → Conn → Outcome → Outcome
when_auth not_auth tag c handled = answer c tag (codes "NO Not authenticated")
when_auth logout tag c handled = answer c tag (codes "NO Not authenticated")
when_auth auth tag c handled = handled
when_auth selected_state tag c handled = handled

-- `_require_selected`, before a handler.
unfoldable pub when_selected : ConnState → Text → Conn → Outcome → Outcome
when_selected not_auth tag c handled = answer c tag (codes "NO Not authenticated")
when_selected logout tag c handled = answer c tag (codes "NO Not authenticated")
when_selected auth tag c handled = answer c tag (codes "BAD No mailbox selected")
when_selected selected_state tag c handled = handled

-- `assert x is not None`, before the code that uses x.
unfoldable pub asserted {ℓ} : {A : Type ℓ} → Option A → (A → Outcome) → Outcome
asserted none use_it = err assertion_error
asserted (some x) use_it = use_it x

-- A call that may raise ValueError.
unfoldable pub raising {ℓ} : {A : Type ℓ} → Option A → (A → Outcome) → Outcome
raising none use_it = err value_error
raising (some x) use_it = use_it x
