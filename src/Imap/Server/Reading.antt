-- ===== src/Imap/Server/Reading.antt =====
-- app/proxies/imap/server.py: the handlers that read the selected mailbox: SEARCH, FETCH, and the
-- same with UID.
use mind_wall.Prelude.{
  ℕ, Option, none, some, List, [], ◌∷◌, ◌++◌, map, leb, select, ok, if◌then◌else◌,
}
use mind_wall.Prelude.Sorting.{sort}
use mind_wall.Wire.{Text, codes, text_eq, one_of, strip, upper}
use mind_wall.Wire.Splitting.{split_fields}
use mind_wall.Wire.Numerals.{ℤ}
use mind_wall.Imap.Folders.{ImapMessage, ImapMailbox, by_uid}
use mind_wall.Imap.Sets.{member, parse_uid_set, parse_seq_set, apply_search}
use mind_wall.Imap.Server.State.{
  ConnState, not_auth, auth, selected_state, logout, Reply, search_line, fetch_line, Conn, Outcome,
  send, tagged, answer, asserted, raising,
}

abbrev pub readonly_msg : Text
readonly_msg = codes "NO [CANNOT] This is a read-only IMAP proxy. Operation not supported in MVP."

-- The sequence numbers of the messages that `by_uid` finds.
abbrev pub seqs_of : ImapMailbox → List ℕ → List ℕ
seqs_of mailbox [] = []
seqs_of mailbox (u ∷ us) = elim (by_uid u mailbox) [
  | none ↦ seqs_of mailbox us
  | some m ↦ m.seq ∷ seqs_of mailbox us
]

-- `_cmd_search`.
unfoldable pub cmd_search : Text → Text → Conn → Outcome
unfolding asserted raising apply_search by_uid
cmd_search tag args c = asserted c.selected (λ mailbox. raising (apply_search args mailbox) (λ uids.
    ok (
      send c (
        search_line mailbox (seqs_of mailbox uids)
        ∷ tagged tag (codes "OK SEARCH completed")
        ∷ []))))

-- `_cmd_uid_search`.
unfoldable pub cmd_uid_search : Text → Text → Conn → Outcome
unfolding asserted raising apply_search
cmd_uid_search tag args c = asserted c.selected (λ mailbox.
    raising (apply_search args mailbox) (λ uids. ok (
      send c
        (search_line mailbox (sort leb uids) ∷ tagged tag (codes "OK UID SEARCH completed") ∷ []))))

-- The loop over the messages of the mailbox.
abbrev pub fetch_lines : ImapMailbox → (ImapMessage → ℕ) → List ℤ → Text → List Reply
fetch_lines mailbox key target items =
    map (λ m. fetch_line mailbox m items) (select (λ m. member (key m) target) mailbox.messages)

-- What both kinds of FETCH do with their two arguments, their set parser and their number.
unfoldable pub fetch_with :
    (Text → ImapMailbox → Option (List ℤ))
    → (ImapMessage → ℕ)
    → Text
    → Text
    → Text
    → List Text
    → Conn
    → Outcome
unfolding asserted raising
fetch_with parse key tag bad good [] c = asserted c.selected (λ mailbox. answer c tag bad)
fetch_with parse key tag bad good (set ∷ []) c = asserted c.selected (λ mailbox. answer c tag bad)
fetch_with parse key tag bad good (set ∷ items ∷ more) c = asserted c.selected (λ mailbox.
    raising (parse set mailbox)
      (λ target. ok (send c (fetch_lines mailbox key target items ++ tagged tag good ∷ []))))

-- `_cmd_uid_fetch`.
unfoldable pub cmd_uid_fetch : Text → Text → Conn → Outcome
unfolding fetch_with parse_uid_set split_fields strip
cmd_uid_fetch tag args c =
    fetch_with parse_uid_set (λ (m : ImapMessage). m.uid) tag
      (codes "BAD UID FETCH requires UID set and items") (codes "OK UID FETCH completed")
      (split_fields 1 (strip args)) c

-- `_cmd_fetch`.
unfoldable pub cmd_fetch : Text → Text → Conn → Outcome
unfolding fetch_with parse_seq_set split_fields strip
cmd_fetch tag args c =
    fetch_with parse_seq_set (λ (m : ImapMessage). m.seq) tag
      (codes "BAD FETCH requires sequence set and items") (codes "OK FETCH completed")
      (split_fields 1 (strip args)) c

-- The subcommand of UID.
unfoldable pub uid_command : Text → Text → Text → Conn → Outcome
unfolding cmd_uid_search cmd_uid_fetch
uid_command tag subcmd args c =
    if text_eq subcmd (codes "SEARCH")
    then cmd_uid_search tag args c
    else if text_eq subcmd (codes "FETCH")
    then cmd_uid_fetch tag args c
    else if one_of (codes "STORE" ∷ codes "COPY" ∷ codes "MOVE" ∷ codes "EXPUNGE" ∷ []) subcmd
    then answer c tag readonly_msg
    else answer c tag (codes "BAD Unknown UID subcommand: " ++ subcmd)

unfoldable pub uid_fields : Text → List Text → Conn → Outcome
unfolding uid_command upper
uid_fields tag [] c = answer c tag (codes "BAD UID requires a subcommand")
uid_fields tag (subcmd ∷ []) c = uid_command tag (upper subcmd) [] c
uid_fields tag (subcmd ∷ args ∷ more) c = uid_command tag (upper subcmd) args c

-- `_cmd_uid`.
unfoldable pub cmd_uid : Text → Text → Conn → ConnState → Outcome
unfolding uid_fields split_fields strip
cmd_uid tag args c selected_state = uid_fields tag (split_fields 1 (strip args)) c
cmd_uid tag args c not_auth = answer c tag (codes "BAD No mailbox selected")
cmd_uid tag args c auth = answer c tag (codes "BAD No mailbox selected")
cmd_uid tag args c logout = answer c tag (codes "BAD No mailbox selected")
