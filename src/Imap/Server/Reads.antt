-- ===== src/Imap/Server/Reads.antt =====
-- app/proxies/imap/server.py: the handlers of a sound connection that read its mailbox.
use mind_wall.Prelude.{
  ℕ, ◌≡◌, refl, Option, some, List, [], ◌∷◌, map, select, All, All-append, inl, inr, true, leb,
}
use mind_wall.Wire.{Text, strip}
use mind_wall.Wire.Splitting.{split_fields}
use mind_wall.Wire.Numerals.{ℤ}
use mind_wall.Models.Mailboxes.{MailTables}
use mind_wall.Imap.Auth.{ProxySession, CheckPassword}
use mind_wall.Imap.Folders.{ImapMessage, ImapMailbox, Platform}
use mind_wall.Imap.Sets.{member, parse_seq_set, apply_search}
use mind_wall.Imap.Server.State.{fetch_line, Conn}
use mind_wall.Imap.Server.Reading.{cmd_search, cmd_uid_search, fetch_lines, fetch_with, cmd_fetch}
use mind_wall.Imap.Server.Sound.{
  IsOwnMailbox, IsConfined, IsSound, IsFine, send-IsSound, answer-IsFine, asserted-IsFine,
  raising-IsFine, Told, Told-own,
}
use mind_wall.Imap.Server.Tells.{is_answer, IsAmong, Tells, search_line-Tells, fetch_line-Tells}
use mind_wall.Imap.Server.Found.{
  IsAmong-all, All-select, All-sort, seqs_of-IsNumber, apply_search-IsNumber,
}
use mind_wall.Imap.Server.Reading.{seqs_of}
use mind_wall.Prelude.Sorting.{sort}

module _ (p : Platform) (check : CheckPassword) (Seen : MailTables → Type 0) where
  -- The handlers that read, of a connection with this session and this mailbox.
  module _ (c : Conn) (s : ProxySession) (m : ImapMailbox) (e : c.proxy_session ≡ some s)
      (f : c.selected ≡ some m) (own : IsOwnMailbox p check Seen s.mailbox_profile_id m)
      (h : IsSound p check Seen c) where
    told : (t : Text) → Tells p m t → Told p check Seen c.proxy_session t
    told t h = Told-own p check Seen c.proxy_session s m t e own h

    fetch_lines-IsConfined :
        (items : Text) (ms : List ImapMessage)
        → All (λ x. IsAmong x m.messages) ms
        → All (IsConfined p check Seen c.proxy_session) (map (λ x. fetch_line m x items) ms)
    fetch_lines-IsConfined items [] h = tt
    fetch_lines-IsConfined items (x ∷ ms) h =
        (told _ (fetch_line-Tells p m x items h.0), fetch_lines-IsConfined items ms h.1)

    pub fetch_with-IsFine :
        (parse : Text → ImapMailbox → Option (List ℤ)) (key : ImapMessage → ℕ) (tag bad good : Text)
        → is_answer bad ≡ true
        → is_answer good ≡ true
        → (fields : List Text) → IsFine p check Seen (fetch_with parse key tag bad good fields c)
    unfolding fetch_with
    fetch_with-IsFine parse key tag bad good b g [] =
        asserted-IsFine p check Seen c.selected m _ f (answer-IsFine p check Seen c tag bad b h)
    fetch_with-IsFine parse key tag bad good b g (set ∷ []) =
        asserted-IsFine p check Seen c.selected m _ f (answer-IsFine p check Seen c tag bad b h)
    fetch_with-IsFine parse key tag bad good b g (set ∷ items ∷ more) =
        asserted-IsFine p check Seen c.selected m _ f (
          raising-IsFine p check Seen (parse set m) _ (λ target parsed.
            send-IsSound p check Seen c _
              (All-append (IsConfined p check Seen c.proxy_session) (fetch_lines m key target items)
                _
                (fetch_lines-IsConfined items (select (λ x. member (key x) target) m.messages)
                  (All-select _ (λ x. member (key x) target) m.messages (IsAmong-all m.messages)))
                (g, tt))
              h))

    pub cmd_search-IsFine : (tag args : Text) → IsFine p check Seen (cmd_search tag args c)
    unfolding cmd_search
    cmd_search-IsFine tag args = asserted-IsFine p check Seen c.selected m _ f (
        raising-IsFine p check Seen (apply_search args m) _ (λ us found.
          send-IsSound p check Seen c _
            (
              told _ (search_line-Tells p m (seqs_of m us) (inl (seqs_of-IsNumber m us))),
              (refl, tt),
            )
            h))

    pub cmd_uid_search-IsFine : (tag args : Text) → IsFine p check Seen (cmd_uid_search tag args c)
    unfolding cmd_uid_search
    cmd_uid_search-IsFine tag args = asserted-IsFine p check Seen c.selected m _ f (
        raising-IsFine p check Seen (apply_search args m) _ (λ us found.
          send-IsSound p check Seen c _
            (
              told _ (
                  search_line-Tells p m (sort leb us)
                    (inr (All-sort _ leb us (apply_search-IsNumber args m us found)))),
              (refl, tt),
            )
            h))

    pub cmd_fetch-IsFine : (tag args : Text) → IsFine p check Seen (cmd_fetch tag args c)
    unfolding cmd_fetch
    cmd_fetch-IsFine tag args =
        fetch_with-IsFine parse_seq_set (λ x. x.seq) tag _ _ refl refl (split_fields 1 (strip args))
