-- ===== src/Imap/Server/Tells.antt =====
-- app/proxies/imap/server.py: what the lines of a connection may say.
use mind_wall.Prelude.{
  ℕ, ◌≡◌, ◌⊎◌, inl, inr, refl, Bool, true, false, ◌&&◌, ◌||◌, List, [], ◌∷◌, ◌++◌, map, All, length,
  any, ◌==◌,
}
use mind_wall.Wire.{Text, codes, one_of}
use mind_wall.Wire.Numerals.{show}
use mind_wall.Imap.Folders.{ImapMessage, ImapMailbox, Platform, exists, uid_next}
use mind_wall.Imap.Fetch.{join_words, build_fetch_response}
use mind_wall.Imap.Server.State.{
  exists_line, uid_validity_line, uid_next_line, status_line, search_line, fetch_line, render,
}

-- The untagged lines that say nothing of a mailbox.
abbrev fixed_lines : List Text
fixed_lines =
    codes "* OK [CAPABILITY IMAP4rev1] Mindwall IMAP proxy ready"
    ∷ codes "* CAPABILITY IMAP4rev1 LITERAL+ AUTH=PLAIN IMAP4rev1"
    ∷ codes "* BYE Mindwall IMAP proxy signing out"
    ∷ codes "* BYE Idle timeout"
    ∷ codes "* BAD Could not parse command"
    ∷ codes "* BAD Line too long"
    ∷ codes "* LIST (\\HasNoChildren) \"/\" \"INBOX\""
    ∷ codes "* LIST (\\HasNoChildren) \"/\" \"Mindwall/Quarantine\""
    ∷ codes "* 0 RECENT"
    ∷ codes "* OK [UNSEEN 0] No unseen messages"
    ∷ codes "* FLAGS (\\Answered \\Flagged \\Deleted \\Seen \\Draft)"
    ∷ codes "* OK [PERMANENTFLAGS ()] No permanent flags in read-only proxy"
    ∷ []

-- The answers to a command.
abbrev fixed_answers : List Text
fixed_answers =
    codes "OK CAPABILITY completed"
    ∷ codes "OK NOOP completed"
    ∷ codes "OK LOGOUT completed"
    ∷ codes "OK LIST completed"
    ∷ codes "OK [READ-ONLY] SELECT completed, mailbox is read-only"
    ∷ codes "OK STATUS completed"
    ∷ codes "OK CLOSE completed"
    ∷ codes "OK SEARCH completed"
    ∷ codes "OK UID SEARCH completed"
    ∷ codes "OK FETCH completed"
    ∷ codes "OK UID FETCH completed"
    ∷ codes "NO AUTHENTICATE not supported. Use LOGIN."
    ∷ codes "NO Not authenticated"
    ∷ codes "NO [AUTHENTICATIONFAILED] Invalid credentials"
    ∷ codes "NO [NONEXISTENT] Mailbox does not exist"
    ∷ codes "NO [CANNOT] This is a read-only IMAP proxy. Operation not supported in MVP."
    ∷ codes "BAD No mailbox selected"
    ∷ codes "BAD Already authenticated"
    ∷ codes "BAD LOGIN requires username and password"
    ∷ codes "BAD SELECT requires a mailbox name"
    ∷ codes "BAD STATUS syntax error"
    ∷ codes "BAD UID requires a subcommand"
    ∷ codes "BAD FETCH requires sequence set and items"
    ∷ codes "BAD UID FETCH requires UID set and items"
    ∷ []

-- The answers that repeat a text of the client.
abbrev echoes : List Text
echoes =
    codes "OK [CAPABILITY IMAP4rev1] LOGIN completed, authenticated as "
    ∷ codes "NO [NONEXISTENT] Mailbox does not exist: "
    ∷ codes "BAD Unknown UID subcommand: "
    ∷ codes "BAD Unknown command: "
    ∷ []

abbrev pub is_fixed : Text → Bool
is_fixed t = one_of fixed_lines t

abbrev begins : Text → Text → Bool
begins [] t = true
begins (a ∷ s) [] = false
begins (a ∷ s) (b ∷ t) = a == b && begins s t

abbrev pub is_answer : Text → Bool
is_answer t = any (λ e. begins e t) echoes || one_of fixed_answers t

-- A message is one of the list.
abbrev pub IsAmong : ImapMessage → List ImapMessage → Type 0
IsAmong x [] = ⊥
IsAmong x (y ∷ ys) = (x ≡ y) ⊎ IsAmong x ys

-- A number is that of a message of the mailbox.
abbrev pub IsNumber : (ImapMessage → ℕ) → ImapMailbox → ℕ → Type 0
IsNumber key m n = (x : ImapMessage) × IsAmong x m.messages × (n ≡ key x)

-- An item of STATUS of the mailbox.
pub data IsStatus (m : ImapMailbox) : Text → Type 0 where
  count : IsStatus m (codes "MESSAGES " ++ show (length m.messages))
  validity : IsStatus m (codes "UIDVALIDITY " ++ show m.uid_validity)
  next_uid : IsStatus m (codes "UIDNEXT " ++ show (uid_next m))
  unseen : IsStatus m (codes "UNSEEN 0")
  recent : IsStatus m (codes "RECENT 0")

-- The texts that tell of a mailbox, and of no other one.
pub data Tells (p : Platform) (m : ImapMailbox) (t : Text) : Type 0 where
  size : t ≡ codes "* " ++ show (length m.messages) ++ codes " EXISTS" → Tells p m t
  validity :
      t ≡ codes "* OK [UIDVALIDITY " ++ show m.uid_validity ++ codes "] UIDs valid" → Tells p m t
  next_uid :
      t ≡ codes "* OK [UIDNEXT " ++ show (uid_next m) ++ codes "] Predicted next UID" → Tells p m t
  status :
      (name : Text) (parts : List Text)
      → t ≡ codes "* STATUS \"" ++ name ++ codes "\" (" ++ join_words parts ++ codes ")"
      → All (IsStatus m) parts
      → Tells p m t
  sequence_numbers :
      (ns : List ℕ)
      → t ≡ codes "* SEARCH " ++ join_words (map show ns)
      → All (IsNumber (λ (x : ImapMessage). x.seq) m) ns
      → Tells p m t
  uids :
      (ns : List ℕ)
      → t ≡ codes "* SEARCH " ++ join_words (map show ns)
      → All (IsNumber (λ (x : ImapMessage). x.uid) m) ns
      → Tells p m t
  content :
      (x : ImapMessage) (items : Text)
      → t
        ≡ codes "* "
          ++ show x.seq
          ++ codes " FETCH ("
          ++ build_fetch_response p x items
          ++ codes ")"
      → IsAmong x m.messages
      → Tells p m t

module _ (p : Platform) (m : ImapMailbox) where
  pub exists_line-Tells : Tells p m (render p (exists_line m))
  unfolding render exists
  exists_line-Tells = size refl

  pub uid_validity_line-Tells : Tells p m (render p (uid_validity_line m))
  unfolding render
  uid_validity_line-Tells = validity refl

  pub uid_next_line-Tells : Tells p m (render p (uid_next_line m))
  unfolding render
  uid_next_line-Tells = next_uid refl

  pub status_line-Tells :
      (name : Text) (parts : List Text)
      → All (IsStatus m) parts
      → Tells p m (render p (status_line name parts m))
  unfolding render
  status_line-Tells name parts h = status name parts refl h

  pub search_line-Tells :
      (ns : List ℕ)
      → All (IsNumber (λ (x : ImapMessage). x.seq) m) ns
        ⊎ All (IsNumber (λ (x : ImapMessage). x.uid) m) ns
      → Tells p m (render p (search_line m ns))
  unfolding render
  search_line-Tells ns (inl h) = sequence_numbers ns refl h
  search_line-Tells ns (inr h) = uids ns refl h

  pub fetch_line-Tells :
      (x : ImapMessage) (items : Text)
      → IsAmong x m.messages
      → Tells p m (render p (fetch_line m x items))
  unfolding render
  fetch_line-Tells x items h = content x items refl h
