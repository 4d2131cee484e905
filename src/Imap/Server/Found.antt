-- ===== src/Imap/Server/Found.antt =====
-- app/proxies/imap/server.py: what a search, a STATUS and a FETCH find in a mailbox.
use mind_wall.Prelude.{
  ℕ, ◌≡◌, inl, inr, refl, subst, Bool, ◌||◌, Option, none, some, List, [], ◌∷◌, map, select, All,
  All-append, All-map, either, Bool-cases, Option-cases, find, drop, ◌==◌,
}
use mind_wall.Wire.{Text, codes, text_eq, is_empty, starts_with, strip, upper}
use mind_wall.Wire.Numerals.{ℤ}
use mind_wall.Imap.Folders.{ImapMessage, ImapMailbox, exists, by_uid}
use mind_wall.Imap.Sets.{all_uids, member, apply_search, parse_uid_set}
use mind_wall.Imap.Server.Mailboxes.{status_part, status_parts}
use mind_wall.Imap.Server.Reading.{seqs_of}
use mind_wall.Prelude.Sorting.{sort, insert}
use mind_wall.Imap.Server.Tells.{
  IsAmong, IsNumber, IsStatus, count, validity, next_uid, unseen, recent,
}

-- The numbers of a search.
find-IsAmong :
    (q : ImapMessage → Bool) (ms : List ImapMessage) {x : ImapMessage}
    → find q ms ≡ some x
    → IsAmong x ms
find-IsAmong q [] e = cc
find-IsAmong q (y ∷ ms) {x} e = elim (Bool-cases (q y)) [
  | inl t ↦ (let e' = rw t at e in inl cc)
  | inr f ↦ inr (find-IsAmong q ms (rw f at e))
]

pub seqs_of-IsNumber :
    (m : ImapMailbox) (us : List ℕ) → All (IsNumber (λ (x : ImapMessage). x.seq) m) (seqs_of m us)
unfolding by_uid
seqs_of-IsNumber m [] = tt
seqs_of-IsNumber m (u ∷ us) = elim (Option-cases (by_uid u m)) [
  | inl missing ↦ rw (missing, seqs_of) (seqs_of-IsNumber m us)
  | inr (x, found) ↦
      rw (found, seqs_of)
        (
          (x, find-IsAmong (λ (y : ImapMessage). y.uid == u) m.messages found, refl),
          seqs_of-IsNumber m us,
        )
]

pub IsAmong-all : (ms : List ImapMessage) → All (λ x. IsAmong x ms) ms
IsAmong-all [] = tt
IsAmong-all (x ∷ ms) = (inl refl, All-map _ _ ms (λ y h. inr h) (IsAmong-all ms))

All-to_map :
    (P : ℕ → Type 0) (f : ImapMessage → ℕ) (ms : List ImapMessage)
    → All (λ x. P (f x)) ms
    → All P (map f ms)
All-to_map P f [] h = tt
All-to_map P f (x ∷ ms) h = (h.0, All-to_map P f ms h.1)

all_uids-IsNumber : (m : ImapMailbox) → All (IsNumber (λ (x : ImapMessage). x.uid) m) (all_uids m)
all_uids-IsNumber m =
    All-to_map (IsNumber (λ (x : ImapMessage). x.uid) m) (λ (x : ImapMessage). x.uid) m.messages
      (All-map _ _ m.messages (λ x h. (x, h, refl)) (IsAmong-all m.messages))

pub All-select {ℓ κ} :
    {A : Type ℓ} (P : A → Type κ) (q : A → Bool) (xs : List A) → All P xs → All P (select q xs)
All-select P q [] h = tt
All-select P q (x ∷ xs) h = elim (Bool-cases (q x)) [
  | inl t ↦ rw t (h.0, All-select P q xs h.1)
  | inr f ↦ rw f (All-select P q xs h.1)
]

All-insert :
    (P : ℕ → Type 0) (before : ℕ → ℕ → Bool) (a : ℕ) (xs : List ℕ)
    → P a
    → All P xs
    → All P (insert before a xs)
unfolding insert
All-insert P before a [] h k = (h, tt)
All-insert P before a (x ∷ xs) h k = elim (Bool-cases (before a x)) [
  | inl t ↦ rw t (h, k)
  | inr f ↦ rw f (k.0, All-insert P before a xs h k.1)
]

pub All-sort :
    (P : ℕ → Type 0) (before : ℕ → ℕ → Bool) (xs : List ℕ) → All P xs → All P (sort before xs)
unfolding sort
All-sort P before [] h = tt
All-sort P before (x ∷ xs) h = All-insert P before x (sort before xs) h.0 (All-sort P before xs h.1)

-- What a search finds.
abbrev IsFound : ImapMailbox → Option (List ℕ) → Type 0
IsFound m none = Unit
IsFound m (some us) = All (IsNumber (λ (x : ImapMessage). x.uid) m) us

search_uids-IsFound :
    (m : ImapMailbox) (o : Option (List ℤ))
    → IsFound m (elim o as (λ _. Option (List ℕ)) [
      | none ↦ none
      | some target ↦ some (select (λ u. member u target) (all_uids m))
    ])
search_uids-IsFound m none = tt
search_uids-IsFound m (some target) =
    All-select _ (λ u. member u target) (all_uids m) (all_uids-IsNumber m)

apply_search-IsFound : (args : Text) (m : ImapMailbox) → IsFound m (apply_search args m)
unfolding apply_search
apply_search-IsFound args m =
    either (IsFound m) (is_empty (upper (strip args)) || text_eq (upper (strip args)) (codes "ALL"))
      (all_uids-IsNumber m)
      (either (IsFound m) (starts_with (codes "UID ") (upper (strip args)))
        (search_uids-IsFound m (parse_uid_set (drop 4 (strip args)) m)) (all_uids-IsNumber m))

pub apply_search-IsNumber :
    (args : Text) (m : ImapMailbox) (us : List ℕ)
    → apply_search args m ≡ some us
    → All (IsNumber (λ (x : ImapMessage). x.uid) m) us
apply_search-IsNumber args m us e = subst (IsFound m) e (apply_search-IsFound args m)

-- The items of STATUS.
status_part-IsStatus : (m : ImapMailbox) (item : Text) → All (IsStatus m) (status_part m item)
unfolding status_part exists
status_part-IsStatus m item =
    either (All (IsStatus m)) (text_eq item (codes "MESSAGES")) (count, tt)
      (either (All (IsStatus m)) (text_eq item (codes "UIDVALIDITY")) (validity, tt)
        (either (All (IsStatus m)) (text_eq item (codes "UIDNEXT")) (next_uid, tt)
          (either (All (IsStatus m)) (text_eq item (codes "UNSEEN")) (unseen, tt)
            (either (All (IsStatus m)) (text_eq item (codes "RECENT")) (recent, tt) tt))))

pub status_parts-IsStatus :
    (m : ImapMailbox) (items : List Text) → All (IsStatus m) (status_parts m items)
status_parts-IsStatus m [] = tt
status_parts-IsStatus m (i ∷ is) =
    All-append (IsStatus m) (status_part m i) (status_parts m is) (status_part-IsStatus m i)
      (status_parts-IsStatus m is)
