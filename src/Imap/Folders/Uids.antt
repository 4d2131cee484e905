-- ===== src/Imap/Folders/Uids.antt =====
-- app/proxies/imap/mailbox.py: the numbers of the UID namespace.
use mind_wall.Prelude.{
  ℕ, ◌^◌, ◌≡◌, ◌≤◌, ◌<◌, refl, List, [], ◌∷◌, map, All, All-map, All-of_map, arith, ltb,
  if◌then◌else◌,
}
use mind_wall.Imap.Folders.{
  Folder, inbox, quarantine_folder, ImapMessage, ImapMailbox, max_of, max_uid, next_of, uid_next,
  folder_uid_validity,
}

le-max_of : (m : ℕ) (xs : List ℕ) → m ≤ max_of m xs
le-max_of m [] = omega arith
le-max_of m (x ∷ xs) = ground (arith, le-max_of (if ltb m x then x else m) xs)

max_of-bounds : (m : ℕ) (xs : List ℕ) → All (λ x. x ≤ max_of m xs) xs
max_of-bounds m [] = tt
max_of-bounds m (x ∷ xs) = (
  ground (arith, le-max_of (if ltb m x then x else m) xs),
  max_of-bounds (if ltb m x then x else m) xs,
)

All-below : (ms : List ImapMessage) → All (λ (m : ImapMessage). m.uid < next_of ms) ms
All-below [] = tt
All-below (m ∷ ms) = (
  omega (arith, le-max_of m.uid (map (λ (x : ImapMessage). x.uid) ms)),
  All-map _ _ ms (λ x h. omega arith)
      (All-of_map (λ u. u ≤ max_uid (m ∷ ms)) (λ (x : ImapMessage). x.uid) ms
        (max_of-bounds m.uid (map (λ (x : ImapMessage). x.uid) ms))),
)

-- The UIDNEXT that is announced is above the uid of every message.
pub lt-uid_next : (m : ImapMailbox) → All (λ (x : ImapMessage). x.uid < uid_next m) m.messages
unfolding uid_next
lt-uid_next m = All-below m.messages

-- Two folders with one UIDVALIDITY are the same folder of the same profile, for ids below 2 ^ 30.
pub folder_uid_validity_injective :
    (a b : ℕ) (f g : Folder)
    → a < 2 ^ 30
    → b < 2 ^ 30
    → folder_uid_validity a f ≡ folder_uid_validity b g
    → (a ≡ b) × (f ≡ g)
unfolding folder_uid_validity
folder_uid_validity_injective a b inbox inbox ha hb e = (omega arith, refl)
folder_uid_validity_injective a b inbox quarantine_folder ha hb e = absurd (omega arith)
folder_uid_validity_injective a b quarantine_folder inbox ha hb e = absurd (omega arith)
folder_uid_validity_injective a b quarantine_folder quarantine_folder ha hb e = (omega arith, refl)
