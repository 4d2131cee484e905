-- ===== src/Mailboxes/Profiles/Rows.antt =====
-- app/mailboxes/service.py: reading the table of profiles after a write.
use mind_wall.Prelude.{◌≡◌, refl, Bool, true, false, some, List, [], ◌∷◌, ◌++◌, any, find, arith}
use mind_wall.Models.Mailboxes.{MailboxProfile}
use mind_wall.Mailboxes.Profiles.{replace_profile}

module _ (q : MailboxProfile → Bool) where
  -- A query that found a row finds what the row is rewritten to, if that passes too.
  pub find-replace_profile :
      (p' p : MailboxProfile) (xs : List MailboxProfile)
      → p'.id ≡ p.id
      → q p' ≡ true
      → find q xs ≡ some p
      → find q (replace_profile p' xs) ≡ some p'
  find-replace_profile p' p [] same passes found = cc
  find-replace_profile p' p (x ∷ xs) same passes found =
      ground (arith, find-replace_profile p' p xs same passes)

  pub find-append_profile :
      (p : MailboxProfile) (xs : List MailboxProfile)
      → any q xs ≡ false
      → q p ≡ true
      → find q (xs ++ p ∷ []) ≡ some p
  find-append_profile p [] missing passes = rw passes refl
  find-append_profile p (x ∷ xs) missing passes = ground (arith, find-append_profile p xs)
