-- ===== src/Mailboxes/Ownership.antt =====
-- app/mailboxes/service.py: what a user can do to the profiles of others.
use mind_wall.Prelude.{
  ℕ, ◌≡◌, ◌≢◌, ◌⊎◌, refl, ◌∙◌, sym, ap, subst, not, ◌&&◌, some, List, [], ◌∷◌, ◌++◌, map, any,
  find-All, find_passes, select, select-append, ◌==◌, All, All-append, All-map, All-of_map,
  Bool-cases, Option-cases, inl, inr, arith, ==_iff, ==_refl, append-nil,
}
use mind_wall.Wire.{Text, is_empty}
use mind_wall.Models.Mailboxes.{MailboxProfile}
use mind_wall.Models.Session.{NewId, IsFresh}
use mind_wall.Imap.Auth.{has_username}
use mind_wall.Mailboxes.Profiles.{
  MailboxFormData, Encryptor, Secrets, get_mailbox_by_id, of_owner, new_profile, create_mailbox,
  generate_proxy_username, replace_profile, updated_profile, update_mailbox, with_password,
  reset_proxy_password, delete_mailbox,
}
use mind_wall.Mailboxes.Connectivity.{
  Probe, ConnectivityResult, imap_upstream, smtp_upstream, tested_profile, probe_profile,
  test_mailbox_connectivity,
}

-- The ids are a primary key.
abbrev pub IsKeyed : List MailboxProfile → Type 0
IsKeyed [] = Unit
IsKeyed (x ∷ xs) = All (λ (y : MailboxProfile). y.id ≢ x.id) xs × IsKeyed xs

-- The rows of the other users.
abbrev pub others : ℕ → List MailboxProfile → List MailboxProfile
others u = select (λ (p : MailboxProfile). not (p.owner_id == u))

-- The rows with the id of a row that was loaded for its owner are the owner's.
loaded-owner :
    (id u : ℕ) (xs : List MailboxProfile) {p : MailboxProfile}
    → IsKeyed xs
    → get_mailbox_by_id id u xs ≡ some p
    → All (λ (x : MailboxProfile). x.id ≡ p.id → x.owner_id ≡ u) xs
unfolding get_mailbox_by_id
loaded-owner id u [] h found = tt
loaded-owner id u (x ∷ xs) {p} h found = elim (Bool-cases (of_owner id u x)) [
  | inl t ↦
      (let found' = rw t at found in
        let q : x ≡ p = cc in
        (
          λ _. ground (arith, t),
          All-map (λ (y : MailboxProfile). y.id ≢ x.id) _ xs
              (λ y n e. absurd (n (e ∙ ap (λ (z : MailboxProfile). z.id) (sym q)))) h.0,
        ))
  | inr f ↦
      (let found' = rw f at found in
        let apart =
          (find-All (λ (y : MailboxProfile). y.id ≢ x.id) (of_owner id u) xs h.0 found').0 in
        (λ e. absurd (apart (sym e)), loaded-owner id u xs h.1 found'))
]

others-replace :
    (u : ℕ) (p : MailboxProfile) (xs : List MailboxProfile)
    → p.owner_id ≡ u
    → All (λ (x : MailboxProfile). x.id ≡ p.id → x.owner_id ≡ u) xs
    → others u (replace_profile p xs) ≡ others u xs
others-replace u p [] e h = refl
others-replace u p (x ∷ xs) e h = elim (Bool-cases (x.id == p.id)) [
  | inl t ↦
      rw (t, e, (==_iff u u).1 refl, h.0 ((==_iff x.id p.id).0 t), (==_iff u u).1 refl)
        (others-replace u p xs e h.1)
  | inr f ↦ rw (f, others-replace u p xs e h.1) refl
]

others-delete :
    (u : ℕ) (p : MailboxProfile) (xs : List MailboxProfile)
    → All (λ (x : MailboxProfile). x.id ≡ p.id → x.owner_id ≡ u) xs
    → others u (delete_mailbox p xs) ≡ others u xs
unfolding delete_mailbox
others-delete u p [] h = refl
others-delete u p (x ∷ xs) h = elim (Bool-cases (x.id == p.id)) [
  | inl t ↦ rw (t, h.0 ((==_iff x.id p.id).0 t), (==_iff u u).1 refl) (others-delete u p xs h.1)
  | inr f ↦ rw (f, others-delete u p xs h.1) refl
]

All-replace {κ} :
    (P : MailboxProfile → Type κ) (p : MailboxProfile) (xs : List MailboxProfile)
    → ((x : MailboxProfile) → x.id ≡ p.id → P x → P p)
    → All P xs
    → All P (replace_profile p xs)
All-replace P p [] f h = tt
All-replace P p (x ∷ xs) f h = elim (Bool-cases (x.id == p.id)) [
  | inl t ↦ rw t (f x ((==_iff x.id p.id).0 t) h.0, All-replace P p xs f h.1)
  | inr n ↦ rw n (h.0, All-replace P p xs f h.1)
]

IsKeyed-replace :
    (p : MailboxProfile) (xs : List MailboxProfile) → IsKeyed xs → IsKeyed (replace_profile p xs)
IsKeyed-replace p [] h = tt
IsKeyed-replace p (x ∷ xs) h = elim (Bool-cases (x.id == p.id)) [
  | inl t ↦
      (let e = (==_iff x.id p.id).0 t in
        let apart = subst (λ i. All (λ (y : MailboxProfile). y.id ≢ i) xs) e h.0 in
        rw t (
          All-replace (λ (y : MailboxProfile). y.id ≢ p.id) p xs (λ x' same n. absurd (n same))
              apart,
          IsKeyed-replace p xs h.1,
        ))
  | inr f ↦ rw f (
    All-replace (λ (y : MailboxProfile). y.id ≢ x.id) p xs (λ x' same n e. n (same ∙ e)) h.0,
    IsKeyed-replace p xs h.1,
  )
]

All-delete {κ} :
    (P : MailboxProfile → Type κ) (p : MailboxProfile) (xs : List MailboxProfile)
    → All P xs
    → All P (delete_mailbox p xs)
unfolding delete_mailbox
All-delete P p [] h = tt
All-delete P p (x ∷ xs) h = elim (Bool-cases (x.id == p.id)) [
  | inl t ↦ rw t (All-delete P p xs h.1)
  | inr f ↦ rw f (h.0, All-delete P p xs h.1)
]

IsKeyed-delete :
    (p : MailboxProfile) (xs : List MailboxProfile) → IsKeyed xs → IsKeyed (delete_mailbox p xs)
unfolding delete_mailbox
IsKeyed-delete p [] h = tt
IsKeyed-delete p (x ∷ xs) h = elim (Bool-cases (x.id == p.id)) [
  | inl t ↦ rw t (IsKeyed-delete p xs h.1)
  | inr f ↦
      rw f (All-delete (λ (y : MailboxProfile). y.id ≢ x.id) p xs h.0, IsKeyed-delete p xs h.1)
]

IsKeyed-append :
    (p : MailboxProfile) (xs : List MailboxProfile)
    → All (λ (y : MailboxProfile). y.id ≢ p.id) xs
    → IsKeyed xs
    → IsKeyed (xs ++ p ∷ [])
IsKeyed-append p [] n h = (tt, tt)
IsKeyed-append p (x ∷ xs) n h = (
  All-append (λ (y : MailboxProfile). y.id ≢ x.id) xs (p ∷ []) h.0 ((λ e. n.0 (sym e)), tt),
  IsKeyed-append p xs n.1 h.1,
)

tested_profile-keeps :
    (now : ℕ) (i s : ConnectivityResult) (p : MailboxProfile)
    → ((tested_profile now i s p).id ≡ p.id) × ((tested_profile now i s p).owner_id ≡ p.owner_id)
unfolding tested_profile
tested_profile-keeps now i s p = elim (Bool-cases (i.success && s.success)) [
  | inl t ↦ rw (t, tested_profile) (refl, refl)
  | inr f ↦ rw (f, tested_profile) (refl, refl)
]

-- What a test does to the table: nothing, or a row is rewritten under its id and its owner.
tested-cases :
    (enc : Encryptor) (test_imap test_smtp : Probe) (now timeout : ℕ) (p : MailboxProfile)
    (xs : List MailboxProfile)
    → let ys = (test_mailbox_connectivity enc test_imap test_smtp now timeout p xs).1 in
      (ys ≡ xs)
      ⊎ ((p' : MailboxProfile) × (p'.id ≡ p.id)
          × (p'.owner_id ≡ p.owner_id)
          × (ys ≡ replace_profile p' xs))
unfolding test_mailbox_connectivity probe_profile
tested-cases enc test_imap test_smtp now timeout p xs =
    elim (Option-cases (enc.decrypt p.imap_password_enc)) [
      | inl failed ↦ inl (rw (failed, test_mailbox_connectivity) refl)
      | inr (word, found) ↦ elim (Option-cases (enc.decrypt p.smtp_password_enc)) [
        | inl failed ↦ inl (rw (found, failed, test_mailbox_connectivity) refl)
        | inr (word', found') ↦
            (let i = test_imap (imap_upstream p word timeout) in
              let s = test_smtp (smtp_upstream p word' timeout) in
              let (same, owner) = tested_profile-keeps now i s p in
              inr (
                tested_profile now i s p,
                same,
                owner,
                rw (found, found', test_mailbox_connectivity) refl,
              ))
      ]
    ]

module _ (lower : Text → Text) (enc : Encryptor) (new_id : NewId) where
  -- What the pages of a user call: each operation on a profile is on one that was loaded for the user.
  pub data Step (u : ℕ) (xs : List MailboxProfile) : List MailboxProfile → Type 0 where
    create :
        (secrets : Secrets) (now : ℕ) (form : MailboxFormData)
        → Step u xs (create_mailbox lower enc secrets new_id now u form xs).1
    update :
        (id : ℕ) (form : MailboxFormData) {p : MailboxProfile}
        → get_mailbox_by_id id u xs ≡ some p
        → Step u xs (update_mailbox enc form p xs).1
    reset :
        (id : ℕ) (secrets : Secrets) {p : MailboxProfile}
        → get_mailbox_by_id id u xs ≡ some p
        → Step u xs (reset_proxy_password secrets p xs).1
    discard :
        (id : ℕ) {p : MailboxProfile}
        → get_mailbox_by_id id u xs ≡ some p
        → Step u xs (delete_mailbox p xs)
    test :
        (id : ℕ) (test_imap test_smtp : Probe) (now timeout : ℕ) {p : MailboxProfile}
        → get_mailbox_by_id id u xs ≡ some p
        → Step u xs (test_mailbox_connectivity enc test_imap test_smtp now timeout p xs).1

  pub data Reach (u : ℕ) (xs : List MailboxProfile) : List MailboxProfile → Type 0 where
    here : Reach u xs xs
    next : {ys zs : List MailboxProfile} → Reach u xs ys → Step u ys zs → Reach u xs zs

  -- A table that a user has left, next to the one before.
  record IsLeft (u : ℕ) (xs ys : List MailboxProfile) : Type 0 where
    keyed : IsKeyed ys
    kept : others u ys ≡ others u xs

  -- A row is rewritten under its id and its owner.
  rewritten-IsLeft :
      (id u : ℕ) (xs : List MailboxProfile) {p : MailboxProfile} (p' : MailboxProfile)
      → IsKeyed xs
      → get_mailbox_by_id id u xs ≡ some p
      → p'.id ≡ p.id
      → p'.owner_id ≡ p.owner_id
      → IsLeft u xs (replace_profile p' xs)
  unfolding get_mailbox_by_id
  rewritten-IsLeft id u xs {p} p' h found same owner =
      let mine = loaded-owner id u xs h found in
      let passes = find_passes (of_owner id u) xs found in
      record {
        keyed = IsKeyed-replace p' xs h;
        kept = others-replace u p' xs (owner ∙ ground (arith, passes)) (
            subst (λ i. All (λ (x : MailboxProfile). x.id ≡ i → x.owner_id ≡ u) xs) (sym same)
              mine);
      }

  -- What `create_mailbox` does to the table.
  create_mailbox-cases :
      (secrets : Secrets) (now u : ℕ) (form : MailboxFormData) (xs : List MailboxProfile)
      → ((create_mailbox lower enc secrets new_id now u form xs).1 ≡ xs)
        ⊎ ((create_mailbox lower enc secrets new_id now u form xs).1
            ≡ xs
              ++ new_profile lower enc secrets
                  (new_id (map (λ (p : MailboxProfile). p.id) xs))
                  now
                  u
                  form
                ∷ [])
  unfolding create_mailbox
  create_mailbox-cases secrets now u form xs = elim (Bool-cases (is_empty form.imap_password)) [
    | inl t ↦ inl (rw (t, create_mailbox) refl)
    | inr f ↦ elim (Bool-cases (is_empty form.smtp_password)) [
      | inl t ↦ inl (rw (f, t, create_mailbox) refl)
      | inr g ↦
          elim (Bool-cases
            (any (has_username (generate_proxy_username lower secrets form.email_address)) xs)) [
              | inl t ↦ inl (rw (f, g, t, create_mailbox) refl)
              | inr t ↦ inr (rw (f, g, t, create_mailbox) refl)
            ]
    ]
  ]

  module _ (fresh : IsFresh new_id) where
    Step-IsLeft : (u : ℕ) (xs ys : List MailboxProfile) → IsKeyed xs → Step u xs ys → IsLeft u xs ys
    unfolding update_mailbox updated_profile reset_proxy_password new_profile
    Step-IsLeft u xs _ h (create secrets now form) =
        elim (create_mailbox-cases secrets now u form xs) [
          | inl same ↦ rw same record { keyed = h; kept = refl }
          | inr added ↦
              (let ids = map (λ (p : MailboxProfile). p.id) xs in
                let p = new_profile lower enc secrets (new_id ids) now u form in
                rw added record {
                  keyed =
                      IsKeyed-append p xs
                        (All-of_map (λ i. i ≢ new_id ids) (λ (p : MailboxProfile). p.id) xs
                          (fresh ids))
                        h;
                  kept =
                      select-append (λ (x : MailboxProfile). not (x.owner_id == u)) xs (p ∷ [])
                      ∙ rw (==_refl u) (append-nil (others u xs));
                })
        ]
    Step-IsLeft u xs _ h (update id form {p} found) =
        rewritten-IsLeft id u xs (updated_profile enc form p) h found refl refl
    Step-IsLeft u xs _ h (reset id secrets {p} found) =
        rewritten-IsLeft id u xs (with_password secrets p) h found refl refl
    Step-IsLeft u xs _ h (discard id {p} found) = record {
      keyed = IsKeyed-delete p xs h;
      kept = others-delete u p xs (loaded-owner id u xs h found);
    }
    Step-IsLeft u xs _ h (test id test_imap test_smtp now timeout {p} found) =
        elim (tested-cases enc test_imap test_smtp now timeout p xs) [
          | inl same ↦ rw same record { keyed = h; kept = refl }
          | inr (p', same, owner, written) ↦
              rw written (rewritten-IsLeft id u xs p' h found same owner)
        ]

    -- Whatever a user does through the service, the rows of all other users stay as they are, and in
    -- order. The ids of the table are unique at first, and the database gives fresh ids.
    pub others_kept :
        (u : ℕ) (xs ys : List MailboxProfile)
        → IsKeyed xs
        → Reach u xs ys
        → others u ys ≡ others u xs
    others_kept u xs ys h r = (left h r).kept
      where
        left : {ys : List MailboxProfile} → IsKeyed xs → Reach u xs ys → IsLeft u xs ys
        left h here = record { keyed = h; kept = refl }
        left h (next {ys} {zs} r s) =
            let before = left h r in
            let after = Step-IsLeft u ys zs before.keyed s in
            record { keyed = after.keyed; kept = after.kept ∙ before.kept }
