-- ===== src/Imap/Sets/Range.antt =====
-- app/proxies/imap/server.py: what a sequence set may name.
use mind_wall.Prelude.{
  ℕ, zero, suc, ◌+◌, ◌-◌, ◌≤◌, ◌≡◌, subst, Option, some, List, [], ◌∷◌, ◌++◌, map, ◌==◌, leb, ◌&&◌,
  All, All-append, Option-cases, Bool-cases, inl, inr, arith,
}
use mind_wall.Wire.{Text, codes, text_eq, strip}
use mind_wall.Wire.Splitting.{split_once, split_all}
use mind_wall.Wire.Numerals.{ℤ, pos, negsuc, int_of}
use mind_wall.Imap.Folders.{ImapMailbox, exists}
use mind_wall.Imap.Sets.{
  bounds, count_up, from_one, past, single, keep_seq, seq_part, union_parts, parse_seq_set,
}

-- A number that a message of the mailbox can have.
abbrev pub IsSeq : ℕ → ℤ → Type 0
IsSeq n (pos k) = (1 ≤ k) × (k ≤ n)
IsSeq n (negsuc k) = ⊥

count_up-IsSeq :
    (n start len : ℕ)
    → 1 ≤ start
    → start + len ≤ suc n
    → All (IsSeq n) (map pos (count_up start len))
count_up-IsSeq n start zero h b = tt
count_up-IsSeq n start (suc len) h b =
    ((h, omega (arith, b)), count_up-IsSeq n (suc start) len (omega arith) (omega (arith, b)))

le-from_one : (lo : ℤ) → 1 ≤ from_one lo
le-from_one (pos zero) = omega arith
le-from_one (pos (suc a)) = omega arith
le-from_one (negsuc a) = omega arith

past-le : (n : ℕ) (hi : ℤ) → past n hi ≤ suc n
past-le n (pos a) = ground arith
past-le n (negsuc a) = omega arith

range-IsSeq :
    (n : ℕ) (lo hi : ℤ)
    → 1 ≤ n
    → All (IsSeq n) (map pos (count_up (from_one lo) (past n hi - from_one lo)))
range-IsSeq n lo hi h = from_to (from_one lo) (past n hi) (le-from_one lo) (past-le n hi)
  where
    from_to :
        (start stop : ℕ)
        → 1 ≤ start
        → stop ≤ suc n
        → All (IsSeq n) (map pos (count_up start (stop - start)))
    from_to start stop a b = elim (Bool-cases (leb start stop)) [
      | inl t ↦ count_up-IsSeq n start (stop - start) a (ground (arith, t))
      | inr f ↦ (let none_left : stop - start ≡ 0 = ground (arith, f) in rw none_left tt)
    ]

keep_seq-IsSeq : (n : ℕ) (z : ℤ) → All (IsSeq n) (keep_seq n z)
keep_seq-IsSeq n (negsuc a) = tt
keep_seq-IsSeq n (pos a) = elim (Bool-cases (leb 1 a && leb a n)) [
  | inl t ↦ rw t ((ground (arith, t), ground (arith, t)), tt)
  | inr f ↦ rw f tt
]

single-IsSeq : (n : ℕ) (s : Text) → 1 ≤ n → All (IsSeq n) (single (keep_seq n) n s)
single-IsSeq n s h = elim (Bool-cases (text_eq s (codes "*"))) [
  | inl t ↦ rw t ((h, omega arith), tt)
  | inr f ↦ elim (Option-cases (int_of s)) [
    | inl missing ↦ rw (f, missing) tt
    | inr (z, found) ↦ rw (f, found) (keep_seq-IsSeq n z)
  ]
]

seq_part-IsSeq :
    (n : ℕ) (part : Text) {zs : List ℤ} → 1 ≤ n → seq_part n part ≡ some zs → All (IsSeq n) zs
unfolding seq_part
seq_part-IsSeq n part {zs} h e = elim (Option-cases (split_once b':' (strip part))) [
  | inl missing ↦
      (let e' = rw (missing, seq_part) at e in
        let q : single (keep_seq n) n (strip part) ≡ zs = cc in
        subst (All (IsSeq n)) q (single-IsSeq n (strip part) h))
  | inr (range, found) ↦
      (let e' = rw (found, seq_part) at e in
        elim (Option-cases (bounds n range)) [
          | inl missing ↦ (let e'' = rw missing at e' in cc)
          | inr ((lo, hi), known) ↦
              (let e'' = rw known at e' in
                let q : map pos (count_up (from_one lo) (past n hi - from_one lo)) ≡ zs = cc in
                subst (All (IsSeq n)) q (range-IsSeq n lo hi h))
        ])
]

union_parts-All :
    (P : ℤ → Type 0) (f : Text → Option (List ℤ)) (parts : List Text) {zs : List ℤ}
    → ((part : Text) (ys : List ℤ) → f part ≡ some ys → All P ys)
    → union_parts f parts ≡ some zs
    → All P zs
unfolding union_parts
union_parts-All P f [] {zs} h e = (let q : [] ≡ zs = cc in subst (All P) q tt)
union_parts-All P f (part ∷ parts) {zs} h e = elim (Option-cases (f part)) [
  | inl missing ↦ (let e' = rw (missing, union_parts) at e in cc)
  | inr (xs, found) ↦
      (let e' = rw (found, union_parts) at e in
        elim (Option-cases (union_parts f parts)) [
          | inl missing ↦ (let e'' = rw missing at e' in cc)
          | inr (ys, rest) ↦
              (let e'' = rw rest at e' in
                let q : xs ++ ys ≡ zs = cc in
                subst (All P) q
                  (All-append P xs ys (h part xs found) (union_parts-All P f parts h rest)))
        ])
]

-- Whatever a client writes as a sequence set, each number that it names is the number of a message:
-- from 1 to the number of messages.
pub parse_seq_set-IsSeq :
    (text : Text) (m : ImapMailbox) {zs : List ℤ}
    → parse_seq_set text m ≡ some zs
    → All (IsSeq (exists m)) zs
unfolding parse_seq_set
parse_seq_set-IsSeq text m {zs} e = elim (Bool-cases (exists m == 0)) [
  | inl t ↦
      (let e' = rw (t, parse_seq_set) at e in
        let q : [] ≡ zs = cc in subst (All (IsSeq (exists m))) q tt)
  | inr f ↦
      union_parts-All (IsSeq (exists m)) (seq_part (exists m)) (split_all b',' text)
        (λ part ys found. seq_part-IsSeq (exists m) part (ground (arith, f)) found)
        (rw (f, parse_seq_set) at e)
]
