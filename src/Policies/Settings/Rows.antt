-- ===== src/Policies/Settings/Rows.antt =====
-- app/policies/service.py: the table of overrides as a finite map from keys to rows.
use text.Mathlib.Text.{◌==◌ as str_eq}
use text.Mathlib.TextEquality.{eq_iff}
use mind_wall.Prelude.{
  ℕ, String, ◌≡◌, ◌≢◌, refl, sym, ◌∙◌, ap, subst, Option, none, some, List, [], ◌∷◌, ◌++◌, map,
  ◌==◌, ==_iff, All, All-append, All-of_map, All-map, select, Bool-cases, Option-cases, inl, inr,
  if◌then◌else◌, ok, arith,
}
use mind_wall.Models.Settings.{PolicySetting}
use mind_wall.Models.Session.{NewId, IsFresh}
use mind_wall.Policies.Settings.{
  get_override, replace_row, with_key, scalar_one_or_none, SettingChange, changed_row, upsert,
}

-- Two rows differ in their ids and in their keys.
abbrev pub Apart : PolicySetting → PolicySetting → Type 0
Apart x y = (y.id ≢ x.id) × (y.key ≢ x.key)

-- The ids are a primary key, and the keys are unique.
abbrev pub IsTable : List PolicySetting → Type 0
IsTable [] = Unit
IsTable (x ∷ xs) = All (Apart x) xs × IsTable xs

-- A row that is found is in the table, and is of its key.
pub get_override-All {κ} :
    (P : PolicySetting → Type κ) (k : String) (xs : List PolicySetting) {r : PolicySetting}
    → All P xs
    → get_override k xs ≡ some r
    → P r × (r.key ≡ k)
unfolding get_override
get_override-All P k [] h e = cc
get_override-All P k (x ∷ xs) {r} h e = elim (Option-cases (get_override k xs)) [
  | inl missing ↦ elim (Bool-cases (str_eq x.key k)) [
    | inl t ↦
        (let e' = rw (missing, t, get_override) at e in
          let q : x ≡ r = cc in (subst P q h.0, subst (λ z. z.key ≡ k) q ((eq_iff x.key k).0 t)))
    | inr f ↦ (let e' = rw (missing, f, get_override) at e in cc)
  ]
  | inr (r', found) ↦
      (let e' = rw (found, get_override) at e in get_override-All P k xs h.1 (found ∙ e'))
]

get_override-missing :
    (k : String) (xs : List PolicySetting) → All (λ y. y.key ≢ k) xs → get_override k xs ≡ none
unfolding get_override
get_override-missing k [] h = refl
get_override-missing k (x ∷ xs) h =
    ground (arith, get_override-missing k xs h.1, eq_iff x.key k, h.0)

get_override-none :
    (k : String) (xs : List PolicySetting) → get_override k xs ≡ none → All (λ y. y.key ≢ k) xs
unfolding get_override
get_override-none k [] e = tt
get_override-none k (x ∷ xs) e = elim (Option-cases (get_override k xs)) [
  | inl missing ↦ (ground (arith, missing, eq_iff x.key k), get_override-none k xs missing)
  | inr (r, found) ↦ (let e' = rw (found, get_override) at e in cc)
]

select-missing :
    (k : String) (xs : List PolicySetting) → All (λ y. y.key ≢ k) xs → select (with_key k) xs ≡ []
select-missing k [] h = refl
select-missing k (x ∷ xs) h = ground (arith, select-missing k xs h.1, eq_iff x.key k, h.0)

-- The query for a key finds at most one row, the one of the dict.
pub scalar_one_or_none-select :
    (k : String) (xs : List PolicySetting)
    → IsTable xs
    → scalar_one_or_none (select (with_key k) xs) ≡ ok (get_override k xs)
unfolding get_override
scalar_one_or_none-select k [] h = refl
scalar_one_or_none-select k (x ∷ xs) h = elim (Bool-cases (str_eq x.key k)) [
  | inl t ↦
      (let others =
          subst (λ z. All (λ y. y.key ≢ z) xs) ((eq_iff x.key k).0 t)
            (All-map (Apart x) (λ y. y.key ≢ x.key) xs (λ y a. a.1) h.0) in
        rw (t, select-missing k xs others, get_override-missing k xs others, get_override) refl)
  | inr f ↦
      rw (f, get_override)
        (scalar_one_or_none-select k xs h.1
          ∙ ap ok (elim (Option-cases (get_override k xs)) [
            | inl missing ↦ rw missing refl
            | inr (r, found) ↦ rw found refl
          ]))
]

get_override-append :
    (k : String) (row : PolicySetting) (xs : List PolicySetting)
    → get_override k (xs ++ row ∷ []) ≡ (if str_eq row.key k then some row else get_override k xs)
unfolding get_override
get_override-append k row [] = refl
get_override-append k row (x ∷ xs) = ground (arith, get_override-append k row xs)

replace_row-absent :
    (row : PolicySetting) (xs : List PolicySetting)
    → All (λ y. y.id ≢ row.id) xs
    → replace_row row xs ≡ xs
replace_row-absent row [] h = refl
replace_row-absent row (x ∷ xs) h = ground (arith, replace_row-absent row xs h.1, h.0)

-- A row that is rewritten, under its id and its key, is what its key then has; no other key changes.
get_override-replace_row :
    (k : String) (row old : PolicySetting) (xs : List PolicySetting)
    → IsTable xs
    → row.id ≡ old.id
    → get_override row.key xs ≡ some old
    → get_override k (replace_row row xs)
      ≡ (if str_eq row.key k then some row else get_override k xs)
unfolding get_override
get_override-replace_row k row old [] h same found = cc
get_override-replace_row k row old (x ∷ xs) h same found =
    elim (Option-cases (get_override row.key xs)) [
      | inl missing ↦ elim (Bool-cases (str_eq x.key row.key)) [
        | inr f ↦ (let found' = rw (missing, f, get_override) at found in cc)
        | inl t ↦
            (let found' = rw (missing, t, get_override) at found in
              let id_eq : x.id ≡ row.id = ground (arith, found', same) in
              let key_eq = (eq_iff x.key row.key).0 t in
              let others =
                subst (λ i. All (λ y. y.id ≢ i) xs) id_eq
                  (All-map (Apart x) (λ y. y.id ≢ x.id) xs (λ y a. a.0) h.0) in
              rw ((==_iff x.id row.id).1 id_eq, replace_row-absent row xs others, key_eq)
                (elim (Bool-cases (str_eq row.key k)) [
                  | inl u ↦
                      rw (u, subst (λ z. get_override z xs ≡ none) ((eq_iff row.key k).0 u) missing)
                        refl
                  | inr f ↦ rw f refl
                ]))
      ]
      | inr (old', found') ↦
          (let e' = rw (found', get_override) at found in
            let q : old' ≡ old = cc in
            let apart = (get_override-All (Apart x) row.key xs h.0 found').0 in
            let other : x.id ≢ row.id = ground (arith, apart.0, q, same) in
            let ih = get_override-replace_row k row old xs h.1 same (found' ∙ ap some q) in
            elim (Bool-cases (x.id == row.id)) [
              | inl t ↦ absurd (other ((==_iff x.id row.id).0 t))
              | inr f ↦
                  rw (f, ih)
                    (elim (Bool-cases (str_eq row.key k)) [ inl u ↦ rw u refl | inr u ↦ rw u refl ])
            ])
    ]

All-replace_row {κ} :
    (P : PolicySetting → Type κ) (row : PolicySetting) (xs : List PolicySetting)
    → P row
    → All P xs
    → All P (replace_row row xs)
All-replace_row P row [] p h = tt
All-replace_row P row (x ∷ xs) p h = elim (Bool-cases (x.id == row.id)) [
  | inl t ↦ rw t (p, All-replace_row P row xs p h.1)
  | inr f ↦ rw f (h.0, All-replace_row P row xs p h.1)
]

IsTable-append :
    (row : PolicySetting) (xs : List PolicySetting)
    → IsTable xs
    → All (λ y. y.id ≢ row.id) xs
    → All (λ y. y.key ≢ row.key) xs
    → IsTable (xs ++ row ∷ [])
IsTable-append row [] h i k = (tt, tt)
IsTable-append row (x ∷ xs) h i k = (
  All-append (Apart x) xs (row ∷ []) h.0 ((λ e. i.0 (sym e), λ e. k.0 (sym e)), tt),
  IsTable-append row xs h.1 i.1 k.1,
)

IsTable-replace_row :
    (row old : PolicySetting) (xs : List PolicySetting)
    → IsTable xs
    → row.id ≡ old.id
    → get_override row.key xs ≡ some old
    → IsTable (replace_row row xs)
unfolding get_override
IsTable-replace_row row old [] h same found = tt
IsTable-replace_row row old (x ∷ xs) h same found = elim (Option-cases (get_override row.key xs)) [
  | inl missing ↦ elim (Bool-cases (str_eq x.key row.key)) [
    | inr f ↦ (let found' = rw (missing, f, get_override) at found in cc)
    | inl t ↦
        (let found' = rw (missing, t, get_override) at found in
          let id_eq : x.id ≡ row.id = ground (arith, found', same) in
          let key_eq = (eq_iff x.key row.key).0 t in
          let apart =
            All-map (Apart x) (Apart row) xs
              (λ y a. (λ e. a.0 (e ∙ sym id_eq), λ e. a.1 (e ∙ sym key_eq))) h.0 in
          let others = All-map (Apart row) (λ y. y.id ≢ row.id) xs (λ y a. a.0) apart in
          rw ((==_iff x.id row.id).1 id_eq, replace_row-absent row xs others) (apart, h.1))
  ]
  | inr (old', found') ↦
      (let e' = rw (found', get_override) at found in
        let q : old' ≡ old = cc in
        let apart = get_override-All (Apart x) row.key xs h.0 found' in
        let id_apart : row.id ≢ x.id = ground (arith, apart.0.0, q, same) in
        let key_apart : row.key ≢ x.key = λ e. apart.0.1 (apart.1 ∙ e) in
        let ih = IsTable-replace_row row old xs h.1 same (found' ∙ ap some q) in
        elim (Bool-cases (x.id == row.id)) [
          | inl t ↦ absurd (id_apart (sym ((==_iff x.id row.id).0 t)))
          | inr f ↦ rw f (All-replace_row (Apart x) row xs (id_apart, key_apart) h.0, ih)
        ])
]

module _ (new_id : NewId) where
  -- The upsert is an update of the map: the changed key has the new row, every other key keeps its own.
  pub get_override-upsert :
      (now : ℕ) (c : SettingChange) (rows : List PolicySetting) (k : String)
      → IsTable rows
      → let (row, rows') = upsert new_id now c (get_override c.key rows) rows in
        get_override k rows' ≡ (if str_eq c.key k then some row else get_override k rows)
  unfolding upsert changed_row
  get_override-upsert now c rows k h = elim (Option-cases (get_override c.key rows)) [
    | inl missing ↦ rw (missing, upsert) (get_override-append k _ rows)
    | inr (old, found) ↦
        rw (found, upsert)
          (get_override-replace_row k (changed_row old.id now c) old rows h refl found)
  ]

  module _ (fresh : IsFresh new_id) where
    pub IsTable-upsert :
        (now : ℕ) (c : SettingChange) (rows : List PolicySetting)
        → IsTable rows
        → IsTable (upsert new_id now c (get_override c.key rows) rows).1
    unfolding upsert changed_row
    IsTable-upsert now c rows h = elim (Option-cases (get_override c.key rows)) [
      | inl missing ↦
          rw (missing, upsert)
            (IsTable-append _ rows h
              (All-of_map (λ i. i ≢ new_id (map (λ (x : PolicySetting). x.id) rows))
                (λ (x : PolicySetting). x.id) rows (fresh _))
              (get_override-none c.key rows missing))
      | inr (old, found) ↦
          rw (found, upsert) (IsTable-replace_row (changed_row old.id now c) old rows h refl found)
    ]

  pub All-upsert {κ} :
      (P : PolicySetting → Type κ) (now : ℕ) (c : SettingChange) (found : Option PolicySetting)
      (rows : List PolicySetting)
      → ((id : ℕ) → P (changed_row id now c))
      → All P rows
      → All P (upsert new_id now c found rows).1
  unfolding upsert
  All-upsert P now c none rows p h = All-append P rows _ h (p _, tt)
  All-upsert P now c (some old) rows p h = All-replace_row P (changed_row old.id now c) rows (p _) h

  -- The row that an upsert writes has the new value.
  pub upsert-value :
      (now : ℕ) (c : SettingChange) (found : Option PolicySetting) (rows : List PolicySetting)
      → (upsert new_id now c found rows).0.value ≡ c.value
  unfolding upsert changed_row
  upsert-value now c none rows = refl
  upsert-value now c (some old) rows = refl
