-- ===== src/Policies/Settings/Overrides.antt =====
-- app/policies/service.py, `save_setting`: the table of overrides implements a map from keys to
-- values.
use text.Mathlib.Text.{◌==◌ as str_eq}
use mathlib.Core.Path.{fun_ext}
use mind_wall.Prelude.{
  ℕ, String, ◌≡◌, ◌⊎◌, refl, ap, sym, ◌∙◌, inl, inr, Bool, true, false, ◌&&◌, Option, some, List,
  [], ◌∷◌, map, is_some, Bool-cases, Result-cases, if◌then◌else◌, ok, err, returned,
}
use mind_wall.Models.Numbers.{FloatOps}
use mind_wall.Models.Settings.{PolicySetting}
use mind_wall.Models.Session.{Session, NewId, IsFresh, commit}
use mind_wall.Audit.{record_event}
use mind_wall.Policies.Settings.{
  TextOps, PolicyError, not_editable, SettingChange, get_meta, editable_settings, validate_value,
  check_change, save_setting, get_override, old_value, upsert, write_setting,
}
use mind_wall.Policies.Settings.Rows.{
  IsTable, scalar_one_or_none-select, get_override-upsert, IsTable-upsert, upsert-value,
}

-- The abstract view: what each key is set to, if anything.
abbrev pub Overrides : Type 0
Overrides = String → Option String

abbrev pub overrides_of : Session → Overrides
overrides_of s key = old_value (get_override key s.work.policy_settings)

module _ (text : TextOps) (ops : FloatOps) where
  -- A change is accepted that is of an editable key and a valid value.
  abbrev pub accepts : SettingChange → Bool
  accepts c =
      is_some (get_meta c.key (editable_settings ops))
      && returned (validate_value text ops c.key c.value)

  -- What a change does to the map.
  abbrev pub assign : SettingChange → Overrides → Overrides
  assign c m key = if accepts c && str_eq c.key key then some c.value else m key

  abbrev pub assign_all : List (ℕ × SettingChange) → Overrides → Overrides
  assign_all [] m = m
  assign_all ((now, c) ∷ cs) m = assign_all cs (assign c m)

  assign_accepted :
      (c : SettingChange) (m : Overrides)
      → accepts c ≡ true
      → (k : String) → assign c m k ≡ (if str_eq c.key k then some c.value else m k)
  assign_accepted c m a k = ap (λ b. if b && str_eq c.key k then some c.value else m k) a

  assign_refused :
      (c : SettingChange) (m : Overrides) → accepts c ≡ false → (k : String) → assign c m k ≡ m k
  assign_refused c m a k = ap (λ b. if b && str_eq c.key k then some c.value else m k) a

  check_change-accepts :
      (c : SettingChange) (s : Session)
      → IsTable s.work.policy_settings
      → accepts c ≡ true
      → check_change text ops c s ≡ ok (get_override c.key s.work.policy_settings)
  unfolding check_change
  check_change-accepts c s h a =
      elim (Bool-cases (is_some (get_meta c.key (editable_settings ops)))) [
        | inl known ↦ elim (Result-cases (validate_value text ops c.key c.value)) [
          | inl (u, valid) ↦ rw (known, valid, check_change) (scalar_one_or_none-select c.key _ h)
          | inr (e, invalid) ↦ (let a' = rw (known, invalid) at a in cc)
        ]
        | inr unknown ↦ (let a' = rw unknown at a in cc)
      ]

  check_change-refuses :
      (c : SettingChange) (s : Session)
      → accepts c ≡ false
      → (e : PolicyError) × (check_change text ops c s ≡ err e)
  unfolding check_change
  check_change-refuses c s a =
      elim (Bool-cases (is_some (get_meta c.key (editable_settings ops)))) [
        | inl known ↦ elim (Result-cases (validate_value text ops c.key c.value)) [
          | inl (u, valid) ↦ (let a' = rw (known, valid) at a in cc)
          | inr (e, invalid) ↦ (e, rw (known, invalid, check_change) refl)
        ]
        | inr unknown ↦ (not_editable, rw (unknown, check_change) refl)
      ]

  module _ (new_id : NewId) where
    -- The outcome of each change in turn, and the session after the last.
    abbrev pub save_all : List (ℕ × SettingChange) → Session → List Bool × Session
    save_all [] s = ([], s)
    save_all ((now, c) ∷ cs) s =
        let (r, t) = save_setting text ops new_id now c s in
        let (rs, u) = save_all cs t in (returned r ∷ rs, u)

    -- A change of an editable key to a valid value writes the row and its audit event in one commit;
    -- any other raises and leaves the session as it was. The keys and the ids of the table are unique.
    pub save_setting_exact :
        (now : ℕ) (c : SettingChange) (s : Session)
        → IsTable s.work.policy_settings
        → let found = get_override c.key s.work.policy_settings in
          let (row, t) = write_setting text ops new_id now c s found in
          ((accepts c ≡ true) × (save_setting text ops new_id now c s ≡ (ok row, t)))
          ⊎ ((accepts c ≡ false)
              × ((e : PolicyError) × (save_setting text ops new_id now c s ≡ (err e, s))))
    unfolding save_setting
    save_setting_exact now c s h = elim (Bool-cases (accepts c)) [
      | inl a ↦ inl (a, rw (check_change-accepts c s h a, save_setting) refl)
      | inr a ↦
          (let (e, raised) = check_change-refuses c s a in
            inr (a, (e, rw (raised, save_setting) refl)))
    ]

    -- The value of a key after an upsert.
    changed_value :
        (now : ℕ) (c : SettingChange) (rows : List PolicySetting) (k : String) (b : Bool)
        → old_value (
            if b
            then some (upsert new_id now c (get_override c.key rows) rows).0
            else get_override k rows)
          ≡ (if b then some c.value else old_value (get_override k rows))
    changed_value now c rows k false = refl
    changed_value now c rows k true =
        ap some (upsert-value new_id now c (get_override c.key rows) rows)

    module _ (fresh : IsFresh new_id) where
      pub save_setting-refines :
          (now : ℕ) (c : SettingChange) (s : Session)
          → IsTable s.work.policy_settings
          → let (r, t) = save_setting text ops new_id now c s in
            (returned r ≡ accepts c)
            × IsTable t.work.policy_settings
            × (overrides_of t ≡ assign c (overrides_of s))
      unfolding write_setting record_event commit
      save_setting-refines now c s h = elim (save_setting_exact now c s h) [
        | inl (a, done) ↦
            rw (done, a)
              (
                refl,
                IsTable-upsert new_id fresh now c s.work.policy_settings h,
                fun_ext λ k.
                    ap old_value (get_override-upsert new_id now c s.work.policy_settings k h)
                    ∙ changed_value now c s.work.policy_settings k (str_eq c.key k)
                    ∙ sym (assign_accepted c (overrides_of s) a k),
              )
        | inr (a, (e, raised)) ↦
            rw (raised, a) (refl, h, fun_ext λ k. sym (assign_refused c (overrides_of s) a k))
      ]

      -- Any sequence of changes does to the table what the assignments of the accepted ones do to the
      -- map, and it is those that return. The keys and ids of the table are unique at first, and the
      -- database gives fresh ids.
      pub save_all-refines :
          (cs : List (ℕ × SettingChange)) (s : Session)
          → IsTable s.work.policy_settings
          → let (outcomes, t) = save_all cs s in
            (outcomes ≡ map (λ (c : ℕ × SettingChange). accepts c.1) cs)
            × IsTable t.work.policy_settings
            × (overrides_of t ≡ assign_all cs (overrides_of s))
      save_all-refines [] s h = (refl, h, refl)
      save_all-refines ((now, c) ∷ cs) s h =
          let (answer, table, values) = save_setting-refines now c s h in
          let (outcomes, table', values') =
            save_all-refines cs (save_setting text ops new_id now c s).1 table in
          (cc (answer, outcomes), table', values' ∙ ap (assign_all cs) values)
