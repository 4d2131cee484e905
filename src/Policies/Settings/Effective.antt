-- ===== src/Policies/Settings/Effective.antt =====
-- app/policies/service.py, `get_effective_policy`: the values that the overrides give.
use text.Mathlib.Text.{◌==◌ as str_eq}
use text.Mathlib.TextEquality.{eq_iff}
use mind_wall.Prelude.{
  ℕ, String, ◌≡◌, ◌⊎◌, refl, subst, inl, inr, true, List, [], ◌∷◌, All, Bool-cases, Option-cases,
  Result-cases, is_some, if◌then◌else◌, ok,
}
use mind_wall.Models.Numbers.{FloatOps, FloatLaws}
use mind_wall.Wire.Numerals.{pos}
use mind_wall.Models.Settings.{PolicySetting}
use mind_wall.Models.Session.{Session, NewId, IsFresh, commit}
use mind_wall.Audit.{record_event}
use mind_wall.Policies.Settings.{
  TextOps, SettingType, bool_type, float_type, int_type, Value, bool_value, float_value, int_value,
  SettingChange, get_meta, editable_settings, type_of, validate_value, check_type, cast, get_value,
  save_setting, get_override, changed_row, write_setting, get_all_settings, PolicyConfig,
  EffectivePolicy, get_effective_policy,
}
use mind_wall.Policies.Settings.Casts.{Fits, type_of-IsBounded, cast-Fits}
use mind_wall.Policies.Settings.Rows.{
  IsTable, get_override-All, get_override-upsert, upsert-value, All-upsert,
}
use mind_wall.Policies.Settings.Overrides.{
  accepts, save_setting_exact, save_setting-refines, save_all,
}

module _ (text : TextOps) (ops : FloatOps) where
  abbrev pub IsValidRow : PolicySetting → Type 0
  IsValidRow row = validate_value text ops row.key row.value ≡ ok tt

  -- The default, or a value of the type within its bounds.
  abbrev pub Allowed : SettingType → Value → Value → Type 0
  Allowed t default x = (x ≡ default) ⊎ Fits text ops t x

  -- A lookup among valid rows returns.
  get_value-Allowed :
      FloatLaws ops
      → (rows : List PolicySetting) (key : String) (default : Value) → All IsValidRow rows
      → (x : Value) × (get_value text ops rows key default ≡ ok x)
        × Allowed (type_of text ops key) default x
  unfolding get_value validate_value
  get_value-Allowed laws rows key default h = elim (Option-cases (get_override key rows)) [
    | inl missing ↦ (default, rw (missing, get_value) refl, inl refl)
    | inr (row, found) ↦
        (let (valid, same) = get_override-All IsValidRow key rows h found in
          let (x, value, fits) =
            cast-Fits text ops laws (type_of text ops key) row.value
              (type_of-IsBounded text ops laws key)
              (subst (λ k. check_type text ops (type_of text ops k) row.value ≡ ok tt) same
                valid) in
          (x, rw (found, get_value) value, inr fits))
  ]

  abbrev pub unit_interval : SettingType
  unit_interval = float_type (ops.decimal 0 1) (ops.decimal 10 1)

  -- What holds of the merged policy: each field is the default, or of its declared type and within
  -- the bounds.
  pub record IsMerged (cfg : PolicyConfig) (p : EffectivePolicy) : Type 0 where
    pub llm_enabled : Allowed bool_type (bool_value cfg.llm_enabled) p.llm_enabled
    pub analysis_enabled : Allowed bool_type (bool_value cfg.analysis_enabled) p.analysis_enabled
    pub quarantine_soft_hold :
        Allowed bool_type (bool_value cfg.quarantine_soft_hold) p.quarantine_soft_hold
    pub allow :
        Allowed unit_interval (float_value cfg.verdict_threshold_allow) p.verdict_threshold_allow
    pub allow_with_banner :
        Allowed unit_interval
          (float_value cfg.verdict_threshold_allow_with_banner)
          p.verdict_threshold_allow_with_banner
    pub soft_hold :
        Allowed unit_interval
          (float_value cfg.verdict_threshold_soft_hold)
          p.verdict_threshold_soft_hold
    pub quarantine :
        Allowed unit_interval
          (float_value cfg.verdict_threshold_quarantine)
          p.verdict_threshold_quarantine
    pub batch_size :
        Allowed
          (int_type (pos 1) (pos 500))
          (int_value cfg.imap_sync_batch_size)
          p.imap_sync_batch_size

  -- With valid rows the policy is there, and is merged.
  get_effective_policy-IsMerged :
      FloatLaws ops
      → (cfg : PolicyConfig) (s : Session) → All IsValidRow s.work.policy_settings
      → (p : EffectivePolicy) × (get_effective_policy text ops cfg s ≡ ok p) × IsMerged cfg p
  unfolding get_effective_policy get_all_settings type_of get_meta editable_settings
  get_effective_policy-IsMerged laws cfg s h =
      let get = λ (key : String) (default : Value).
        get_value-Allowed laws s.work.policy_settings key default h in
      let (a, ea, fa) = get "llm_enabled" (bool_value cfg.llm_enabled) in
      let (b, eb, fb) = get "analysis_enabled" (bool_value cfg.analysis_enabled) in
      let (c, ec, fc) = get "quarantine_soft_hold" (bool_value cfg.quarantine_soft_hold) in
      let (d, ed, fd) = get "verdict_threshold_allow" (float_value cfg.verdict_threshold_allow) in
      let (e, ee, fe) =
        get "verdict_threshold_allow_with_banner"
          (float_value cfg.verdict_threshold_allow_with_banner) in
      let (f, ef, ff) =
        get "verdict_threshold_soft_hold" (float_value cfg.verdict_threshold_soft_hold) in
      let (g, eg, fg) =
        get "verdict_threshold_quarantine" (float_value cfg.verdict_threshold_quarantine) in
      let (n, en, fn) = get "imap_sync_batch_size" (int_value cfg.imap_sync_batch_size) in
      (
        record {
          llm_enabled = a;
          analysis_enabled = b;
          quarantine_soft_hold = c;
          verdict_threshold_allow = d;
          verdict_threshold_allow_with_banner = e;
          verdict_threshold_soft_hold = f;
          verdict_threshold_quarantine = g;
          imap_sync_batch_size = n;
          overrides = s.work.policy_settings;
        },
        rw (ea, eb, ec, ed, ee, ef, eg, en, get_effective_policy) refl,
        record {
          llm_enabled = fa;
          analysis_enabled = fb;
          quarantine_soft_hold = fc;
          allow = fd;
          allow_with_banner = fe;
          soft_hold = ff;
          quarantine = fg;
          batch_size = fn;
        },
      )

  accepts-valid :
      (c : SettingChange)
      → accepts text ops c ≡ true
      → validate_value text ops c.key c.value ≡ ok tt
  accepts-valid c a = elim (Result-cases (validate_value text ops c.key c.value)) [
    | inl (tt, valid) ↦ valid
    | inr (e, invalid) ↦ elim (Bool-cases (is_some (get_meta c.key (editable_settings ops)))) [
      | inl known ↦ (let a' = rw (known, invalid) at a in cc)
      | inr unknown ↦ (let a' = rw unknown at a in cc)
    ]
  ]

  module _ (new_id : NewId) where
    -- What is saved is read back: after a change that returns, its key has the cast of the saved value
    -- and every other key what it had. The keys and ids of the table are unique.
    saved_value :
        (now : ℕ) (c : SettingChange) (s : Session) {row : PolicySetting}
        → IsTable s.work.policy_settings
        → (save_setting text ops new_id now c s).0 ≡ ok row
        → (key : String) (default : Value)
        → let t = (save_setting text ops new_id now c s).1 in
          get_value text ops (get_all_settings t) key default ≡ (
            if str_eq c.key key
            then cast text ops (type_of text ops c.key) c.value
            else get_value text ops (get_all_settings s) key default)
    unfolding get_value write_setting record_event commit get_all_settings
    saved_value now c s {row} table saved key default =
        elim (save_setting_exact text ops new_id now c s table) [
          | inr (a, (e, raised)) ↦ (let saved' = rw raised at saved in cc)
          | inl (a, done) ↦
              (let rows = s.work.policy_settings in
                let found = get_override-upsert new_id now c rows key table in
                rw (done, get_value, found)
                  (elim (Bool-cases (str_eq c.key key)) [
                    | inl t ↦
                        rw
                          (
                            t,
                            upsert-value new_id now c (get_override c.key rows) rows,
                            (eq_iff c.key key).0 t,
                          )
                          refl
                    | inr f ↦ rw f refl
                  ]))
        ]

  module _ (new_id : NewId) (fresh : IsFresh new_id) where
    -- A change leaves valid rows.
    save_setting-IsValid :
        (now : ℕ) (c : SettingChange) (s : Session)
        → IsTable s.work.policy_settings
        → All IsValidRow s.work.policy_settings
        → All IsValidRow (save_setting text ops new_id now c s).1.work.policy_settings
    unfolding write_setting record_event commit changed_row
    save_setting-IsValid now c s table h = elim (save_setting_exact text ops new_id now c s table) [
      | inl (a, done) ↦ rw done (
          All-upsert new_id IsValidRow now c (get_override c.key s.work.policy_settings)
            s.work.policy_settings (λ id. accepts-valid c a) h)
      | inr (a, (e, raised)) ↦ rw raised h
    ]

    save_all-IsValid :
        (cs : List (ℕ × SettingChange)) (s : Session)
        → IsTable s.work.policy_settings
        → All IsValidRow s.work.policy_settings
        → All IsValidRow (save_all text ops new_id cs s).1.work.policy_settings
    save_all-IsValid [] s table h = h
    save_all-IsValid ((now, c) ∷ cs) s table h =
        save_all-IsValid cs (save_setting text ops new_id now c s).1
          (save_setting-refines text ops new_id fresh now c s table).1
          (save_setting-IsValid now c s table h)

    -- Whatever changes are tried on a table of valid rows, the merged policy is there, and each of its
    -- fields is the configured default or a value of the declared type: a number within the bounds, or,
    -- for the four thresholds, a NaN. The keys and ids of the table are unique at first, the database
    -- gives fresh ids, and floats compare as in IEEE 754.
    pub effective_after_changes :
        FloatLaws ops
        → (cfg : PolicyConfig) (cs : List (ℕ × SettingChange)) (s : Session)
        → IsTable s.work.policy_settings
        → All IsValidRow s.work.policy_settings
        → (p : EffectivePolicy) × (get_effective_policy text ops cfg
              (save_all text ops new_id cs s).1
            ≡ ok p)
          × IsMerged cfg p
    effective_after_changes laws cfg cs s table h =
        get_effective_policy-IsMerged laws cfg (save_all text ops new_id cs s).1
          (save_all-IsValid cs s table h)
