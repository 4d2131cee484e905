-- ===== src/Policies/Settings.antt =====
-- app/policies/service.py: the settings that an admin may override, as texts in a table.
pub mod Rows
pub mod Overrides
pub mod Casts
pub mod Effective
use Prim.Native.String.{◌++◌ as str_append}
use text.Mathlib.Text.{◌==◌ as str_eq}
use mind_wall.Prelude.{
  ℕ, String, Bool, true, false, not, ◌||◌, Option, none, some, List, [], ◌∷◌, ◌++◌, map, ◌==◌,
  select, is_some, if◌then◌else◌, Result, ok, err, ◌>>=◌, ◌>>◌,
}
use mind_wall.Models.Numbers.{Float, FloatOps}
use mind_wall.Wire.Numerals.{ℤ, pos, lt_int}
use mind_wall.Models.Settings.{PolicySetting}
use mind_wall.Models.Session.{Session, NewId, commit}
use mind_wall.Audit.{EventData, record_event}
use mind_wall.Quarantine.{is_given}

-- The type of a setting with its bounds; a key that is not in the table has the type "str".
pub data SettingType : Type 0 where
  bool_type str_type : SettingType
  float_type : (min max : Float) → SettingType
  int_type : (min max : ℤ) → SettingType

pub record SettingMeta : Type 0 where
  pub label : String
  pub description : String
  pub type : SettingType

-- What Python does with texts.
pub record TextOps : Type 0 where
  -- text.lower()
  pub lower : String → String
  -- int(text), `none` where it raises ValueError
  pub int : String → Option ℤ
  -- repr(text)
  pub repr : String → String

-- A value of one of Python's types.
pub data Value : Type 0 where
  bool_value : Bool → Value
  float_value : Float → Value
  int_value : ℤ → Value
  str_value : String → Value

pub data PolicyError : Type 0 where
  -- the two ValueErrors of `save_setting`
  not_editable invalid_value : PolicyError
  -- MultipleResultsFound
  multiple_rows : PolicyError

module _ (ops : FloatOps) where
  open ops use {decimal}

  abbrev threshold : String → String → SettingMeta
  threshold label description = record {
    label = label;
    description = description;
    type = float_type (decimal 0 1) (decimal 10 1);
  }

  abbrev switch : String → String → SettingMeta
  switch label description = record { label = label; description = description; type = bool_type }

  -- `EDITABLE_SETTINGS`.
  unfoldable pub editable_settings : List (String × SettingMeta)
  editable_settings =
      (
        "llm_enabled",
        switch "LLM Enabled"
            "Enable Ollama LLM analysis. When false, only deterministic checks run.",
      )
      ∷ (
        "analysis_enabled",
        switch "Analysis Enabled"
            "Enable the full analysis pipeline. When false, messages are ingested but not analysed.",
      )
      ∷ (
        "quarantine_soft_hold",
        switch "Quarantine SOFT_HOLD Verdicts"
            "When enabled, SOFT_HOLD messages are also sent to quarantine for review.",
      )
      ∷ (
        "verdict_threshold_allow",
        threshold "Allow Threshold" "Risk score upper bound for ALLOW verdict (0.0-1.0).",
      )
      ∷ (
        "verdict_threshold_allow_with_banner",
        threshold "Allow With Banner Threshold"
            "Risk score upper bound for ALLOW_WITH_BANNER verdict (0.0-1.0).",
      )
      ∷ (
        "verdict_threshold_soft_hold",
        threshold "Soft Hold Threshold" "Risk score upper bound for SOFT_HOLD verdict (0.0-1.0).",
      )
      ∷ (
        "verdict_threshold_quarantine",
        threshold "Quarantine Threshold"
            "Risk score upper bound for QUARANTINE verdict (above = ESCALATE_TO_ADMIN).",
      )
      ∷ (
        "imap_sync_batch_size",
        record {
          label = "IMAP Sync Batch Size";
          description = "Maximum number of new messages to fetch per sync run.";
          type = int_type (pos 1) (pos 500);
        },
      )
      ∷ []

-- `settings.get(key)` in such a table.
unfoldable pub get_meta : String → List (String × SettingMeta) → Option SettingMeta
get_meta key [] = none
get_meta key ((k, meta) ∷ rest) = if str_eq k key then some meta else get_meta key rest

-- `get_all_settings`: a dict, in which a later row of a key stands in place of an earlier one.
unfoldable pub get_all_settings : Session → List PolicySetting
get_all_settings s = s.work.policy_settings

-- `overrides.get(key)` in that dict.
unfoldable pub get_override : String → List PolicySetting → Option PolicySetting
get_override key [] = none
get_override key (row ∷ rows) =
    let later = get_override key rows in
    if is_some later then later else if str_eq row.key key then some row else none

module _ (text : TextOps) (ops : FloatOps) where
  open ops use {lt, parse}

  abbrev pub parsed : {A : Type 0} → Option A → Result PolicyError A
  parsed none = err invalid_value
  parsed (some a) = ok a

  abbrev pub one_of : List String → String → Bool
  one_of [] t = false
  one_of (w ∷ ws) t = str_eq w t || one_of ws t

  -- Raises where the test holds.
  abbrev pub refuse : Bool → Result PolicyError (Unit {0})
  refuse true = err invalid_value
  refuse false = ok tt

  -- The cast of `_validate_value`, with the bounds.
  unfoldable pub check_type : SettingType → String → Result PolicyError (Unit {0})
  check_type bool_type value =
      refuse (not (one_of ("0" ∷ "1" ∷ "true" ∷ "false" ∷ "yes" ∷ "no" ∷ []) (text.lower value)))
  check_type (float_type min max) value = do
    fv ← parsed (parse value)
    refuse (lt fv min)
    refuse (lt max fv)
  check_type (int_type min max) value = do
    iv ← parsed (text.int value)
    refuse (lt_int iv min)
    refuse (lt_int max iv)
  check_type str_type value = ok tt

  -- `meta.get("type", "str")` of `EDITABLE_SETTINGS.get(key, {})`.
  unfoldable pub type_of : String → SettingType
  unfolding get_meta editable_settings
  type_of key = elim (get_meta key (editable_settings ops)) [
    | none ↦ str_type
    | some meta ↦ meta.type
  ]

  -- `_validate_value`.
  unfoldable pub validate_value : String → String → Result PolicyError (Unit {0})
  unfolding check_type type_of
  validate_value key value = check_type (type_of key) value

  -- The casts of `_get`.
  unfoldable pub cast : SettingType → String → Result PolicyError Value
  cast bool_type raw = ok (bool_value (one_of ("1" ∷ "true" ∷ "yes" ∷ []) (text.lower raw)))
  cast (float_type min max) raw = do x ← parsed (parse raw); ok (float_value x)
  cast (int_type min max) raw = do n ← parsed (text.int raw); ok (int_value n)
  cast str_type raw = ok (str_value raw)

  -- `_get(key, default)`.
  unfoldable pub get_value : List PolicySetting → String → Value → Result PolicyError Value
  unfolding get_override cast type_of
  get_value overrides key default = elim (get_override key overrides) [
    | none ↦ ok default
    | some row ↦ cast (type_of key) row.value
  ]

-- The static configuration, those fields that can be overridden.
pub record PolicyConfig : Type 0 where
  pub llm_enabled : Bool
  pub analysis_enabled : Bool
  pub quarantine_soft_hold : Bool
  pub verdict_threshold_allow : Float
  pub verdict_threshold_allow_with_banner : Float
  pub verdict_threshold_soft_hold : Float
  pub verdict_threshold_quarantine : Float
  pub imap_sync_batch_size : ℤ

-- Its fields are those of the configuration, each with the value that Python has there.
pub record EffectivePolicy : Type 0 where
  pub llm_enabled : Value
  pub analysis_enabled : Value
  pub quarantine_soft_hold : Value
  pub verdict_threshold_allow : Value
  pub verdict_threshold_allow_with_banner : Value
  pub verdict_threshold_soft_hold : Value
  pub verdict_threshold_quarantine : Value
  pub imap_sync_batch_size : Value
  pub overrides : List PolicySetting

module _ (text : TextOps) (ops : FloatOps) where
  -- `get_effective_policy`.
  unfoldable pub get_effective_policy : PolicyConfig → Session → Result PolicyError EffectivePolicy
  unfolding get_all_settings get_value
  get_effective_policy cfg s = do
    let get = get_value text ops (get_all_settings s)
    llm ← get "llm_enabled" (bool_value cfg.llm_enabled)
    analysis ← get "analysis_enabled" (bool_value cfg.analysis_enabled)
    soft_hold ← get "quarantine_soft_hold" (bool_value cfg.quarantine_soft_hold)
    t_allow ← get "verdict_threshold_allow" (float_value cfg.verdict_threshold_allow)
    t_banner ←
        get "verdict_threshold_allow_with_banner"
          (float_value cfg.verdict_threshold_allow_with_banner)
    t_hold ← get "verdict_threshold_soft_hold" (float_value cfg.verdict_threshold_soft_hold)
    t_quarantine ← get "verdict_threshold_quarantine" (float_value cfg.verdict_threshold_quarantine)
    batch ← get "imap_sync_batch_size" (int_value cfg.imap_sync_batch_size)
    ok (record {
      llm_enabled = llm;
      analysis_enabled = analysis;
      quarantine_soft_hold = soft_hold;
      verdict_threshold_allow = t_allow;
      verdict_threshold_allow_with_banner = t_banner;
      verdict_threshold_soft_hold = t_hold;
      verdict_threshold_quarantine = t_quarantine;
      imap_sync_batch_size = batch;
      overrides = get_all_settings s;
    })

-- The keyword arguments of `save_setting`.
pub record SettingChange : Type 0 where
  pub key : String
  pub value : String
  pub actor_user_id : Option ℕ
  pub note : Option String

abbrev pub with_key : String → PolicySetting → Bool
with_key key row = str_eq row.key key

-- `scalar_one_or_none()`.
abbrev pub scalar_one_or_none : List PolicySetting → Result PolicyError (Option PolicySetting)
scalar_one_or_none [] = ok none
scalar_one_or_none (row ∷ []) = ok (some row)
scalar_one_or_none (row ∷ _ ∷ _) = err multiple_rows

-- The row as it is after the writes.
unfoldable pub changed_row : ℕ → ℕ → SettingChange → PolicySetting
changed_row id now c = record {
  id = id;
  key = c.key;
  value = c.value;
  changed_by_user_id = c.actor_user_id;
  changed_at = some now;
  note = c.note;
}

-- A row that was loaded is written to where it stands.
abbrev pub replace_row : PolicySetting → List PolicySetting → List PolicySetting
replace_row row [] = []
replace_row row (x ∷ xs) =
    let rest = replace_row row xs in if x.id == row.id then row ∷ rest else x ∷ rest

unfoldable pub change_note : TextOps → SettingChange → Option String → Option String
change_note text c old =
    if is_given c.note
    then c.note
    else some (
        str_append "Changed " (
          str_append c.key (
            str_append " from " (
              str_append (elim old [ none ↦ "None" | some t ↦ text.repr t ])
                (str_append " to " (text.repr c.value))))))

unfoldable pub change_event : TextOps → SettingChange → Option String → ℕ → EventData
unfolding change_note
change_event text c old id = record {
  action = "policy.setting_changed";
  target_type = "policy_setting";
  target_id = id;
  actor_user_id = c.actor_user_id;
  from_status = old;
  to_status = some c.value;
  note = change_note text c old;
}

abbrev pub set_rows : List PolicySetting → Session → Session
set_rows rows s = record s { work = record s.work { policy_settings = rows } }

abbrev pub old_value : Option PolicySetting → Option String
old_value none = none
old_value (some row) = some row.value

module _ (new_id : NewId) where
  -- The upsert: the id of the row and the table.
  unfoldable pub upsert :
      ℕ
      → SettingChange
      → Option PolicySetting
      → List PolicySetting
      → PolicySetting × List PolicySetting
  unfolding changed_row
  upsert now c none rows =
      let row = changed_row (new_id (map (λ (x : PolicySetting). x.id) rows)) now c in
      (row, rows ++ row ∷ [])
  upsert now c (some old) rows = let row = changed_row old.id now c in (row, replace_row row rows)

module _ (text : TextOps) (ops : FloatOps) where
  -- The checks of `save_setting`: the row that is to be changed, `none` for a new one.
  unfoldable pub check_change : SettingChange → Session → Result PolicyError (Option PolicySetting)
  unfolding validate_value get_meta editable_settings
  check_change c s =
      if is_some (get_meta c.key (editable_settings ops))
      then (do
        validate_value text ops c.key c.value
        scalar_one_or_none (select (with_key c.key) s.work.policy_settings))
      else err not_editable

module _ (text : TextOps) (ops : FloatOps) (new_id : NewId) where
  -- What follows the checks of `save_setting`: the row, its audit event and the commit.
  unfoldable pub write_setting :
      ℕ → SettingChange → Session → Option PolicySetting → PolicySetting × Session
  unfolding upsert change_event
  write_setting now c s found =
      let (row, rows) = upsert new_id now c found s.work.policy_settings in
      (
        row,
        commit (
            record_event new_id now (change_event text c (old_value found) row.id)
              (set_rows rows s)),
      )

  -- `save_setting`.
  unfoldable pub save_setting :
      ℕ → SettingChange → Session → Result PolicyError PolicySetting × Session
  unfolding check_change write_setting
  save_setting now c s = elim (check_change text ops c s) [
    | err e ↦ (err e, s)
    | ok found ↦ (let (row, t) = write_setting now c s found in (ok row, t))
  ]
