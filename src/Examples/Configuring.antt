-- ===== src/Examples/Configuring.antt =====
-- The policy settings.
use text.Mathlib.Text.{◌==◌ as str_eq}
use mind_wall.Prelude.{
  ℕ, String, ◌≡◌, true, false, none, some, [], ◌∷◌, List, map, ok, if◌then◌else◌,
}
use mind_wall.Wire.Numerals.{pos}
use mind_wall.Models.Session.{empty_session}
use mind_wall.Policies.Settings.{
  TextOps, SettingChange, PolicyConfig, EffectivePolicy, get_effective_policy,
}
use mind_wall.Policies.Settings.Rows.{IsTable}
use mind_wall.Policies.Settings.Overrides.{
  overrides_of, accepts, assign_all, save_all, save_all-refines,
}
use mind_wall.Policies.Settings.Effective.{IsMerged, effective_after_changes}
use mind_wall.Examples.Concrete.{six_decimals, six_decimals-FloatLaws, after_all, after_all-IsFresh}

-- Texts in lower case, of which the number fifty is one.
abbrev plain : TextOps
plain = record {
  lower = λ t. t;
  int = λ t. if str_eq t "50" then some (pos 50) else none;
  repr = λ t. t;
}

abbrev config : PolicyConfig
config = record {
  llm_enabled = true;
  analysis_enabled = true;
  quarantine_soft_hold = false;
  verdict_threshold_allow = 250000;
  verdict_threshold_allow_with_banner = 450000;
  verdict_threshold_soft_hold = 650000;
  verdict_threshold_quarantine = 850000;
  imap_sync_batch_size = pos 50;
}

abbrev set_to : String → String → SettingChange
set_to key value = record { key = key; value = value; actor_user_id = some 1; note = none }

-- Two changes that are accepted, and two that are not.
abbrev changes : List (ℕ × SettingChange)
changes =
    (1, set_to "llm_enabled" "no")
    ∷ (2, set_to "imap_sync_batch_size" "50")
    ∷ (3, set_to "secret_key" "x")
    ∷ (4, set_to "llm_enabled" "maybe")
    ∷ []

save_all-refines_example :
    ((save_all plain six_decimals after_all changes empty_session).0
      ≡ map (λ (c : ℕ × SettingChange). accepts plain six_decimals c.1) changes)
    × IsTable (save_all plain six_decimals after_all changes empty_session).1.work.policy_settings
    × (overrides_of (save_all plain six_decimals after_all changes empty_session).1
        ≡ assign_all plain six_decimals changes (overrides_of empty_session))
save_all-refines_example =
    save_all-refines plain six_decimals after_all after_all-IsFresh changes empty_session tt

effective_after_changes_example :
    (p : EffectivePolicy) × (get_effective_policy plain six_decimals config
        (save_all plain six_decimals after_all changes empty_session).1
      ≡ ok p)
    × IsMerged plain six_decimals config p
effective_after_changes_example =
    effective_after_changes plain six_decimals after_all after_all-IsFresh six_decimals-FloatLaws
      config changes empty_session tt tt

abbrev llm_off : SettingChange
llm_off = set_to "llm_enabled" "no"
