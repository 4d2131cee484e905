-- ===== src/Policies.antt =====
-- app/policies: the verdict engine and the editable settings.
pub mod Settings
pub mod Verdicts
