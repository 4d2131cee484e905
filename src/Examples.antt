-- ===== src/Examples.antt =====
-- The theorems applied to concrete inputs.
pub mod Concrete
mod Quarantining
mod Reading
mod Submitting
mod Syncing
mod Alerting
mod Configuring
mod Analysing
mod Registering
mod Extracting
