-- ===== src/Models.antt =====
-- The rows and enums of the database (app/*/models.py, app/policies/constants.py), and the session
-- that the services share.
pub mod Verdicts
pub mod Numbers
pub mod Reviews
pub mod Alerting
pub mod Analysing
pub mod Settings
pub mod Session
pub mod Mailboxes
