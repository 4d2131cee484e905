-- ===== src/Mailboxes.antt =====
-- app/mailboxes: the profiles of upstream mailboxes, and the views of what has been synced.
pub mod Profiles
pub mod Connectivity
pub mod Ownership
pub mod Outcome
pub mod Views
