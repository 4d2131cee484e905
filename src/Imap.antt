-- ===== src/Imap.antt =====
-- app/proxies/imap: the read-only IMAP proxy.
pub mod Auth
pub mod Folders
pub mod Args
pub mod Sets
pub mod Fetch
pub mod Server
