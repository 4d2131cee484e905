-- ===== src/Smtp.antt =====
-- app/proxies/smtp: the submission proxy.
pub mod Delivery
pub mod Lines
pub mod Commands
pub mod Server
