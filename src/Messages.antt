-- ===== src/Messages.antt =====
-- app/messages: what is read from the HTML of a message, and its URLs.
pub mod HtmlSafe
pub mod Urls
