-- ===== src/Analysis.antt =====
-- app/analysis: the scoring of a message.
pub mod Patterns
pub mod Checks
pub mod Urls
pub mod Content
pub mod Scores
pub mod Prompt
pub mod Response
pub mod Llm
pub mod Runs
pub mod Service
