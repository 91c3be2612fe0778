-- ===== src/Outbox.antt =====
-- The outbox (`operation_log`): what a runtime reads of it and how it claims a key.
pub mod Backlog
pub mod Claim
