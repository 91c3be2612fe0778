-- ===== src/Reconcile.antt =====
-- A reconcile with the bridge: how its answer is read and what it writes.
pub mod Conflict
pub mod Tokens
pub mod Confirmation
pub mod Request
pub mod Writes
pub mod Round
