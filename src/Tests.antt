-- ===== src/Tests.antt =====
-- Witnesses: each theorem on a small library of two animes.
pub mod Data
mod Merge
mod Outbox
mod Mutation
mod Projection
mod Reconcile
mod Cycle
mod Flush
mod Foreground
mod Unresolved
mod Visible
