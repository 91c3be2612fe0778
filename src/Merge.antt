-- ===== src/Merge.antt =====
-- `src/features/sync/merge/`: the one boundary that every remote change of an anime crosses.
pub mod Fields
pub mod Columns
pub mod Snapshot
pub mod Resync
pub mod Apply
pub mod Protection
pub mod Redelivery
pub mod Counts
