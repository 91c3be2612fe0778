-- ===== src/Mutation.antt =====
-- `src/features/animes/`: the chapter gestures, from the patch to the stored row and the outbox.
pub mod Patch
pub mod Chapters
pub mod Write
pub mod Stored
pub mod Durable
