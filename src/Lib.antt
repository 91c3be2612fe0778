-- ===== src/Lib.antt =====
-- Autoreas Mobile: the offline-first core of the app, an anime library that is edited on the phone
-- and kept in step with a desktop "bridge".
--
-- The parts. A chapter gesture writes the anime's row and appends an operation to the outbox
-- (`operation_log`) in one transaction, while a transient overlay shows its value at once. A sync
-- cycle claims a batch of the outbox, sends it, and settles the bridge's answer: each operation is
-- confirmed, given up or queued again, and the remote changes go through the merge, which leaves
-- every anime with an unconfirmed edit alone and stages what it defers. Two runtimes, JS and
-- Kotlin, share the tables; a claim keeps them apart. Cycles are asked for by flushes, which never
-- overlap; keys that a cycle gave up wait for a person's choice.
--
-- The files, by the code they are about (paths from the root of the repository):
--   Prelude       names that every file shares; Prelude/Tests Boolean tests, Prelude/Lists lists
--   Sql           UPDATE, DELETE and SELECT on a table as the list of its rows; Sql/Order ORDER BY
--   Database      `src/infrastructure/db/schema/database.schema.ts`, the tables' rows and the
--                 domain `Anime`; Tables and Upsert are `src/infrastructure/db/anime-repository`
--   Merge         `src/features/sync/merge`: Fields `field-merge.helpers.ts`, Apply
--                 `merge-decision.helpers.ts`, `merge-context.helpers.ts` and
--                 `apply-remote-changes.helpers.ts`; the other children are proofs
--   Drain         `src/features/sync/pending-remote-changes.helpers.ts` and
--                 `remote-change-drain.helpers.ts`
--   Outbox        Backlog `src/features/sync/operation-log-retention.helpers.ts`, Claim
--                 `outbox-claim.helpers.ts`
--   Mutation      Patch and Write `src/features/animes/anime-mutation.helpers.ts`
--   Projection    `src/features/animes/anime-mutation-projection.helpers.ts`
--   Reconcile     `src/features/sync`: Conflict `reconcile-conflict.helpers.ts`, Tokens
--                 `applied-operation-token.helpers.ts`, Request `reconcile-request.helpers.ts`,
--                 Confirmation `reconcile-confirmation.helpers.ts`, Writes and Round
--                 `reconcile-round.helpers.ts` with `last-changelog.helpers.ts` and
--                 `unresolved-supersede.helpers.ts`
--   Season        `src/features/sync/season-rating-event.helpers.ts`, the write of
--                 `season-rating-intent.helpers.ts`, and the ratings of
--                 `unresolved-supersede.helpers.ts`
--   Cycle         `src/features/sync`, one cycle: MissingTokens `missing-token.helpers.ts`, Send
--                 `reconcile-round.helpers.ts`, Ratings `season-rating-round.helpers.ts`, Chain
--                 `reconcile.helpers.ts`; Held, Ends and the other children are proofs
--   Unresolved    `src/features/sync/unresolved-key.helpers.ts`; Resolve
--                 `unresolved-resolution.helpers.ts`
--   Heal          `src/features/sync/full-resync.helpers.ts`
--   Flush         `src/features/sync/sync-flush.helpers.ts`; Queue is its specification
--   Runtime       `src/features/sync/sync-runtime-status-patch.helpers.ts`
--   Foreground    `src/features/sync/sync-facade.helpers.ts` and `snapshot-heal.helpers.ts`: the
--                 cycle that joins Cycle, Heal, Connection and Runtime
--   Connection    `src/features/sync/sync-connection-store` and `bridge-reachability.helpers.ts`
--   Visible       `src/features/sync/sync-visible-status.helpers.ts`
--   Tests         a small library of two animes on which every theorem is applied
--
-- State is passed explicitly: a table is the list of its rows, a transaction a function from
-- database to database, the overlay's module variables a record. Names are those of the source in
-- snake case; a helper `f_on`, `f_record` or `f_found` is the rest of `f` after a test of the
-- source. A loop is a recursion on the list it reads, but the chain of rounds runs on fuel, one
-- for each round: no row is claimed for a chain 20000 ms after its claim and every later round has
-- sent a request, so where each request takes a millisecond or more 20001 are enough.
--
-- What a cycle meets is the record `World` of Cycle: the bridge's answer to each request, by the
-- request's number, what others write to the database while it is under way, the time of its
-- answer, and whether the transaction of that answer, or the one of the tokens fetched up to it,
-- fails. The releases after a failure go through: where they fail the source leaves the rows to the
-- expiry of their claim.
--
-- What a foreground cycle meets is the record `Surroundings` of Foreground: the two runs of its
-- sends, its heals, its telemetry, and what happens to the connection meanwhile. The cover sweep that
-- it starts and does not wait for is left out.
--
-- Numbers are natural numbers: times in milliseconds, ids, counts and tokens. Watched chapters are
-- counted in halves. `Math.max(0, n - k)` is the truncated subtraction.
--
-- Parameters: `JSON.stringify` and `JSON.parse` (`JsonText`, `stringify`, `parse`), the zod parse of
-- a stored row (`parse`), and the identity of two JS objects (`is_same_object`).
--
-- Not modelled: the content of requests on the wire and of their ids, the drain of the diagnostics
-- (the number of its requests is a parameter of a cycle), promises (a flush says which run resolves
-- one), the logs, the screens and hooks, the Kotlin modules (their claims are
-- steps of the other runtime in Outbox/Claim/Exclusion, and writes of others in Cycle), and the
-- SQLite engine, whose transactions are atomic.
pub mod Connection
pub mod Cycle
pub mod Database
pub mod Drain
pub mod Flush
pub mod Foreground
pub mod Heal
pub mod Merge
pub mod Mutation
pub mod Outbox
pub mod Prelude
pub mod Projection
pub mod Reconcile
pub mod Runtime
pub mod Season
pub mod Sql
pub mod Tests
pub mod Unresolved
pub mod Visible
