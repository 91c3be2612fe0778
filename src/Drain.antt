-- ===== src/Drain.antt =====
-- `src/features/sync/pending-remote-changes.helpers.ts` and `remote-change-drain.helpers.ts`: the
-- staging table of remote changes, and the pass that applies it.
--
-- `ORDER BY timestamp` is a stable sort of the rows in the order of their ids.
pub mod Entries
pub mod Kept
use autoreas_mobile.Prelude.{
  ℕ, suc, ◌+◌, String, Bool, true, false, not, ◌&&◌, Option, none, some, List, [], ◌∷◌, ◌++◌, any,
  map, ◌==◌, if◌then◌else◌, includes, leb,
}
use autoreas_mobile.Sql.{delete_where}
use autoreas_mobile.Sql.Order.{sort_by}
use autoreas_mobile.Database.{
  AnimeRow, JsonText, RemoteAnimeChange, PendingRemoteChange, Database, OperationLogRow,
}
use autoreas_mobile.Merge.Apply.{
  MergeContext, MergeDecision, apply, delete_row, drop_stale, defer_outbox, decide_merge, is_delete,
  load_guard_map, load_pending_outbox_record_ids, ApplyRemoteChangesResult, apply_remote_changes,
}

-- The rows that `stagePendingRemoteChanges` inserts, with the ids that AUTOINCREMENT gives.
unfoldable pub staged_rows : ℕ → ℕ → List RemoteAnimeChange → List PendingRemoteChange
staged_rows id created_at [] = []
staged_rows id created_at (change ∷ changes) =
    record { staging_id = id; change = change; created_at = created_at }
    ∷ staged_rows (id + 1) created_at changes

abbrev pub length_of : List RemoteAnimeChange → ℕ
length_of [] = 0
length_of (c ∷ cs) = suc (length_of cs)

-- `stagePendingRemoteChanges`
unfoldable pub stage_pending_remote_changes : List RemoteAnimeChange → ℕ → Database → Database
unfolding staged_rows
stage_pending_remote_changes changes created_at db = record db {
  pending_remote_changes =
      db.pending_remote_changes ++ staged_rows db.next_staging_id created_at changes;
  next_staging_id = db.next_staging_id + length_of changes;
}

-- `loadPendingRemoteChanges`
unfoldable pub load_pending_remote_changes : Database → List PendingRemoteChange
load_pending_remote_changes db =
    sort_by (λ a b. leb a.change.timestamp b.change.timestamp) db.pending_remote_changes

-- `deletePendingRemoteChanges`
unfoldable pub delete_pending_remote_changes : List ℕ → Database → Database
delete_pending_remote_changes staging_ids db = record db {
  pending_remote_changes =
      delete_where (λ row. includes staging_ids row.staging_id) db.pending_remote_changes;
}

pub record MergePassEntry : Type 0 where
  pub staging_id : Option ℕ
  pub change : RemoteAnimeChange

abbrev pub is_defer_outbox : MergeDecision → Bool
is_defer_outbox defer_outbox = true
is_defer_outbox _ = false

-- The test on `other` in `isKeptDeferred`: a delete of the same anime, no earlier than the entry.
abbrev pub supersedes : MergePassEntry → MergePassEntry → Bool
supersedes entry other =
    is_delete other.change.change_type
    && (other.change.record_id == entry.change.record_id)
    && leb entry.change.timestamp other.change.timestamp

-- `isKeptDeferred`
unfoldable pub is_kept_deferred : MergePassEntry → List MergePassEntry → MergeContext → Bool
is_kept_deferred entry entries ctx =
    is_defer_outbox (decide_merge entry.change ctx) && not (any (supersedes entry) entries)

abbrev pub staged_entry : PendingRemoteChange → MergePassEntry
staged_entry row = record { staging_id = some row.staging_id; change = row.change }

abbrev pub incoming_entry : RemoteAnimeChange → MergePassEntry
incoming_entry change = record { staging_id = none; change = change }

-- `entries` of `applyStagedAndIncomingRemoteChanges`
unfoldable pub pass_entries :
    List PendingRemoteChange → List RemoteAnimeChange → List MergePassEntry
pass_entries staged incoming =
    sort_by (λ a b. leb a.change.timestamp b.change.timestamp)
      (map staged_entry staged ++ map incoming_entry incoming)

abbrev pub add_consumed : Option ℕ → Bool → List ℕ → List ℕ
add_consumed (some id) false ids = id ∷ ids
add_consumed _ _ ids = ids

abbrev pub add_kept :
    Option ℕ → Bool → RemoteAnimeChange → List RemoteAnimeChange → List RemoteAnimeChange
add_kept none true change kept = change ∷ kept
add_kept _ _ change kept = kept

-- The two lists that the loop over `entries` fills.
unfoldable pub consumed_staging_ids :
    List MergePassEntry → MergeContext → List MergePassEntry → List ℕ
consumed_staging_ids all ctx [] = []
consumed_staging_ids all ctx (entry ∷ entries) =
    add_consumed entry.staging_id (is_kept_deferred entry all ctx)
      (consumed_staging_ids all ctx entries)

unfoldable pub kept_incoming :
    List MergePassEntry → MergeContext → List MergePassEntry → List RemoteAnimeChange
kept_incoming all ctx [] = []
kept_incoming all ctx (entry ∷ entries) =
    add_kept entry.staging_id (is_kept_deferred entry all ctx) entry.change
      (kept_incoming all ctx entries)

abbrev pub pass_context : List AnimeRow → List OperationLogRow → MergeContext
pass_context animes log = record {
  guard_by_record_id = load_guard_map animes;
  pending_outbox_record_ids = load_pending_outbox_record_ids log;
}

-- `applyStagedAndIncomingRemoteChanges`. Deleting no rows and staging no rows change nothing, so
-- the two `length > 0` tests are left out.
unfoldable pub apply_staged_and_incoming :
    JsonText → List RemoteAnimeChange → ℕ → Database → ApplyRemoteChangesResult × Database
unfolding consumed_staging_ids kept_incoming is_kept_deferred delete_pending_remote_changes
    stage_pending_remote_changes pass_entries load_pending_remote_changes
apply_staged_and_incoming json incoming now db =
    let entries = pass_entries (load_pending_remote_changes db) incoming in
    let ctx = pass_context db.animes db.operation_log in
    let (result, animes) =
      apply_remote_changes json (map (λ entry. entry.change) entries) ctx db.animes in
    (
      result,
      stage_pending_remote_changes (kept_incoming entries ctx entries) now (
          delete_pending_remote_changes (consumed_staging_ids entries ctx entries)
            (record db { animes = animes })),
    )

abbrev pub drain_staged :
    JsonText → List PendingRemoteChange → ℕ → Database → ApplyRemoteChangesResult × Database
drain_staged json [] now db = (record { applied = 0; dropped = 0; deferred = 0; rejected = 0 }, db)
drain_staged json (row ∷ rows) now db = apply_staged_and_incoming json [] now db

-- `drainPendingRemoteChanges`
unfoldable pub drain_pending_remote_changes :
    JsonText → ℕ → Database → ApplyRemoteChangesResult × Database
unfolding apply_staged_and_incoming
drain_pending_remote_changes json now db = drain_staged json (load_pending_remote_changes db) now db
