-- ===== src/Merge/Apply.antt =====
-- `merge-decision.helpers.ts`, `merge-context.helpers.ts` and `apply-remote-changes.helpers.ts`:
-- what becomes of each remote change.
use autoreas_mobile.Prelude.{
  ℕ, ◌+◌, String, Bool, true, false, ◌&&◌, Option, none, some, List, [], ◌∷◌, map, filterb, ◌==◌,
  if◌then◌else◌, contains, is_empty,
}
use autoreas_mobile.Sql.{delete_where}
use autoreas_mobile.Database.{
  AnimeRow, Anime, JsonText, RemoteAnimeChange, ChangeType, create, delete, OperationLogRow,
  OperationStatus, pending, processing,
}
use autoreas_mobile.Database.Tables.{has_id, find_anime, apply_anime_partial}
use autoreas_mobile.Database.Upsert.{upsert_anime}
use autoreas_mobile.Merge.Fields.{build_partial_update, is_stale}

-- `ANIME_UPDATE_OPERATION`
abbrev pub anime_update_operation : String
anime_update_operation = "update"

pub data MergeDecision : Type 0 where
  apply : MergeDecision
  delete_row : MergeDecision
  drop_stale : MergeDecision
  defer_outbox : MergeDecision

-- `guardByRecordId` is a lookup: a missing entry and a NULL guard both read as `none`.
pub record MergeContext : Type 0 where
  pub guard_by_record_id : String → Option ℕ
  pub pending_outbox_record_ids : List String

abbrev pub is_delete : ChangeType → Bool
is_delete delete = true
is_delete _ = false

-- `decideMerge`: delete, then outbox protection, then staleness.
unfoldable pub decide_merge : RemoteAnimeChange → MergeContext → MergeDecision
unfolding is_stale
decide_merge change ctx =
    if is_delete change.change_type
    then delete_row
    else if contains ctx.pending_outbox_record_ids change.record_id
    then defer_outbox
    else if is_stale change.timestamp (ctx.guard_by_record_id change.record_id)
    then drop_stale
    else apply

abbrev pub row_guard : Option AnimeRow → Option ℕ
row_guard none = none
row_guard (some row) = row.last_applied_change_ms

-- `loadGuardMap`
unfoldable pub load_guard_map : List AnimeRow → String → Option ℕ
load_guard_map animes id = row_guard (find_anime animes id)

abbrev pub is_unconfirmed : OperationStatus → Bool
is_unconfirmed pending = true
is_unconfirmed processing = true
is_unconfirmed _ = false

-- `loadPendingOutboxRecordIds`: the animes with an unconfirmed `update` row.
unfoldable pub load_pending_outbox_record_ids : List OperationLogRow → List String
load_pending_outbox_record_ids log =
    map (λ row. row.anime_id)
      (filterb (λ row. row.operation == anime_update_operation && is_unconfirmed row.status) log)

pub data AcceptedChangeOutcome : Type 0 where
  applied rejected skipped : AcceptedChangeOutcome

pub record ApplyRemoteChangesResult : Type 0 where
  pub applied : ℕ
  pub dropped : ℕ
  pub deferred : ℕ
  pub rejected : ℕ

module _ (json : JsonText) where
  -- The `update` branch of `applyAcceptedChange`, by the local row found.
  unfoldable pub apply_update :
      RemoteAnimeChange
      → Anime
      → Option AnimeRow
      → List AnimeRow
      → AcceptedChangeOutcome × List AnimeRow
  apply_update change snapshot none animes =
      (applied, upsert_anime json snapshot (some change.timestamp) none animes)
  apply_update change snapshot (some row) animes =
      if is_empty change.changed_fields then (rejected, animes) else (
        applied,
        apply_anime_partial change.record_id
            (build_partial_update json change.changed_fields snapshot).columns change.timestamp
            animes,
      )

  abbrev pub apply_snapshot :
      RemoteAnimeChange
      → Option Anime
      → ChangeType
      → List AnimeRow
      → AcceptedChangeOutcome × List AnimeRow
  apply_snapshot change none type animes = (skipped, animes)
  apply_snapshot change (some snapshot) create animes =
      (applied, upsert_anime json snapshot (some change.timestamp) none animes)
  apply_snapshot change (some snapshot) type animes =
      apply_update change snapshot (find_anime animes change.record_id) animes

  -- `applyAcceptedChange`
  unfoldable pub apply_accepted_change :
      RemoteAnimeChange → List AnimeRow → AcceptedChangeOutcome × List AnimeRow
  unfolding apply_update
  apply_accepted_change change animes =
      apply_snapshot change change.snapshot change.change_type animes

  abbrev pub count_outcome :
      AcceptedChangeOutcome → ApplyRemoteChangesResult → ApplyRemoteChangesResult
  count_outcome applied r = record r { applied = r.applied + 1 }
  count_outcome rejected r = record r { rejected = r.rejected + 1 }
  count_outcome skipped r = r

  -- The `switch` in the loop of `applyRemoteChanges`.
  unfoldable pub apply_decision :
      MergeDecision
      → RemoteAnimeChange
      → ApplyRemoteChangesResult
      → List AnimeRow
      → ApplyRemoteChangesResult × List AnimeRow
  unfolding apply_accepted_change delete_where
  apply_decision delete_row change r animes =
      (record r { applied = r.applied + 1 }, delete_where (has_id change.record_id) animes)
  apply_decision apply change r animes =
      let (outcome, animes') = apply_accepted_change change animes in
      (count_outcome outcome r, animes')
  apply_decision drop_stale change r animes = (record r { dropped = r.dropped + 1 }, animes)
  apply_decision defer_outbox change r animes = (record r { deferred = r.deferred + 1 }, animes)

  unfoldable pub apply_from :
      ApplyRemoteChangesResult
      → List RemoteAnimeChange
      → MergeContext
      → List AnimeRow
      → ApplyRemoteChangesResult × List AnimeRow
  apply_from r [] ctx animes = (r, animes)
  apply_from r (change ∷ changes) ctx animes =
      let (r', animes') = apply_decision (decide_merge change ctx) change r animes in
      apply_from r' changes ctx animes'

  -- `applyRemoteChanges`
  unfoldable pub apply_remote_changes :
      List RemoteAnimeChange
      → MergeContext
      → List AnimeRow
      → ApplyRemoteChangesResult × List AnimeRow
  unfolding apply_from
  apply_remote_changes =
      apply_from (record { applied = 0; dropped = 0; deferred = 0; rejected = 0 })
