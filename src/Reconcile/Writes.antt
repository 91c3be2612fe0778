-- ===== src/Reconcile/Writes.antt =====
-- `applyReconcileResponseWrites` of `src/features/sync/reconcile-round.helpers.ts`, and the cursor of
-- `src/features/sync/last-changelog.helpers.ts`.
pub mod Release
pub mod Cursor
use autoreas_mobile.Prelude.{
  ℕ, String, Bool, true, false, Option, none, some, List, [], ◌∷◌, ltb, leb, max, get_or,
  if◌then◌else◌,
}
use autoreas_mobile.Database.{
  Database, BridgeConfig, JsonText, OperationLogRow, RemoteAnimeChange, dead_letter, synced,
  pending,
}
use autoreas_mobile.Sql.{update_where}
use autoreas_mobile.Database.Tables.{apply_anime_bridge_token}
use autoreas_mobile.Drain.{apply_staged_and_incoming}
use autoreas_mobile.Outbox.Claim.{OutboxClaim, held_operations_where, write_held_status}
use autoreas_mobile.Reconcile.Conflict.{ConflictOutcome}
use autoreas_mobile.Reconcile.Tokens.{ConfirmedAnimeToken, persist_confirmed_anime_tokens}

-- `MAX_REASONABLE_CHANGELOG_ID`
abbrev pub max_reasonable_changelog_id : ℕ
max_reasonable_changelog_id = 1000000000000

-- `getLastChangelogId`
unfoldable pub get_last_changelog_id : BridgeConfig → ℕ
get_last_changelog_id config =
    let value = get_or config.last_changelog_id 0 in
    if leb value max_reasonable_changelog_id then value else 0

-- `shouldPersistLastChangelogId`
unfoldable pub should_persist_last_changelog_id : ℕ → ℕ → Bool
should_persist_last_changelog_id current next = ltb current next

-- `forwardOnlyChangelogCursor`: the column's own value is the one compared.
unfoldable pub forward_only_changelog_cursor : ℕ → BridgeConfig → ℕ
forward_only_changelog_cursor next config = max (get_or config.last_changelog_id 0) next

pub record ApplyReconcileResponseWritesParams : Type 0 where
  pub normalized_changes : List RemoteAnimeChange
  pub confirmed_anime_tokens : List ConfirmedAnimeToken
  pub conflict_outcomes : List ConflictOutcome
  pub dead_letter_ids : List ℕ
  pub confirmed_ids : List ℕ
  pub remaining_unconfirmed_ids : List ℕ
  pub last_changelog_id : ℕ
  pub next_last_changelog_id : ℕ
  pub season_mode : Option Bool
  pub claim : OutboxClaim

-- The loop over `conflictOutcomes`.
unfoldable pub write_conflict_outcomes : List ConflictOutcome → OutboxClaim → Database → Database
unfolding held_operations_where apply_anime_bridge_token
write_conflict_outcomes [] claim db = db
write_conflict_outcomes (outcome ∷ outcomes) claim db =
    write_conflict_outcomes outcomes claim (record db {
      animes = apply_anime_bridge_token outcome.anime_id outcome.bridge_modified_at db.animes;
      operation_log =
          update_where (held_operations_where (outcome.operation_id ∷ []) claim)
            (λ (row : OperationLogRow). record row {
              status = outcome.status;
              conflict_attempt_count = outcome.conflict_attempt_count;
              claim_owner = none;
              claimed_at = none;
            })
            db.operation_log;
    })

unfoldable pub write_cursor : ℕ → ℕ → BridgeConfig → BridgeConfig
unfolding should_persist_last_changelog_id forward_only_changelog_cursor
write_cursor last next config =
    if should_persist_last_changelog_id last next
    then record config { last_changelog_id = some (forward_only_changelog_cursor next config) }
    else config

abbrev pub write_season_mode : Option Bool → BridgeConfig → BridgeConfig
write_season_mode none config = config
write_season_mode (some mode) config = record config { season_mode = mode }

-- The three bulk status writes; writing an empty list of ids changes nothing.
unfoldable pub write_statuses :
    ApplyReconcileResponseWritesParams → List OperationLogRow → List OperationLogRow
unfolding write_held_status
write_statuses p log = write_held_status p.remaining_unconfirmed_ids p.claim pending (
    write_held_status p.confirmed_ids p.claim synced
      (write_held_status p.dead_letter_ids p.claim dead_letter log))

abbrev pub write_tokens : List ConfirmedAnimeToken → Database → Database
write_tokens tokens db = record db { animes = persist_confirmed_anime_tokens tokens db.animes }

-- `applyReconcileResponseWrites`
unfoldable pub apply_reconcile_response_writes :
    JsonText → ApplyReconcileResponseWritesParams → ℕ → Database → Database
unfolding write_statuses write_cursor write_conflict_outcomes
apply_reconcile_response_writes json p now db =
    let pulled = (apply_staged_and_incoming json p.normalized_changes now db).1 in
    let settled =
      write_conflict_outcomes p.conflict_outcomes p.claim
        (write_tokens p.confirmed_anime_tokens pulled) in
    record settled {
      operation_log = write_statuses p settled.operation_log;
      bridge_config =
          write_season_mode p.season_mode
            (write_cursor p.last_changelog_id p.next_last_changelog_id settled.bridge_config);
    }
