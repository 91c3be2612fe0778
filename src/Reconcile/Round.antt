-- ===== src/Reconcile/Round.antt =====
-- What `sendReconcileRound` of `src/features/sync/reconcile-round.helpers.ts` does with an answer that
-- parses, with `resolveSupersededOperations` of `unresolved-supersede.helpers.ts`. The request
-- itself, and the rounds that fail, are outside.
pub mod Settled
use autoreas_mobile.Prelude.{
  ℕ, String, Bool, true, false, not, ◌&&◌, Option, none, some, List, [], ◌∷◌, ◌==◌, map, filterb,
  includes, contains, length, ltb, leb, get_or, if◌then◌else◌,
}
use autoreas_mobile.Sql.{delete_where}
use autoreas_mobile.Database.{
  Database, JsonText, OperationLogRow, RemoteAnimeChange, OperationStatus, dead_letter,
  conflict_exhausted,
}
use autoreas_mobile.Merge.Apply.{anime_update_operation}
use autoreas_mobile.Outbox.Backlog.{has_status}
use autoreas_mobile.Outbox.Claim.{
  OutboxClaim, ids_of, read_held_operation_ids, claim_chain_successors,
}
use autoreas_mobile.Reconcile.Conflict.{
  ReconcileAppliedOperation, ConflictOutcome, ClassifyUnconfirmedOperationsResult,
  classify_unconfirmed_operations,
}
use autoreas_mobile.Reconcile.Tokens.{ConfirmedAnimeToken, collect_confirmed_anime_tokens}
use autoreas_mobile.Reconcile.Request.{JsonObject}
use autoreas_mobile.Reconcile.Confirmation.{ReconcileAnimeChange, get_confirmed_operation_ids}
use autoreas_mobile.Reconcile.Writes.{
  ApplyReconcileResponseWritesParams, apply_reconcile_response_writes,
}

-- `GIVEN_UP_OPERATION_STATUSES`
abbrev pub given_up_operation_statuses : List OperationStatus
given_up_operation_statuses = dead_letter ∷ conflict_exhausted ∷ []

abbrev pub is_superseded_by : OperationLogRow → OperationLogRow → Bool
is_superseded_by operation row =
    (row.anime_id == operation.anime_id)
    && ltb row.id operation.id
    && (row.operation == anime_update_operation)
    && has_status given_up_operation_statuses row

-- `resolveSupersededOperations`, without the report that it returns for the log.
unfoldable pub resolve_superseded_operations :
    List OperationLogRow → List OperationLogRow → List OperationLogRow
resolve_superseded_operations [] log = log
resolve_superseded_operations (operation ∷ operations) log =
    let given_up = ids_of (filterb (is_superseded_by operation) log) in
    resolve_superseded_operations operations (delete_where (λ row. includes given_up row.id) log)

-- The parsed answer, without its `status`, which nothing reads.
pub record ReconcileResponse : Type 0 where
  pub applied_operations : List ReconcileAppliedOperation
  pub bridge_changes : List ReconcileAnimeChange
  pub last_changelog_id : Option ℕ
  pub season_mode : Option Bool

pub record ReconcileRoundContext : Type 0 where
  pub last_changelog_id : ℕ
  pub claim : OutboxClaim
  pub chain_deadline : ℕ

pub record ReconcileRoundOutcome : Type 0 where
  pub sent_count : ℕ
  pub confirmed_count : ℕ
  pub unconfirmed_count : ℕ
  pub next_last_changelog_id : ℕ
  pub successors : List OperationLogRow

module _ (parse : String → Option JsonObject) (context : ReconcileRoundContext)
    (response : ReconcileResponse) (bridge_tokens : String → Option ℕ)
    (pending_ops : List OperationLogRow) where
  abbrev pub confirmed_ids : List ℕ
  confirmed_ids =
      get_confirmed_operation_ids parse pending_ops response.applied_operations
        response.bridge_changes

  abbrev pub unconfirmed_ids : List ℕ
  unconfirmed_ids = ids_of (filterb (λ row. not (includes confirmed_ids row.id)) pending_ops)

  abbrev pub buckets : ClassifyUnconfirmedOperationsResult
  buckets =
      classify_unconfirmed_operations pending_ops response.applied_operations bridge_tokens
        unconfirmed_ids

  abbrev pub still_held : List OperationLogRow → List ℕ
  still_held log = read_held_operation_ids log (ids_of pending_ops) context.claim

  abbrev pub held_anime_ids : List OperationLogRow → List String
  held_anime_ids log =
      map (λ (row : OperationLogRow). row.anime_id)
        (filterb (λ row. includes (still_held log) row.id) pending_ops)

  -- The rows behind `confirmedOperations`.
  abbrev pub confirmed_operations : List OperationLogRow → List OperationLogRow
  confirmed_operations log =
      filterb (λ row. includes (still_held log) row.id && includes confirmed_ids row.id) pending_ops

  -- The parameters that the transaction passes to `applyReconcileResponseWrites`.
  unfoldable pub response_writes :
      List RemoteAnimeChange → List OperationLogRow → ApplyReconcileResponseWritesParams
  response_writes normalized_changes log = record {
    normalized_changes = normalized_changes;
    confirmed_anime_tokens =
        filterb (λ (token : ConfirmedAnimeToken). contains (held_anime_ids log) token.0)
          (collect_confirmed_anime_tokens response.applied_operations);
    conflict_outcomes =
        filterb (λ (outcome : ConflictOutcome). includes (still_held log) outcome.operation_id)
          buckets.conflict_outcomes;
    dead_letter_ids = buckets.dead_letter_ids;
    confirmed_ids = confirmed_ids;
    remaining_unconfirmed_ids = buckets.remaining_unconfirmed_ids;
    last_changelog_id = context.last_changelog_id;
    next_last_changelog_id = get_or response.last_changelog_id context.last_changelog_id;
    season_mode = response.season_mode;
    claim = context.claim;
  }

  -- The transaction of the round and its outcome, at the time `now`.
  unfoldable pub settle_reconcile_round :
      JsonText → List RemoteAnimeChange → ℕ → Database → ReconcileRoundOutcome × Database
  unfolding response_writes
  settle_reconcile_round json normalized_changes now db =
      let confirmed = confirmed_operations db.operation_log in
      let written =
        apply_reconcile_response_writes json (response_writes normalized_changes db.operation_log)
          now db in
      let resolved = resolve_superseded_operations confirmed written.operation_log in
      let chained =
        claim_chain_successors (map (λ (row : OperationLogRow). row.anime_id) confirmed)
          context.claim resolved in
      let (successors, log) = if leb context.chain_deadline now then ([], resolved) else chained in
      (
        record {
          sent_count = length pending_ops;
          confirmed_count = length confirmed;
          unconfirmed_count = length unconfirmed_ids;
          next_last_changelog_id = get_or response.last_changelog_id context.last_changelog_id;
          successors = successors;
        },
        record written { operation_log = log },
      )
