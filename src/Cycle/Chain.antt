-- ===== src/Cycle/Chain.antt =====
-- `src/features/sync/reconcile.helpers.ts`: one claim and the chain of rounds that it leads to.
--
-- The loop runs on fuel, one for each round; Cycle/Ends shows how much is enough. The drain of the
-- diagnostics is the number of requests that it makes.
pub mod Released
pub mod Complete
use autoreas_mobile.Prelude.{
  ℕ, ◌+◌, zero, suc, String, Bool, true, false, not, ◌||◌, Option, none, some, List, [], ◌∷◌, ◌++◌,
  ◌==◌, filterb, length, is_empty, ltb, if◌then◌else◌,
}
use autoreas_mobile.Database.{OperationLogRow, js}
use autoreas_mobile.Outbox.Backlog.{count_operation_log_backlog_rows}
use autoreas_mobile.Outbox.Claim.{OutboxClaim, ids_of, queued_statuses, claim_operation_log_batch}
use autoreas_mobile.Reconcile.Writes.{get_last_changelog_id}
use autoreas_mobile.Reconcile.Round.{ReconcileRoundContext, ReconcileRoundOutcome}
use autoreas_mobile.Season.{season_rating_operation}
use autoreas_mobile.Cycle.{
  World, CycleState, SyncError, not_configured, RoundResult, returned, threw,
}
use autoreas_mobile.Cycle.Send.{send_reconcile_round, nothing_sent}
use autoreas_mobile.Cycle.Ratings.{
  SeasonRatingRoundOutcome, send_season_rating_round, release_held_rows,
}

-- `OUTBOX_CHAIN_BUDGET_MS`
abbrev pub outbox_chain_budget_ms : ℕ
outbox_chain_budget_ms = 20000

-- `RECONCILE_BACKLOG_BATCH_LIMIT`
abbrev pub reconcile_backlog_batch_limit : ℕ
reconcile_backlog_batch_limit = 200

abbrev pub js_claim : ℕ → OutboxClaim
js_claim now = record { owner = js; claimed_at = now }

pub record SplitRoundOutcome : Type 0 where
  pub round : ReconcileRoundOutcome
  pub rating_delivered : Bool

pub data SplitResult : Type 0 where
  split_returned : SplitRoundOutcome → CycleState → SplitResult
  split_threw : SyncError → CycleState → SplitResult

abbrev pub is_rating : OperationLogRow → Bool
is_rating row = row.operation == season_rating_operation

abbrev pub ratings_of : List OperationLogRow → List OperationLogRow
ratings_of round = filterb is_rating round

abbrev pub edits_of : List OperationLogRow → List OperationLogRow
edits_of round = filterb (λ row. not (is_rating row)) round

abbrev pub split_outcome : ReconcileRoundOutcome → SeasonRatingRoundOutcome → SplitRoundOutcome
split_outcome applied rated = record {
  round = record {
    sent_count = applied.sent_count + rated.attempted_count;
    confirmed_count = applied.confirmed_count + rated.confirmed_count;
    unconfirmed_count = applied.unconfirmed_count + rated.pending_count;
    next_last_changelog_id = applied.next_last_changelog_id;
    successors = applied.successors ++ rated.successors;
  };
  rating_delivered = rated.rating_delivered;
}

-- The variables of the loop of `syncPendingOperations`.
pub record ChainState : Type 0 where
  pub context : ReconcileRoundContext
  pub round : List OperationLogRow
  pub first_round : Bool
  pub synced_count : ℕ
  pub backlog_read_count : ℕ
  pub unconfirmed_count : ℕ
  pub rating_delivered : Bool
  pub claimed_ids : List ℕ
  pub state : CycleState

pub record SyncPendingOperationsResult : Type 0 where
  pub synced_count : ℕ
  pub has_more_pending : Bool
  pub rating_delivered : Bool

pub data ChainResult : Type 0 where
  finished : ChainState → ChainResult
  failed : SyncError → CycleState → ChainResult
  out_of_fuel : ChainState → ChainResult

pub data SyncResult : Type 0 where
  synced_pending : SyncPendingOperationsResult → CycleState → SyncResult
  sync_failed : SyncError → CycleState → SyncResult
  sync_out_of_fuel : SyncResult

module _ (w : World) where
  abbrev pub rate_split : ReconcileRoundContext → List OperationLogRow → RoundResult → SplitResult
  rate_split context ratings (threw error s) = split_threw error s
  rate_split context ratings (returned applied s) =
      let rated = send_season_rating_round w context.claim context.chain_deadline ratings s in
      split_returned (split_outcome applied rated) rated.state

  -- The reconcile of one round, which a later round without an edit skips.
  unfoldable pub send_edits :
      ReconcileRoundContext → List OperationLogRow → Bool → CycleState → RoundResult
  unfolding send_reconcile_round
  send_edits context edits first_round s =
      if first_round || not (is_empty edits)
      then send_reconcile_round w context edits s
      else returned (nothing_sent context.last_changelog_id) s

  -- `sendSplitRound`; the rows that it claims are `successors`, or released where it throws.
  unfoldable pub send_split_round :
      ReconcileRoundContext → List OperationLogRow → Bool → CycleState → SplitResult
  unfolding send_edits send_season_rating_round
  send_split_round context round first_round s =
      rate_split context (ratings_of round) (send_edits context (edits_of round) first_round s)

  -- The loop's variables after a round.
  abbrev pub after_round : ChainState → SplitRoundOutcome → CycleState → ChainState
  after_round c outcome s = record {
    context = record c.context { last_changelog_id = outcome.round.next_last_changelog_id };
    round = outcome.round.successors;
    first_round = false;
    synced_count = c.synced_count + outcome.round.confirmed_count;
    backlog_read_count = c.backlog_read_count + outcome.round.sent_count;
    unconfirmed_count = c.unconfirmed_count + outcome.round.unconfirmed_count;
    rating_delivered = c.rating_delivered || outcome.rating_delivered;
    claimed_ids = c.claimed_ids ++ ids_of outcome.round.successors;
    state = s;
  }

  abbrev pub chain_next : (ChainState → ChainResult) → ChainState → SplitResult → ChainResult
  chain_next continue c (split_threw error s) =
      failed error (release_held_rows c.claimed_ids c.context.claim s)
  chain_next continue c (split_returned outcome s) =
      let next = after_round c outcome s in
      if is_empty next.round then finished next else continue next

  -- The `do while` loop of `syncPendingOperations`, with its `catch`.
  unfoldable pub run_chain : ℕ → ChainState → ChainResult
  unfolding send_split_round release_held_rows
  run_chain zero c = out_of_fuel c
  run_chain (suc fuel) c =
      chain_next (run_chain fuel) c (send_split_round c.context c.round c.first_round c.state)

  abbrev pub sync_result : ℕ → ChainResult → SyncResult
  sync_result total (finished c) =
      synced_pending
        (record {
          synced_count = c.synced_count;
          has_more_pending = ltb 0 c.unconfirmed_count || ltb c.backlog_read_count total;
          rating_delivered = c.rating_delivered;
        })
        c.state
  sync_result total (failed error s) = sync_failed error s
  sync_result total (out_of_fuel c) = sync_out_of_fuel

  -- The state of the loop before its first round: the batch of `claimOperationLogBatch` at the time
  -- `now`, and the requests of the diagnostics.
  unfoldable pub claimed_chain : ℕ → ℕ → CycleState → ChainState
  unfolding claim_operation_log_batch get_last_changelog_id
  claimed_chain now diagnostics s =
      let batch =
        claim_operation_log_batch (js_claim now) reconcile_backlog_batch_limit s.db.operation_log in
      let db = record s.db { operation_log = batch.1 } in
      record {
        context = record {
          last_changelog_id = get_last_changelog_id s.db.bridge_config;
          claim = js_claim now;
          chain_deadline = now + outbox_chain_budget_ms;
        };
        round = batch.0;
        first_round = true;
        synced_count = 0;
        backlog_read_count = 0;
        unconfirmed_count = 0;
        rating_delivered = false;
        claimed_ids = ids_of batch.0;
        state = record { db = w.meanwhile s.issued db; issued = s.issued + diagnostics };
      }

  -- `totalBacklogRowCount`
  unfoldable pub total_backlog_row_count : ℕ → CycleState → ℕ
  unfolding claim_operation_log_batch
  total_backlog_row_count now s =
      let batch =
        claim_operation_log_batch (js_claim now) reconcile_backlog_batch_limit s.db.operation_log in
      if is_empty batch.0 then 0 else count_operation_log_backlog_rows batch.1 queued_statuses

  -- `syncPendingOperations` at the time `now`, with fuel for the rounds of its chain.
  unfoldable pub sync_pending_operations : ℕ → Bool → ℕ → ℕ → CycleState → SyncResult
  unfolding run_chain claimed_chain total_backlog_row_count
  sync_pending_operations fuel is_paired now diagnostics s =
      if not is_paired
      then sync_failed not_configured s
      else sync_result (total_backlog_row_count now s)
          (run_chain fuel (claimed_chain now diagnostics s))
