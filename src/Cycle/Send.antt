-- ===== src/Cycle/Send.antt =====
-- `sendReconcileRound` and `sendOneMessagePerRequest` of `src/features/sync/reconcile-round.helpers.ts`.
--
-- A round of one message never isolates, so the two call each other once: a round is defined with
-- what it does to a rejected batch as a parameter.
pub mod Released
pub mod Isolated
use autoreas_mobile.Prelude.{
  ℕ, ◌+◌, String, Bool, true, false, ◌&&◌, Option, List, [], ◌∷◌, ◌++◌, length, is_empty, ltb,
  if◌then◌else◌,
}
use autoreas_mobile.Database.{
  Database, OperationLogRow, OperationStatus, pending, dead_letter, RemoteAnimeChange,
}
use autoreas_mobile.Outbox.Claim.{OutboxClaim, ids_of, read_held_operation_ids, write_held_status}
use autoreas_mobile.Reconcile.Request.{build_reconcile_request_body}
use autoreas_mobile.Reconcile.Round.{
  ReconcileRoundContext, ReconcileRoundOutcome, ReconcileResponse, settle_reconcile_round,
}
use autoreas_mobile.Cycle.{
  World, CycleState, after_request, ReconcileAnswer, unanswered, refused, malformed, answered,
  SyncError, http_error, transport_error, invalid_response, write_failed, is_message_rejection,
  RoundResult, returned, threw,
}
use autoreas_mobile.Cycle.MissingTokens.{
  read_anime_bridge_tokens, still_held_rows, resolve_missing_tokens, ResolvedTokens,
}

-- `releaseHeldOperations`; an update of no ids changes nothing.
unfoldable pub release_held_operations :
    List OperationLogRow → OutboxClaim → OperationStatus → CycleState → CycleState
unfolding write_held_status
release_held_operations operations claim status s = record s {
  db = record s.db {
    operation_log = write_held_status (ids_of operations) claim status s.db.operation_log;
  };
}

-- `revertPendingOperationsOnFailure`
unfoldable pub revert_pending_operations_on_failure :
    List OperationLogRow → OutboxClaim → SyncError → CycleState → CycleState
unfolding release_held_operations is_message_rejection
revert_pending_operations_on_failure pending_ops claim error s =
    release_held_operations pending_ops claim
      (if is_message_rejection error then dead_letter else pending) s

-- `addRoundOutcome`
unfoldable pub add_round_outcome :
    ReconcileRoundOutcome → ReconcileRoundOutcome → ReconcileRoundOutcome
add_round_outcome total round = record {
  sent_count = total.sent_count + round.sent_count;
  confirmed_count = total.confirmed_count + round.confirmed_count;
  unconfirmed_count = total.unconfirmed_count + round.unconfirmed_count;
  next_last_changelog_id = round.next_last_changelog_id;
  successors = total.successors ++ round.successors;
}

-- What a round does with a batch of several messages that the bridge rejects.
abbrev pub Isolate : Type 0
Isolate = ReconcileRoundContext → List OperationLogRow → SyncError → CycleState → RoundResult

module _ (w : World) (isolate : Isolate) (context : ReconcileRoundContext) where
  -- The `catch` of `sendReconcileRound`.
  unfoldable pub round_failed : List OperationLogRow → SyncError → CycleState → RoundResult
  unfolding is_message_rejection revert_pending_operations_on_failure
  round_failed pending_ops error s =
      if is_message_rejection error && ltb 1 (length pending_ops)
      then isolate context pending_ops error s
      else threw error (revert_pending_operations_on_failure pending_ops context.claim error s)

  abbrev pub round_written : CycleState → ReconcileRoundOutcome × Database → RoundResult
  round_written s (outcome, db) = returned outcome (record s { db = db })

  -- The `try` of `sendReconcileRound`, once the request is answered; `s` is the state then.
  unfoldable pub round_answered :
      (String → Option ℕ) → List OperationLogRow → CycleState → ReconcileAnswer → RoundResult
  unfolding round_failed settle_reconcile_round
  round_answered tokens pending_ops s unanswered = round_failed pending_ops transport_error s
  round_answered tokens pending_ops s (refused status) =
      round_failed pending_ops (http_error status) s
  round_answered tokens pending_ops s malformed = round_failed pending_ops invalid_response s
  round_answered tokens pending_ops s (answered response changes) =
      if w.is_write_failed s.issued
      then round_failed pending_ops write_failed s
      else round_written s (
          settle_reconcile_round w.parse context response tokens pending_ops w.json changes
            (w.clock s.issued) s.db)

  -- A round from its fetches on: where their transaction threw, so does the round, outside of its
  -- `try`; otherwise the rows that carry a base are sent.
  unfoldable pub post_round : ResolvedTokens → RoundResult
  unfolding round_answered after_request build_reconcile_request_body
  post_round resolved =
      let s = after_request w resolved.state in
      let body =
        build_reconcile_request_body w.parse w.device_id context.last_changelog_id
          resolved.pending_ops resolved.tokens in
      if resolved.is_rolled_back
      then threw write_failed resolved.state
      else round_answered resolved.tokens resolved.pending_ops s (w.reconcile s.issued body)

  -- `sendReconcileRound`
  unfoldable pub send_round_with : List OperationLogRow → CycleState → RoundResult
  unfolding post_round resolve_missing_tokens still_held_rows read_anime_bridge_tokens
  send_round_with claimed_rows s =
      let held_ops = still_held_rows context.claim s.db.operation_log claimed_rows in
      post_round
        (resolve_missing_tokens w context.claim held_ops (read_anime_bridge_tokens s.db.animes) s)

-- A round of one message: a rejection stays with it.
abbrev pub no_isolation : Isolate
no_isolation context pending_ops error s =
    threw error (revert_pending_operations_on_failure pending_ops context.claim error s)

-- The variables of `sendOneMessagePerRequest`.
pub record Isolation : Type 0 where
  pub total : ReconcileRoundOutcome
  pub last_rejection : SyncError
  pub delivered : Bool
  pub state : CycleState

pub data IsolationStep : Type 0 where
  going : Isolation → IsolationStep
  stopped : SyncError → CycleState → IsolationStep

module _ (w : World) (context : ReconcileRoundContext) where
  abbrev pub isolated_error :
      List OperationLogRow → Isolation → SyncError → CycleState → Bool → IsolationStep
  isolated_error rest iso error s false =
      stopped error (release_held_operations (rest ++ iso.total.successors) context.claim pending s)
  isolated_error rest iso error s true = going (record {
    total = record iso.total {
      sent_count = iso.total.sent_count + 1;
      unconfirmed_count = iso.total.unconfirmed_count + 1;
    };
    last_rejection = error;
    delivered = iso.delivered;
    state = s;
  })

  abbrev pub isolated_result : List OperationLogRow → Isolation → RoundResult → IsolationStep
  isolated_result rest iso (returned outcome s) = going (record {
    total = add_round_outcome iso.total outcome;
    last_rejection = iso.last_rejection;
    delivered = true;
    state = s;
  })
  isolated_result rest iso (threw error s) =
      isolated_error rest iso error s (is_message_rejection error)

  -- The body of the loop; `rest` is what is not sent yet.
  unfoldable pub isolate_one : OperationLogRow → List OperationLogRow → Isolation → IsolationStep
  unfolding send_round_with add_round_outcome
  isolate_one operation rest iso =
      let held =
        read_held_operation_ids iso.state.db.operation_log (operation.id ∷ []) context.claim in
      if is_empty held
      then going iso
      else isolated_result rest iso (
          send_round_with w no_isolation
            (record context { last_changelog_id = iso.total.next_last_changelog_id })
            (operation ∷ []) iso.state)

  abbrev pub isolation_ended : Isolation → Bool → RoundResult
  isolation_ended iso true = returned iso.total iso.state
  isolation_ended iso false = threw iso.last_rejection iso.state

  abbrev pub isolate_on : (Isolation → RoundResult) → IsolationStep → RoundResult
  isolate_on continue (going iso) = continue iso
  isolate_on continue (stopped error s) = threw error s

  unfoldable pub isolate_each : List OperationLogRow → Isolation → RoundResult
  unfolding isolate_one
  isolate_each [] iso = isolation_ended iso iso.delivered
  isolate_each (operation ∷ rest) iso =
      isolate_on (isolate_each rest) (isolate_one operation rest iso)

abbrev pub nothing_sent : ℕ → ReconcileRoundOutcome
nothing_sent last_changelog_id = record {
  sent_count = 0;
  confirmed_count = 0;
  unconfirmed_count = 0;
  next_last_changelog_id = last_changelog_id;
  successors = [];
}

-- `sendOneMessagePerRequest`
unfoldable pub send_one_message_per_request : World → Isolate
unfolding isolate_each
send_one_message_per_request w context operations rejection s =
    isolate_each w context operations (record {
      total = nothing_sent context.last_changelog_id;
      last_rejection = rejection;
      delivered = false;
      state = s;
    })

-- `sendReconcileRound` as its callers see it.
unfoldable pub send_reconcile_round :
    World → ReconcileRoundContext → List OperationLogRow → CycleState → RoundResult
unfolding send_round_with send_one_message_per_request
send_reconcile_round w context claimed_rows s =
    send_round_with w (send_one_message_per_request w) context claimed_rows s
