-- ===== src/Reconcile/Conflict.antt =====
-- `src/features/sync/reconcile-conflict.helpers.ts`: what a rejected operation comes to.
pub mod Buckets
pub mod Attempts
use Prim.Native.String.{◌++◌}
use autoreas_mobile.Prelude.{
  ℕ, ◌+◌, String, Bool, true, false, not, ◌&&◌, ◌||◌, Option, none, some, List, [], ◌∷◌, ◌==◌,
  nat_eq, nat_opt_eq, leb, if◌then◌else◌,
}
use autoreas_mobile.Database.{OperationLogRow, OperationStatus, pending, conflict_exhausted}

-- `CONFLICT_ATTEMPT_CAP`
unfoldable pub conflict_attempt_cap : ℕ
conflict_attempt_cap = 3

abbrev pub reason_unsupported_operation : String
reason_unsupported_operation = "unsupported_operation"

abbrev pub reason_conflict : String
reason_conflict = "conflict"

-- One `applied_operations` entry of the response.
pub record ReconcileAppliedOperation : Type 0 where
  pub anime_id : String
  pub operation : String
  pub applied : Bool
  pub modified_at : Option ℕ
  pub reason : Option String

pub data RejectedOperationClassification : Type 0 where
  unsupported : RejectedOperationClassification
  progress : ℕ → ℕ → RejectedOperationClassification
  exhausted : ℕ → ℕ → RejectedOperationClassification
  missing_token : RejectedOperationClassification
  unrecognized_reason : Option String → RejectedOperationClassification

abbrev pub reason_is : String → Option String → Bool
reason_is reason none = false
reason_is reason (some r) = r == reason

-- The two variants of a conflict that carries the token `bridge_modified_at`.
unfoldable pub classify_conflict : ℕ → Option ℕ → ℕ → RejectedOperationClassification
unfolding conflict_attempt_cap
classify_conflict bridge_modified_at stored current =
    let token_advanced = not (nat_opt_eq stored (some bridge_modified_at)) in
    let next = if token_advanced then 0 else current + 1 in
    if not token_advanced && leb conflict_attempt_cap next
    then exhausted bridge_modified_at next
    else progress bridge_modified_at next

abbrev pub classify_token : Option ℕ → Option ℕ → ℕ → RejectedOperationClassification
classify_token none stored current = missing_token
classify_token (some token) stored current = classify_conflict token stored current

-- `classifyRejectedOperation`
unfoldable pub classify_rejected_operation :
    ReconcileAppliedOperation → Option ℕ → ℕ → RejectedOperationClassification
unfolding classify_conflict
classify_rejected_operation op stored current =
    if reason_is reason_unsupported_operation op.reason
    then unsupported
    else if not (reason_is reason_conflict op.reason)
    then unrecognized_reason op.reason
    else classify_token op.modified_at stored current

pub record ConflictOutcome : Type 0 where
  pub operation_id : ℕ
  pub anime_id : String
  pub bridge_modified_at : ℕ
  pub conflict_attempt_count : ℕ
  pub status : OperationStatus

pub record ClassifyUnconfirmedOperationsResult : Type 0 where
  pub remaining_unconfirmed_ids : List ℕ
  pub dead_letter_ids : List ℕ
  pub conflict_outcomes : List ConflictOutcome

-- `pendingOpById.get(id)`: the last row with the id.
unfoldable pub op_by_id : List OperationLogRow → ℕ → Option OperationLogRow
op_by_id [] id = none
op_by_id (row ∷ rows) id = elim (op_by_id rows id) [
  | none ↦ if nat_eq row.id id then some row else none
  | some later ↦ some later
]

-- `${animeId}:${operation}`
abbrev pub operation_key : String → String → String
operation_key anime_id operation = anime_id ++ ":" ++ operation

abbrev pub is_rejection_of : OperationLogRow → ReconcileAppliedOperation → Bool
is_rejection_of row entry =
    not entry.applied
    && (operation_key entry.anime_id entry.operation == operation_key row.anime_id row.operation)

-- `rejectedEntriesByKey.get(key)`: the last rejected entry for the row's key.
unfoldable pub rejected_entry :
    List ReconcileAppliedOperation → OperationLogRow → Option ReconcileAppliedOperation
rejected_entry [] row = none
rejected_entry (entry ∷ entries) row = elim (rejected_entry entries row) [
  | none ↦ if is_rejection_of row entry then some entry else none
  | some later ↦ some later
]

abbrev pub no_buckets : ClassifyUnconfirmedOperationsResult
no_buckets = record { remaining_unconfirmed_ids = []; dead_letter_ids = []; conflict_outcomes = [] }

abbrev pub outcome_of : OperationLogRow → ℕ → ℕ → ℕ → OperationStatus → ConflictOutcome
outcome_of row id token count status = record {
  operation_id = id;
  anime_id = row.anime_id;
  bridge_modified_at = token;
  conflict_attempt_count = count;
  status = status;
}

abbrev pub push_remaining :
    ℕ → ClassifyUnconfirmedOperationsResult → ClassifyUnconfirmedOperationsResult
push_remaining id rest = record rest {
  remaining_unconfirmed_ids = id ∷ rest.remaining_unconfirmed_ids;
}

abbrev pub push_outcome :
    ConflictOutcome → ClassifyUnconfirmedOperationsResult → ClassifyUnconfirmedOperationsResult
push_outcome outcome rest = record rest { conflict_outcomes = outcome ∷ rest.conflict_outcomes }

-- The `switch` on one classification. The rest of the loop is `rest`, whose lists come after.
abbrev pub route :
    OperationLogRow
    → ℕ
    → RejectedOperationClassification
    → ClassifyUnconfirmedOperationsResult
    → ClassifyUnconfirmedOperationsResult
route row id unsupported rest = record rest { dead_letter_ids = id ∷ rest.dead_letter_ids }
route row id (progress token count) rest = push_outcome (outcome_of row id token count pending) rest
route row id (exhausted token count) rest =
    push_outcome (outcome_of row id token count conflict_exhausted) rest
route row id missing_token rest = push_remaining id rest
route row id (unrecognized_reason reason) rest = push_remaining id rest

module _ (pending_ops : List OperationLogRow) (applied_operations : List ReconcileAppliedOperation)
    (bridge_tokens : String → Option ℕ) where
  abbrev pub route_rejection :
      OperationLogRow
      → ℕ
      → Option ReconcileAppliedOperation
      → ClassifyUnconfirmedOperationsResult
      → ClassifyUnconfirmedOperationsResult
  route_rejection row id none rest = push_remaining id rest
  route_rejection row id (some entry) rest =
      route row id
        (classify_rejected_operation entry (bridge_tokens row.anime_id) row.conflict_attempt_count)
        rest

  abbrev pub route_operation :
      ℕ
      → Option OperationLogRow
      → ClassifyUnconfirmedOperationsResult
      → ClassifyUnconfirmedOperationsResult
  route_operation id none rest = push_remaining id rest
  route_operation id (some row) rest =
      route_rejection row id (rejected_entry applied_operations row) rest

  -- `classifyUnconfirmedOperations`
  unfoldable pub classify_unconfirmed_operations : List ℕ → ClassifyUnconfirmedOperationsResult
  unfolding op_by_id rejected_entry classify_rejected_operation
  classify_unconfirmed_operations [] = no_buckets
  classify_unconfirmed_operations (id ∷ ids) =
      route_operation id (op_by_id pending_ops id) (classify_unconfirmed_operations ids)
