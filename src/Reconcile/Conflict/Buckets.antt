-- ===== src/Reconcile/Conflict/Buckets.antt =====
-- Every unconfirmed operation has one fate (`classifyUnconfirmedOperations` of
-- `reconcile-conflict.helpers.ts`).
use autoreas_mobile.Prelude.{
  ℕ, ◌+◌, String, ◌≡◌, refl, Option, none, some, List, [], ◌∷◌, map, arith, nat_eq, if◌then◌else◌,
}
use autoreas_mobile.Database.{OperationLogRow}
use autoreas_mobile.Reconcile.Conflict.{
  ReconcileAppliedOperation, ConflictOutcome, ClassifyUnconfirmedOperationsResult,
  RejectedOperationClassification, unsupported, progress, exhausted, missing_token,
  unrecognized_reason, route, route_rejection, route_operation, rejected_entry, op_by_id,
  classify_unconfirmed_operations,
}

-- How often an id is in a list.
abbrev pub count : ℕ → List ℕ → ℕ
count n [] = 0
count n (x ∷ xs) = (if nat_eq x n then 1 else 0) + count n xs

abbrev pub outcome_ids : List ConflictOutcome → List ℕ
outcome_ids outcomes = map (λ (o : ConflictOutcome). o.operation_id) outcomes

-- How often an id is in one of the three buckets.
abbrev pub count_buckets : ℕ → ClassifyUnconfirmedOperationsResult → ℕ
count_buckets n b =
    count n b.remaining_unconfirmed_ids
    + count n b.dead_letter_ids
    + count n (outcome_ids b.conflict_outcomes)

count-route :
    (n id : ℕ) (row : OperationLogRow) (c : RejectedOperationClassification)
    (rest : ClassifyUnconfirmedOperationsResult)
    → count_buckets n (route row id c rest) ≡ (if nat_eq id n then 1 else 0) + count_buckets n rest
count-route n id row unsupported rest = omega arith
count-route n id row (progress token attempts) rest = omega arith
count-route n id row (exhausted token attempts) rest = omega arith
count-route n id row missing_token rest = omega arith
count-route n id row (unrecognized_reason reason) rest = omega arith

module _ (pending_ops : List OperationLogRow) (applied_operations : List ReconcileAppliedOperation)
    (bridge_tokens : String → Option ℕ) (n : ℕ) where
  count-route_rejection :
      (row : OperationLogRow) (id : ℕ) (o : Option ReconcileAppliedOperation)
      (rest : ClassifyUnconfirmedOperationsResult)
      → count_buckets n (route_rejection pending_ops applied_operations bridge_tokens row id o rest)
        ≡ (if nat_eq id n then 1 else 0) + count_buckets n rest
  count-route_rejection row id none rest = omega arith
  count-route_rejection row id (some entry) rest = count-route n id row _ rest

  count-route_operation :
      (id : ℕ) (o : Option OperationLogRow) (rest : ClassifyUnconfirmedOperationsResult)
      → count_buckets n (route_operation pending_ops applied_operations bridge_tokens id o rest)
        ≡ (if nat_eq id n then 1 else 0) + count_buckets n rest
  count-route_operation id none rest = omega arith
  count-route_operation id (some row) rest =
      count-route_rejection row id (rejected_entry applied_operations row) rest

  -- Each unconfirmed operation is put in exactly one of the three buckets, as often as it was
  -- given, and no other id is in any of them.
  pub each_operation_has_one_fate :
      (ids : List ℕ)
      → count_buckets n
          (classify_unconfirmed_operations pending_ops applied_operations bridge_tokens ids)
        ≡ count n ids
  unfolding classify_unconfirmed_operations
  each_operation_has_one_fate [] = refl
  each_operation_has_one_fate (id ∷ ids) = omega (
    arith,
    count-route_operation id (op_by_id pending_ops id)
        (classify_unconfirmed_operations pending_ops applied_operations bridge_tokens ids),
    each_operation_has_one_fate ids,
  )
