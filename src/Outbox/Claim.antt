-- ===== src/Outbox/Claim.antt =====
-- `src/features/sync/outbox-claim.helpers.ts`: per-key claims, compare-and-set.
pub mod Exclusion
pub mod Batch
use autoreas_mobile.Prelude.{
  ℕ, String, Bool, true, false, not, ◌&&◌, Option, none, some, List, [], ◌∷◌, ◌==◌, map, filterb,
  includes, contains, nat_opt_eq, is_empty, if◌then◌else◌,
}
use autoreas_mobile.Sql.{update_where}
use autoreas_mobile.Database.{
  OperationLogRow, OperationStatus, pending, processing, OutboxClaimOwner, js, native, status_eq,
  owner_eq,
}
use autoreas_mobile.Outbox.Backlog.{
  is_live_claim, has_status, is_oldest_of_anime, by_age, read_operation_log_backlog,
}

pub record OutboxClaim : Type 0 where
  pub owner : OutboxClaimOwner
  pub claimed_at : ℕ

abbrev pub queued_statuses : List OperationStatus
queued_statuses = pending ∷ processing ∷ []

abbrev pub owner_is : OutboxClaimOwner → Option OutboxClaimOwner → Bool
owner_is owner none = false
owner_is owner (some o) = owner_eq owner o

-- `heldOperationsWhere` without its id list: `processing` under this exact claim.
unfoldable pub is_held : OutboxClaim → OperationLogRow → Bool
is_held claim row =
    status_eq processing row.status
    && owner_is claim.owner row.claim_owner
    && nat_opt_eq row.claimed_at (some claim.claimed_at)

-- `heldOperationsWhere`
unfoldable pub held_operations_where : List ℕ → OutboxClaim → OperationLogRow → Bool
unfolding is_held
held_operations_where ids claim row = includes ids row.id && is_held claim row

-- `readHeldOperationIds`
unfoldable pub read_held_operation_ids : List OperationLogRow → List ℕ → OutboxClaim → List ℕ
unfolding held_operations_where
read_held_operation_ids log ids claim =
    map (λ row. row.id) (filterb (held_operations_where ids claim) log)

abbrev pub ids_of : List OperationLogRow → List ℕ
ids_of rows = map (λ row. row.id) rows

abbrev pub under_claim : OutboxClaim → OperationLogRow → OperationLogRow
under_claim claim row = record row {
  status = processing;
  claim_owner = some claim.owner;
  claimed_at = some claim.claimed_at;
}

abbrev pub as_processing : OperationLogRow → OperationLogRow
as_processing row = record row { status = processing }

-- The rows that both claims return: the candidates that the update won.
unfoldable pub won_rows :
    OutboxClaim → List OperationLogRow → List OperationLogRow → List OperationLogRow
unfolding read_held_operation_ids
won_rows claim candidates log =
    let held = read_held_operation_ids log (ids_of candidates) claim in
    map as_processing (filterb (λ row. includes held row.id) candidates)

-- The WHERE of the update in `claimBacklogRows`.
unfoldable pub is_claimable : List ℕ → ℕ → OperationLogRow → Bool
is_claimable ids now row =
    includes ids row.id && has_status queued_statuses row && not (is_live_claim now row.claimed_at)

-- The candidates of `claimBacklogRows`.
unfoldable pub claim_candidates : ℕ → ℕ → List OperationLogRow → List OperationLogRow
unfolding read_operation_log_backlog
claim_candidates now limit log =
    read_operation_log_backlog
      (record {
        status = queued_statuses;
        limit = limit;
        dedupe_by_anime_id = true;
        skip_keys_claimed_after = some now;
      })
      log

-- `claimOperationLogBatch` with the body `claimBacklogRows`: the claimed rows and the new table.
-- An update of no ids changes nothing, so the early return on no candidates is left out.
unfoldable pub claim_operation_log_batch :
    OutboxClaim → ℕ → List OperationLogRow → List OperationLogRow × List OperationLogRow
unfolding won_rows
claim_operation_log_batch claim limit log =
    let candidates = claim_candidates claim.claimed_at limit log in
    let log' =
      update_where (is_claimable (ids_of candidates) claim.claimed_at) (under_claim claim) log in
    (won_rows claim candidates log', log')

abbrev is_unclaimed : Option ℕ → Bool
is_unclaimed none = true
is_unclaimed (some t) = false

abbrev pub is_free_successor : OperationLogRow → Bool
is_free_successor row = status_eq pending row.status && is_unclaimed row.claimed_at

-- The candidates of `claimChainSuccessors`: the oldest queued row of each key, if it is free.
unfoldable pub successor_candidates : List String → List OperationLogRow → List OperationLogRow
unfolding by_age
successor_candidates anime_ids log =
    let queued =
      filterb (λ row. contains anime_ids row.anime_id && has_status queued_statuses row) log in
    by_age (filterb (λ row. is_oldest_of_anime queued row && is_free_successor row) queued)

-- `claimChainSuccessors`
unfoldable pub claim_chain_successors :
    List String → OutboxClaim → List OperationLogRow → List OperationLogRow × List OperationLogRow
unfolding won_rows
claim_chain_successors anime_ids claim log =
    let candidates = successor_candidates anime_ids log in
    let log' =
      update_where (λ row. includes (ids_of candidates) row.id && is_free_successor row)
        (under_claim claim) log in
    (won_rows claim candidates log', log')

-- A status write that its holder guards by `heldOperationsWhere`, with `RELEASED_CLAIM`.
unfoldable pub write_held_status :
    List ℕ → OutboxClaim → OperationStatus → List OperationLogRow → List OperationLogRow
unfolding held_operations_where
write_held_status ids claim status log =
    update_where (held_operations_where ids claim)
      (λ row. record row { status = status; claim_owner = none; claimed_at = none }) log
