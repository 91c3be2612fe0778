-- ===== src/Outbox/Backlog.antt =====
-- `src/features/sync/operation-log-retention.helpers.ts`: the bounded, ordered read of the backlog.
--
-- `liveClaimFloor(now)` of `outbox-claim.helpers.ts` is `now - 60000`, which may be negative; the
-- model keeps `now` and writes `claimed_at > now - ttl` as `now < claimed_at + ttl`.
use autoreas_mobile.Prelude.{
  ℕ, ◌+◌, String, Bool, false, not, ◌&&◌, ◌||◌, Option, none, some, List, [], ◌∷◌, ◌==◌, any,
  filterb, take, length, ltb, nat_eq, is_empty, if◌then◌else◌,
}
use autoreas_mobile.Sql.Order.{sort_by}
use autoreas_mobile.Database.{OperationLogRow, OperationStatus, status_eq}

-- `OUTBOX_CLAIM_TTL_MS`
abbrev pub outbox_claim_ttl_ms : ℕ
outbox_claim_ttl_ms = 60000

-- `claimed_at > ?` at the floor of `now`; a NULL is above no floor.
unfoldable pub is_live_claim : ℕ → Option ℕ → Bool
is_live_claim now none = false
is_live_claim now (some claimed_at) = ltb now (claimed_at + outbox_claim_ttl_ms)

abbrev pub has_status : List OperationStatus → OperationLogRow → Bool
has_status statuses row = any (λ s. status_eq s row.status) statuses

-- `anime_id IN (SELECT anime_id FROM operation_log WHERE claimed_at > ?)`
unfoldable pub is_claimed_key : List OperationLogRow → ℕ → String → Bool
is_claimed_key log now anime_id =
    any (λ row. is_live_claim now row.claimed_at && (row.anime_id == anime_id)) log

-- ORDER BY created_at ASC, id ASC
unfoldable pub is_before : OperationLogRow → OperationLogRow → Bool
is_before a b = ltb a.created_at b.created_at || (nat_eq a.created_at b.created_at && ltb a.id b.id)

unfoldable pub by_age : List OperationLogRow → List OperationLogRow
by_age rows = sort_by (λ a b. not (is_before b a)) rows

-- ROW_NUMBER() OVER (PARTITION BY anime_id ORDER BY created_at ASC, id ASC) = 1
unfoldable pub is_oldest_of_anime : List OperationLogRow → OperationLogRow → Bool
is_oldest_of_anime rows row =
    not (any (λ other. (other.anime_id == row.anime_id) && is_before other row) rows)

pub record OperationLogQueryParams : Type 0 where
  pub status : List OperationStatus
  pub limit : ℕ
  pub dedupe_by_anime_id : Bool
  -- The `now` whose floor is given.
  pub skip_keys_claimed_after : Option ℕ

abbrev pub is_skipped_key : List OperationLogRow → Option ℕ → String → Bool
is_skipped_key log none anime_id = false
is_skipped_key log (some now) anime_id = is_claimed_key log now anime_id

-- The rows that the window function of `buildDedupedBacklogQuery` ranks.
unfoldable pub ranked_rows :
    List OperationStatus → Option ℕ → List OperationLogRow → List OperationLogRow
ranked_rows statuses skip log =
    filterb (λ row. has_status statuses row && not (is_skipped_key log skip row.anime_id)) log

-- `buildDedupedBacklogQuery`, before its LIMIT.
unfoldable pub deduped_backlog :
    List OperationStatus → Option ℕ → List OperationLogRow → List OperationLogRow
unfolding ranked_rows by_age
deduped_backlog statuses skip log =
    let ranked = ranked_rows statuses skip log in
    by_age (filterb (is_oldest_of_anime ranked) ranked)

unfoldable pub flat_backlog : List OperationStatus → List OperationLogRow → List OperationLogRow
unfolding by_age
flat_backlog statuses log = by_age (filterb (has_status statuses) log)

-- `readOperationLogBacklog`
unfoldable pub read_operation_log_backlog :
    OperationLogQueryParams → List OperationLogRow → List OperationLogRow
unfolding deduped_backlog flat_backlog
read_operation_log_backlog params log =
    if is_empty params.status || nat_eq params.limit 0
    then []
    else if params.dedupe_by_anime_id
    then take params.limit (deduped_backlog params.status params.skip_keys_claimed_after log)
    else take params.limit (flat_backlog params.status log)

abbrev add_counts : List OperationStatus → List OperationLogRow → ℕ
add_counts [] log = 0
add_counts (s ∷ statuses) log =
    length (filterb (λ row. status_eq s row.status) log) + add_counts statuses log

-- `countOperationLogBacklogRows`
unfoldable pub count_operation_log_backlog_rows : List OperationLogRow → List OperationStatus → ℕ
count_operation_log_backlog_rows log statuses = add_counts statuses log
