-- ===== src/Outbox/Claim/Exclusion.antt =====
-- Two runtimes never hold one key (`outbox-claim.helpers.ts`): what each step on `operation_log`
-- does to a row that a live claim holds.
use autoreas_mobile.Prelude.{
  ℕ, ◌+◌, ◌<◌, String, ◌≡◌, ◌≢◌, inl, inr, true, false, some, List, [], ◌∷◌, ◌++◌, filterb, Elem,
  nat_eq, includes, arith, eq_iff, filterb-Elem, map-Elem, take-Elem, any-false, any-Elem,
  Elem-append_left, Bool-cases,
}
use autoreas_mobile.Sql.{Elem-update_where}
use autoreas_mobile.Sql.Order.{sort_by-Elem}
use autoreas_mobile.Database.{OperationLogRow, OperationStatus}
use autoreas_mobile.Outbox.Backlog.{
  outbox_claim_ttl_ms, is_live_claim, is_claimed_key, has_status, is_oldest_of_anime, ranked_rows,
}
use autoreas_mobile.Outbox.Claim.{
  OutboxClaim, queued_statuses, is_held, held_operations_where, as_processing, won_rows,
  read_held_operation_ids, ids_of, is_claimable, claim_candidates, claim_operation_log_batch,
  claim_chain_successors, write_held_status,
}

-- What is known of a candidate of a batch.
pub record IsCandidate (now : ℕ) (log : List OperationLogRow) (row : OperationLogRow) : Type 0 where
  pub stored : Elem row log
  pub queued : has_status queued_statuses row ≡ true
  pub free : is_claimed_key log now row.anime_id ≡ false
  pub oldest : is_oldest_of_anime (ranked_rows queued_statuses (some now) log) row ≡ true

module _ (now limit : ℕ) (log : List OperationLogRow) where
  ranked_facts :
      (row : OperationLogRow)
      → Elem row (ranked_rows queued_statuses (some now) log)
      → is_oldest_of_anime (ranked_rows queued_statuses (some now) log) row ≡ true
      → IsCandidate now log row
  unfolding ranked_rows
  ranked_facts row m oldest =
      let (stored, test) = filterb-Elem _ row log m in
      record {
        stored = stored;
        queued = ground (arith, test);
        free = ground (arith, test);
        oldest = oldest;
      }

  candidates_ranked :
      (row : OperationLogRow)
      → Elem row (claim_candidates now limit log)
      → Elem row (
          filterb
            (is_oldest_of_anime (ranked_rows queued_statuses (some now) log))
            (ranked_rows queued_statuses (some now) log))
  unfolding claim_candidates
  candidates_ranked row m = elim (Bool-cases (nat_eq limit 0)) [
    | inl closed ↦ absurd (rw closed at m)
    | inr open_limit ↦ sort_by-Elem _ row _ (take-Elem limit row _ (rw open_limit at m))
  ]

  pub IsCandidate-facts :
      (row : OperationLogRow) → Elem row (claim_candidates now limit log) → IsCandidate now log row
  IsCandidate-facts row m =
      let (ranked, oldest) =
        filterb-Elem (is_oldest_of_anime (ranked_rows queued_statuses (some now) log)) row
          (ranked_rows queued_statuses (some now) log) (candidates_ranked row m) in
      ranked_facts row ranked oldest

-- A row that a claim returns is one of its candidates, marked `processing`, and the claim holds it.
pub won_rows_inv :
    (claim : OutboxClaim) (candidates log : List OperationLogRow) (row : OperationLogRow)
    → Elem row (won_rows claim candidates log)
    → (c : OperationLogRow) × Elem c candidates
      × (row ≡ as_processing c)
      × (s : OperationLogRow) × Elem s log
      × (s.id ≡ c.id)
      × (is_held claim s ≡ true)
unfolding won_rows
won_rows_inv claim candidates log row m =
    let ids = ids_of candidates in
    let (c, n, same) = map-Elem as_processing row (filterb _ candidates) m in
    let (candidate, won) =
      filterb-Elem (λ r. includes (read_held_operation_ids log ids claim) r.id) c candidates n in
    let (id, held, hit) =
      any-Elem (λ x. nat_eq x c.id) (read_held_operation_ids log ids claim) won in
    let (s, among, is) = map-Elem (λ (r : OperationLogRow). r.id) id _ held in
    let (stored, test) = filterb-Elem (held_operations_where ids claim) s log among in
    (c, candidate, same, s, stored, ground (arith, is, hit), ground (arith, test))

-- The keys of a batch are free: no row of the anime of a claimed row is under a live claim, of
-- either runtime, when the claim is taken.
pub claimed_keys_are_free :
    (claim : OutboxClaim) (limit : ℕ) (log : List OperationLogRow) (row : OperationLogRow)
    → Elem row (claim_operation_log_batch claim limit log).0
    → is_claimed_key log claim.claimed_at row.anime_id ≡ false
unfolding claim_operation_log_batch
claimed_keys_are_free claim limit log row m =
    let w = won_rows_inv claim (claim_candidates claim.claimed_at limit log) _ row m in
    rw w.2 (IsCandidate-facts claim.claimed_at limit log w.0 w.1).free

-- The steps that the two runtimes and the person make on the outbox while the claim `mine` is
-- live: batches and chain successors under other claims, status writes under other claims, and new
-- local edits.
pub data Step (mine : OutboxClaim) : List OperationLogRow → List OperationLogRow → Type 0 where
  batch :
      (log : List OperationLogRow) (claim : OutboxClaim) (limit : ℕ)
      → claim.claimed_at < mine.claimed_at + outbox_claim_ttl_ms
      → Step mine log (claim_operation_log_batch claim limit log).1
  successors :
      (log : List OperationLogRow) (claim : OutboxClaim) (anime_ids : List String)
      → Step mine log (claim_chain_successors anime_ids claim log).1
  write :
      (log : List OperationLogRow) (claim : OutboxClaim) (ids : List ℕ) (status : OperationStatus)
      → claim ≢ mine
      → Step mine log (write_held_status ids claim status log)
  queue : (log : List OperationLogRow) (row : OperationLogRow) → Step mine log (log ++ row ∷ [])

pub data Steps (mine : OutboxClaim) : List OperationLogRow → List OperationLogRow → Type 0 where
  here : {log : List OperationLogRow} → Steps mine log log
  next :
      {log log' log'' : List OperationLogRow}
      → Steps mine log log'
      → Step mine log' log''
      → Steps mine log log''

module _ (mine : OutboxClaim) (row : OperationLogRow) (held : is_held mine row ≡ true) where
  held_claimed_at : row.claimed_at ≡ some mine.claimed_at
  unfolding is_held
  held_claimed_at = ground arith

  held_is_live :
      (now : ℕ)
      → now < mine.claimed_at + outbox_claim_ttl_ms
      → is_live_claim now row.claimed_at ≡ true
  unfolding is_live_claim
  held_is_live now fresh = ground (arith, held_claimed_at)

  held_by_one : (claim : OutboxClaim) → claim ≢ mine → is_held claim row ≡ false
  unfolding is_held
  held_by_one claim ne = ground arith

  step_keeps : {log log' : List OperationLogRow} → Step mine log log' → Elem row log → Elem row log'
  unfolding claim_operation_log_batch claim_chain_successors write_held_status is_claimable
      held_operations_where
  step_keeps (batch log claim limit fresh) m =
      Elem-update_where _ _ row log m (ground (arith, held_is_live claim.claimed_at fresh))
  step_keeps (successors log claim anime_ids) m =
      Elem-update_where _ _ row log m (ground (arith, held_claimed_at))
  step_keeps (write log claim ids status ne) m =
      Elem-update_where _ _ row log m (ground (arith, held_by_one claim ne))
  step_keeps (queue log other) m = Elem-append_left row log (other ∷ []) m

  -- Whatever steps the other claims and new edits make before the claim expires, in any order, the
  -- row that it holds stays in the outbox as it is.
  pub held_row_survives :
      {log log' : List OperationLogRow} → Steps mine log log' → Elem row log → Elem row log'
  held_row_survives here m = m
  held_row_survives (next steps step) m = step_keeps step (held_row_survives steps m)

  -- Mutual exclusion: while the claim is live no batch, taken after any such steps and by either
  -- runtime, returns a row of the anime whose row it holds.
  pub no_second_claim :
      {log log' : List OperationLogRow} (claim : OutboxClaim) (limit : ℕ) (other : OperationLogRow)
      → Steps mine log log'
      → Elem row log
      → claim.claimed_at < mine.claimed_at + outbox_claim_ttl_ms
      → Elem other (claim_operation_log_batch claim limit log').0
      → other.anime_id ≢ row.anime_id
  unfolding is_claimed_key
  no_second_claim {log'} claim limit other steps m fresh taken same = ground (
    arith,
    any-false _ row log' (claimed_keys_are_free claim limit log' other taken)
        (held_row_survives steps m),
    held_is_live claim.claimed_at fresh,
    eq_iff row.anime_id other.anime_id,
  )
