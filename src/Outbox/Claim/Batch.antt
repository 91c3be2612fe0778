-- ===== src/Outbox/Claim/Batch.antt =====
-- Which rows a batch claims (`outbox-claim.helpers.ts`): at most `limit`, one to an anime, the
-- oldest of each free anime, and with room every such row.
use autoreas_mobile.Prelude.{
  ℕ, ◌≤◌, ◌≡◌, sym, ap, ◌∙◌, true, false, not, ◌&&◌, some, List, [], ◌∷◌, ◌==◌, filterb, length,
  Elem, nat_eq, includes, arith, eq_iff, eq_refl, Elem-filterb, Elem-map, any-false, Elem-any,
  length-take-le, length-filterb-le, length-map, take-all,
}
use autoreas_mobile.Sql.{update_where, Elem-update_where_hit}
use autoreas_mobile.Sql.Order.{Elem-sort_by, length-sort_by}
use autoreas_mobile.Database.{OperationLogRow}
use autoreas_mobile.Outbox.Backlog.{
  is_live_claim, is_claimed_key, has_status, is_before, is_oldest_of_anime, ranked_rows,
  deduped_backlog,
}
use autoreas_mobile.Outbox.Claim.{
  OutboxClaim, queued_statuses, read_held_operation_ids, under_claim, as_processing, won_rows,
  ids_of, is_claimable, claim_candidates, claim_operation_log_batch,
}
use autoreas_mobile.Outbox.Claim.Exclusion.{IsCandidate, IsCandidate-facts, won_rows_inv}

length-won_rows :
    (claim : OutboxClaim) (candidates log : List OperationLogRow)
    → length (won_rows claim candidates log) ≤ length candidates
unfolding won_rows
length-won_rows claim candidates log =
    let held = read_held_operation_ids log (ids_of candidates) claim in
    omega (
      arith,
      length-map as_processing (filterb (λ r. includes held r.id) candidates),
      length-filterb-le (λ (r : OperationLogRow). includes held r.id) candidates,
    )

length-candidates :
    (now limit : ℕ) (log : List OperationLogRow) → length (claim_candidates now limit log) ≤ limit
unfolding claim_candidates
length-candidates now limit log =
    ground (arith, length-take-le limit (deduped_backlog queued_statuses (some now) log))

module _ (claim : OutboxClaim) (limit : ℕ) (log : List OperationLogRow) where
  abbrev claimed : List OperationLogRow
  claimed = (claim_operation_log_batch claim limit log).0

  -- A batch is bounded by its limit.
  pub length-claim_operation_log_batch : length claimed ≤ limit
  unfolding claim_operation_log_batch
  length-claim_operation_log_batch = omega (
    arith,
    length-won_rows claim (claim_candidates claim.claimed_at limit log)
        (claim_operation_log_batch claim limit log).1,
    length-candidates claim.claimed_at limit log,
  )

  oldest_candidate :
      (c other : OperationLogRow)
      → IsCandidate claim.claimed_at log c
      → Elem other log
      → has_status queued_statuses other ≡ true
      → other.anime_id ≡ c.anime_id
      → is_before other c ≡ false
  unfolding is_oldest_of_anime ranked_rows
  oldest_candidate c other candidate stored queued same =
      let ranked : Elem other (ranked_rows queued_statuses (some claim.claimed_at) log) =
        Elem-filterb _ other log stored (ground (arith, candidate.free, same, queued)) in
      ground (
        arith,
        any-false (λ (o : OperationLogRow). (o.anime_id == c.anime_id) && is_before o c) other
            (ranked_rows queued_statuses (some claim.claimed_at) log)
            (ground (arith, candidate.oldest)) ranked,
        eq_iff other.anime_id c.anime_id,
        same,
      )

  -- First in, first out for each anime: a claimed row has no older queued row of its anime.
  pub claimed_rows_are_oldest :
      (row other : OperationLogRow)
      → Elem row claimed
      → Elem other log
      → has_status queued_statuses other ≡ true
      → other.anime_id ≡ row.anime_id
      → is_before other row ≡ false
  unfolding claim_operation_log_batch is_before
  claimed_rows_are_oldest row other taken stored queued same =
      let w = won_rows_inv claim (claim_candidates claim.claimed_at limit log) _ row taken in
      let facts = IsCandidate-facts claim.claimed_at limit log w.0 w.1 in
      ground (
        arith,
        w.2,
        oldest_candidate w.0 other facts stored queued
            (same ∙ ap (λ (r : OperationLogRow). r.anime_id) w.2),
      )

  -- A batch holds at most one row of each anime.
  pub claimed_rows_one_per_anime :
      (row other : OperationLogRow)
      → Elem row claimed
      → Elem other claimed
      → row.anime_id ≡ other.anime_id
      → row.id ≡ other.id
  unfolding claim_operation_log_batch is_before
  claimed_rows_one_per_anime row other taken taken' same =
      let w = won_rows_inv claim (claim_candidates claim.claimed_at limit log) _ row taken in
      let w' = won_rows_inv claim (claim_candidates claim.claimed_at limit log) _ other taken' in
      let facts = IsCandidate-facts claim.claimed_at limit log w.0 w.1 in
      let facts' = IsCandidate-facts claim.claimed_at limit log w'.0 w'.1 in
      let keys : w.0.anime_id ≡ w'.0.anime_id = ground (arith, w.2, w'.2, same) in
      ground (
        arith,
        w.2,
        w'.2,
        oldest_candidate w.0 w'.0 facts facts'.stored facts'.queued (sym keys),
        oldest_candidate w'.0 w.0 facts' facts.stored facts.queued keys,
      )

  abbrev ranked_now : List OperationLogRow
  ranked_now = ranked_rows queued_statuses (some claim.claimed_at) log

  length-deduped : length (deduped_backlog queued_statuses (some claim.claimed_at) log) ≤ length log
  unfolding deduped_backlog
  length-deduped = omega (
    arith,
    length-sort_by (λ a b. not (is_before b a))
        (filterb (is_oldest_of_anime ranked_now) ranked_now),
    length-filterb-le (is_oldest_of_anime ranked_now) ranked_now,
    length-filterb-le
        (λ (r : OperationLogRow).
          has_status queued_statuses r && not (is_claimed_key log claim.claimed_at r.anime_id))
        log,
  )

  positive_limit :
      (row : OperationLogRow) (rows : List OperationLogRow)
      → Elem row rows
      → length rows ≤ limit
      → nat_eq limit 0 ≡ false
  positive_limit row [] m room = absurd m
  positive_limit row (r ∷ rows) m room = ground arith

  module _ (row : OperationLogRow) (stored : Elem row log)
      (queued : has_status queued_statuses row ≡ true)
      (free : is_claimed_key log claim.claimed_at row.anime_id ≡ false)
      (oldest : is_oldest_of_anime (ranked_rows queued_statuses (some claim.claimed_at) log) row
        ≡ true)
      (room : length log ≤ limit) where
    candidate_of : Elem row (claim_candidates claim.claimed_at limit log)
    unfolding claim_candidates
    candidate_of =
        rw
          (
            positive_limit row log stored room,
            take-all limit (deduped_backlog queued_statuses (some claim.claimed_at) log)
                (omega (arith, length-deduped)),
          )
          (Elem-sort_by _ row _ (
            Elem-filterb _ row _ (Elem-filterb _ row log stored (ground (arith, free, queued)))
              oldest))

    abbrev candidate_ids : List ℕ
    candidate_ids = ids_of (claim_candidates claim.claimed_at limit log)

    includes-candidate : includes candidate_ids row.id ≡ true
    includes-candidate =
        Elem-any _ row.id candidate_ids
          (Elem-map (λ (r : OperationLogRow). r.id) row _ candidate_of) (ground arith)

    not_live : is_live_claim claim.claimed_at row.claimed_at ≡ false
    unfolding is_claimed_key
    not_live = ground (arith, any-false _ row log free stored, eq_refl row.anime_id)

    abbrev log_after : List OperationLogRow
    log_after = update_where (is_claimable candidate_ids claim.claimed_at) (under_claim claim) log

    held_after : includes (read_held_operation_ids log_after candidate_ids claim) row.id ≡ true
    unfolding read_held_operation_ids is_claimable
    held_after =
        Elem-any _ row.id (read_held_operation_ids log_after candidate_ids claim)
          (Elem-map (λ (r : OperationLogRow). r.id) (under_claim claim row) _
            (Elem-filterb _ (under_claim claim row) log_after
              (Elem-update_where_hit _ (under_claim claim) row log stored
                (ground (arith, includes-candidate, not_live)))
              (ground (arith, includes-candidate))))
          (ground arith)

    -- Where the limit is no smaller than the outbox, nothing that is due is left behind: a queued row whose anime is free and
    -- has no older queued row is claimed. An operation that a cycle left in `processing` is so taken
    -- again once its claim has expired.
    pub due_row_is_claimed : Elem (as_processing row) claimed
    unfolding claim_operation_log_batch
    due_row_is_claimed =
        unfold won_rows in
        Elem-map as_processing row _
          (Elem-filterb _ row (claim_candidates claim.claimed_at limit log) candidate_of held_after)
