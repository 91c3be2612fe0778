-- ===== src/Reconcile/Round/Settled.antt =====
-- A round that is answered lets go of its whole batch (`sendReconcileRound` of
-- `reconcile-round.helpers.ts`).
use autoreas_mobile.Prelude.{
  ℕ, ◌≤◌, String, ◌≡◌, ◌⊎◌, refl, ap, ◌∙◌, true, false, not, Option, List, [], ◌∷◌, includes, arith,
  Elem, Elem-any, Elem-filterb, Elem-map, nat_eq, nat_eq_refl, inl, inr, Bool-cases, filterb,
  any-false,
}
use autoreas_mobile.Database.{Database, JsonText, OperationLogRow, RemoteAnimeChange}
use autoreas_mobile.Outbox.Claim.{
  OutboxClaim, ids_of, is_held, held_operations_where, read_held_operation_ids,
}
use autoreas_mobile.Reconcile.Conflict.{ConflictOutcome, ClassifyUnconfirmedOperationsResult}
use autoreas_mobile.Reconcile.Conflict.Buckets.{
  count, outcome_ids, count_buckets, each_operation_has_one_fate,
}
use autoreas_mobile.Reconcile.Request.{JsonObject}
use autoreas_mobile.Reconcile.Writes.{apply_reconcile_response_writes}
use autoreas_mobile.Reconcile.Writes.Release.{
  IsReleased, settled_operation-IsReleased, free_operation_stays_free,
}
use autoreas_mobile.Reconcile.Round.{
  ReconcileRoundContext, ReconcileResponse, confirmed_ids, unconfirmed_ids, buckets, still_held,
  response_writes,
}

count-includes : (n : ℕ) (xs : List ℕ) → 1 ≤ count n xs → includes xs n ≡ true
count-includes n [] h = absurd (omega arith)
count-includes n (x ∷ xs) h = ground (arith, count-includes n xs)

includes-count : (n : ℕ) (xs : List ℕ) → includes xs n ≡ true → 1 ≤ count n xs
includes-count n [] h = absurd (ground arith)
includes-count n (x ∷ xs) h = ground (arith, includes-count n xs)

pub includes-id :
    (row : OperationLogRow) (rows : List OperationLogRow)
    → Elem row rows
    → includes (ids_of rows) row.id ≡ true
includes-id row rows m =
    Elem-any _ row.id (ids_of rows) (Elem-map (λ (r : OperationLogRow). r.id) row rows m)
      (nat_eq_refl row.id)

-- An outcome that the filter of the held operations keeps.
includes-held_outcomes :
    (held : List ℕ) (n : ℕ) (outcomes : List ConflictOutcome)
    → includes (outcome_ids outcomes) n ≡ true
    → includes held n ≡ true
    → includes
        (outcome_ids (filterb (λ (o : ConflictOutcome). includes held o.operation_id) outcomes))
        n
      ≡ true
includes-held_outcomes held n [] h held_n = h
includes-held_outcomes held n (o ∷ outcomes) h held_n =
    elim (Bool-cases (nat_eq o.operation_id n)) [
      | inl this ↦
          let same : o.operation_id ≡ n = ground arith in
          let kept : includes held o.operation_id ≡ true = ap (includes held) same ∙ held_n in
          rw kept (ground arith)
      | inr other ↦ ground (arith, includes-held_outcomes held n outcomes (ground arith) held_n)
    ]

pub held-Elem :
    (claim : OutboxClaim) (ids : List ℕ) (r : OperationLogRow) (log : List OperationLogRow)
    → Elem r log
    → includes ids r.id ≡ true
    → is_held claim r ≡ true
    → Elem r.id (read_held_operation_ids log ids claim)
unfolding read_held_operation_ids
held-Elem claim ids r log m named holds =
    Elem-map (λ (row : OperationLogRow). row.id) r (filterb (held_operations_where ids claim) log)
      (Elem-filterb (held_operations_where ids claim) r log m (rw (named, holds) refl))

-- An operation that the holder finds not held has no held row.
pub unheld-IsReleased :
    (claim : OutboxClaim) (ids : List ℕ) (n : ℕ) (log : List OperationLogRow)
    → includes ids n ≡ true
    → includes (read_held_operation_ids log ids claim) n ≡ false
    → IsReleased claim n log
unheld-IsReleased claim ids n log named unheld r m same = elim (Bool-cases (is_held claim r)) [
  | inr free ↦ free
  | inl holds ↦
      let missed =
        any-false (λ x. nat_eq x n) r.id (read_held_operation_ids log ids claim) unheld
          (held-Elem claim ids r log m (ap (includes ids) same ∙ named) holds) in
      absurd (ground (arith, missed, same))
]

module _ (parse : String → Option JsonObject) (context : ReconcileRoundContext)
    (response : ReconcileResponse) (bridge_tokens : String → Option ℕ)
    (pending_ops : List OperationLogRow) where
  in_a_bucket :
      (n : ℕ) (b : ClassifyUnconfirmedOperationsResult)
      → 1 ≤ count_buckets n b
      → (includes b.remaining_unconfirmed_ids n ≡ true)
        ⊎ ((includes b.dead_letter_ids n ≡ true)
            ⊎ (includes (outcome_ids b.conflict_outcomes) n ≡ true))
  in_a_bucket n b h = ground (
    arith,
    count-includes n b.remaining_unconfirmed_ids,
    count-includes n b.dead_letter_ids,
    count-includes n (outcome_ids b.conflict_outcomes),
  )

  module _ (json : JsonText) (changes : List RemoteAnimeChange) (now : ℕ) (db : Database)
      (row : OperationLogRow) (sent : Elem row pending_ops) where
    abbrev written_log : List OperationLogRow
    written_log =
        let params =
          response_writes parse context response bridge_tokens pending_ops changes
            db.operation_log in
        (apply_reconcile_response_writes json params now db).operation_log

    unconfirmed-includes :
        includes (confirmed_ids parse context response bridge_tokens pending_ops) row.id ≡ false
        → includes (unconfirmed_ids parse context response bridge_tokens pending_ops) row.id ≡ true
    unconfirmed-includes unconfirmed = includes-id row _ (
        Elem-filterb
          (λ (r : OperationLogRow).
            not (includes (confirmed_ids parse context response bridge_tokens pending_ops) r.id))
          row pending_ops sent (rw unconfirmed refl))

    bucket_of_unconfirmed :
        includes (confirmed_ids parse context response bridge_tokens pending_ops) row.id ≡ false
        → 1 ≤ count_buckets row.id (buckets parse context response bridge_tokens pending_ops)
    bucket_of_unconfirmed unconfirmed = omega (
      arith,
      each_operation_has_one_fate pending_ops response.applied_operations bridge_tokens row.id
          (unconfirmed_ids parse context response bridge_tokens pending_ops),
      includes-count row.id _ (unconfirmed-includes unconfirmed),
    )

    batch-IsReleased : IsReleased context.claim row.id written_log
    unfolding response_writes
    batch-IsReleased =
        let params =
          response_writes parse context response bridge_tokens pending_ops changes
            db.operation_log in
        let b = buckets parse context response bridge_tokens pending_ops in
        elim (Bool-cases
          (includes (confirmed_ids parse context response bridge_tokens pending_ops) row.id)) [
            | inl confirmed ↦
                settled_operation-IsReleased params row.id json now db (inr (inl confirmed))
            | inr unconfirmed ↦ elim (in_a_bucket row.id b (bucket_of_unconfirmed unconfirmed)) [
              | inl remaining ↦
                  settled_operation-IsReleased params row.id json now db (inl remaining)
              | inr (inl dead) ↦
                  settled_operation-IsReleased params row.id json now db (inr (inr (inl dead)))
              | inr (inr outcome) ↦
                  elim (Bool-cases (
                    includes
                      (still_held parse context response bridge_tokens pending_ops db.operation_log)
                      row.id)) [
                        | inl held ↦ settled_operation-IsReleased params row.id json now db (
                            inr (
                              inr (
                                inr (
                                  includes-held_outcomes _ row.id b.conflict_outcomes outcome
                                    held))))
                        | inr unheld ↦ free_operation_stays_free params row.id json now db (
                            unheld-IsReleased context.claim (ids_of pending_ops) row.id
                              db.operation_log (includes-id row pending_ops sent) unheld)
                      ]
            ]
          ]

    -- Once the answer to a round is written, no operation of its batch is held under its claim any
    -- more: each is confirmed, given up or back in the queue, and none waits for its claim to expire.
    pub answered_batch_is_released :
        (r : OperationLogRow) → Elem r written_log → r.id ≡ row.id → is_held context.claim r ≡ false
    answered_batch_is_released = batch-IsReleased
