-- ===== src/Reconcile/Writes/Release.antt =====
-- No claim outlives its answer (`applyReconcileResponseWrites` of `reconcile-round.helpers.ts`).
use autoreas_mobile.Prelude.{
  ℕ, ◌≡◌, ◌⊎◌, refl, ap, ◌∙◌, none, Bool, true, false, List, [], ◌∷◌, includes, arith, Elem, nat_eq,
  inl, inr, Bool-cases,
}
use autoreas_mobile.Sql.{update_where, update_where-Elem}
use autoreas_mobile.Database.{Database, JsonText, OperationLogRow, OperationStatus}
use autoreas_mobile.Drain.{apply_staged_and_incoming}
use autoreas_mobile.Outbox.Claim.{OutboxClaim, is_held, held_operations_where, write_held_status}
use autoreas_mobile.Reconcile.Conflict.{ConflictOutcome}
use autoreas_mobile.Reconcile.Writes.{
  ApplyReconcileResponseWritesParams, write_conflict_outcomes, write_statuses, write_tokens,
  apply_reconcile_response_writes,
}
use autoreas_mobile.Reconcile.Conflict.Buckets.{outcome_ids}

-- No row with the id is still held under the claim.
abbrev pub IsReleased : OutboxClaim → ℕ → List OperationLogRow → Type 0
IsReleased claim n log = (r : OperationLogRow) → Elem r log → r.id ≡ n → is_held claim r ≡ false

module _ (claim : OutboxClaim) (n : ℕ) (set : OperationLogRow → OperationLogRow)
    (frees : (r : OperationLogRow) → is_held claim (set r) ≡ false) where
  pub release :
      (ids : List ℕ) (log : List OperationLogRow)
      → includes ids n ≡ true
      → IsReleased claim n (update_where (held_operations_where ids claim) set log)
  unfolding held_operations_where
  release ids log named r m same = elim (update_where-Elem _ set r log m) [
    | inl (old, missed) ↦
        let r_named : includes ids r.id ≡ true = ap (includes ids) same ∙ named in
        ground (arith, missed, r_named)
    | inr (s, old, hit, e) ↦ ap (is_held claim) e ∙ frees s
  ]

  pub still-IsReleased :
      (test : OperationLogRow → Bool) (log : List OperationLogRow)
      → IsReleased claim n log
      → IsReleased claim n (update_where test set log)
  still-IsReleased test log free r m same = elim (update_where-Elem test set r log m) [
    | inl (old, missed) ↦ free r old same
    | inr (s, old, hit, e) ↦ ap (is_held claim) e ∙ frees s
  ]

module _ (claim : OutboxClaim) (n : ℕ) where
  unclaimed_is_free :
      (r : OperationLogRow) (status : OperationStatus)
      → is_held claim (record r { status = status; claim_owner = none; claimed_at = none }) ≡ false
  unfolding is_held
  unclaimed_is_free r status = ground arith

  pub write_held_status-releases :
      (ids : List ℕ) (status : OperationStatus) (log : List OperationLogRow)
      → (includes ids n ≡ true) ⊎ IsReleased claim n log
      → IsReleased claim n (write_held_status ids claim status log)
  unfolding write_held_status
  write_held_status-releases ids status log (inl named) =
      release claim n _ (λ r. unclaimed_is_free r status) ids log named
  write_held_status-releases ids status log (inr free) =
      still-IsReleased claim n _ (λ r. unclaimed_is_free r status) _ log free

  write_conflict_outcomes-keeps :
      (outcomes : List ConflictOutcome) (db : Database)
      → IsReleased claim n db.operation_log
      → IsReleased claim n (write_conflict_outcomes outcomes claim db).operation_log
  unfolding write_conflict_outcomes is_held
  write_conflict_outcomes-keeps [] db free = free
  write_conflict_outcomes-keeps (o ∷ outcomes) db free =
      write_conflict_outcomes-keeps outcomes _
        (still-IsReleased claim n _ (λ r. ground arith) _ db.operation_log free)

  write_conflict_outcomes-releases :
      (outcomes : List ConflictOutcome) (db : Database)
      → includes (outcome_ids outcomes) n ≡ true
      → IsReleased claim n (write_conflict_outcomes outcomes claim db).operation_log
  unfolding write_conflict_outcomes is_held
  write_conflict_outcomes-releases [] db named = absurd (ground arith)
  write_conflict_outcomes-releases (o ∷ outcomes) db named =
      elim (Bool-cases (nat_eq o.operation_id n)) [
        | inl this ↦ write_conflict_outcomes-keeps outcomes _ (
            release claim n _ (λ r. ground arith) (o.operation_id ∷ []) db.operation_log
              (ground arith))
        | inr other ↦ write_conflict_outcomes-releases outcomes _ (ground arith)
      ]

-- An id is in one of the four lists that an answer is settled by.
abbrev pub IsSettled : ApplyReconcileResponseWritesParams → ℕ → Type 0
IsSettled p n =
    (includes p.remaining_unconfirmed_ids n ≡ true)
    ⊎ ((includes p.confirmed_ids n ≡ true)
        ⊎ ((includes p.dead_letter_ids n ≡ true)
            ⊎ (includes (outcome_ids p.conflict_outcomes) n ≡ true)))

module _ (p : ApplyReconcileResponseWritesParams) (n : ℕ) where
  write_statuses-releases :
      (log : List OperationLogRow)
      → (includes p.remaining_unconfirmed_ids n ≡ true)
        ⊎ ((includes p.confirmed_ids n ≡ true)
            ⊎ ((includes p.dead_letter_ids n ≡ true) ⊎ IsReleased p.claim n log))
      → IsReleased p.claim n (write_statuses p log)
  unfolding write_statuses
  write_statuses-releases log (inl a) = write_held_status-releases p.claim n _ _ _ (inl a)
  write_statuses-releases log (inr (inl a)) =
      write_held_status-releases p.claim n _ _ _
        (inr (write_held_status-releases p.claim n _ _ _ (inl a)))
  write_statuses-releases log (inr (inr a)) = write_held_status-releases p.claim n _ _ _ (
      inr (
        write_held_status-releases p.claim n _ _ _
          (inr (write_held_status-releases p.claim n _ _ _ a))))

  -- Once an answer is written, no operation that it settles is held under its claim any more,
  -- whichever of the four lists names it.
  pub settled_operation-IsReleased :
      (json : JsonText) (now : ℕ) (db : Database)
      → IsSettled p n
      → IsReleased p.claim n (apply_reconcile_response_writes json p now db).operation_log
  unfolding apply_reconcile_response_writes
  settled_operation-IsReleased json now db (inl a) = write_statuses-releases _ (inl a)
  settled_operation-IsReleased json now db (inr (inl a)) = write_statuses-releases _ (inr (inl a))
  settled_operation-IsReleased json now db (inr (inr (inl a))) =
      write_statuses-releases _ (inr (inr (inl a)))
  settled_operation-IsReleased json now db (inr (inr (inr a))) =
      write_statuses-releases _
        (inr (inr (inr (write_conflict_outcomes-releases p.claim n p.conflict_outcomes _ a))))

  log_of_pulled :
      (json : JsonText) (now : ℕ) (db : Database)
      → (write_tokens p.confirmed_anime_tokens
          (apply_staged_and_incoming json p.normalized_changes now db).1).operation_log
        ≡ db.operation_log
  unfolding apply_staged_and_incoming
  log_of_pulled json now db = refl

  -- No write of an answer takes a claim.
  pub free_operation_stays_free :
      (json : JsonText) (now : ℕ) (db : Database)
      → IsReleased p.claim n db.operation_log
      → IsReleased p.claim n (apply_reconcile_response_writes json p now db).operation_log
  unfolding apply_reconcile_response_writes
  free_operation_stays_free json now db free = write_statuses-releases _ (
      inr (
        inr (
          inr (
            write_conflict_outcomes-keeps p.claim n p.conflict_outcomes _
              (rw (log_of_pulled json now db) free)))))
