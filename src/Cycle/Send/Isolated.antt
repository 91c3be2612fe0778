-- ===== src/Cycle/Send/Isolated.antt =====
-- A rejected batch that is sent one message at a time lets go of every message
-- (`sendOneMessagePerRequest` of `reconcile-round.helpers.ts`).
use autoreas_mobile.Prelude.{
  ℕ, ◌≡◌, ◌⊎◌, refl, Bool, true, false, List, [], ◌∷◌, ◌++◌, is_empty, includes, arith, inl, inr,
  Bool-cases,
}
use autoreas_mobile.Database.{OperationLogRow, pending}
use autoreas_mobile.Outbox.Claim.{ids_of, read_held_operation_ids}
use autoreas_mobile.Reconcile.Writes.Release.{}
use autoreas_mobile.Reconcile.Round.{ReconcileRoundContext}
use autoreas_mobile.Cycle.{
  World, CycleState, IsQuiet, SyncError, RoundResult, returned, threw, is_message_rejection,
}
use autoreas_mobile.Cycle.Held.{
  IsAccounted, append_nil-IsAccounted, includes-append, unheld_row-IsReleased,
}
use autoreas_mobile.Cycle.Send.{
  send_round_with, no_isolation, Isolation, IsolationStep, going, stopped, isolated_error,
  isolated_result, isolate_one, isolation_ended, isolate_on, isolate_each,
  send_one_message_per_request, send_reconcile_round, add_round_outcome,
}
use autoreas_mobile.Cycle.Send.Released.{
  IsSettledResult, SettlesRejected, release-IsReleased, revert-IsReleased, send_round_with-settles,
}

no_isolation-settles :
    (context : ReconcileRoundContext) (n : ℕ) (Known : Type 0)
    → SettlesRejected context n Known no_isolation
no_isolation-settles context n Known rows error s covers accounted =
    let free = revert-IsReleased context.claim n rows error s accounted in
    (λ rejected. free, inr free)

module _ (w : World) (context : ReconcileRoundContext) (n : ℕ) (Known : Type 0)
    (quiet : IsQuiet w context.claim) where
  -- The state of the isolation, where the messages of `rest` are not sent yet.
  abbrev IsIsolating : List OperationLogRow → Isolation → Type 0
  IsIsolating rest iso =
      IsAccounted context.claim n (rest ++ iso.total.successors) iso.state.db.operation_log
      × (iso.delivered ≡ false → iso.total.successors ≡ [])

  abbrev IsIsolatingStep : List OperationLogRow → IsolationStep → Type 0
  IsIsolatingStep rest (going iso) = IsIsolating rest iso
  IsIsolatingStep rest (stopped error s) = IsSettledResult context.claim n Known (threw error s)

  module _ (rest : List OperationLogRow) (iso : Isolation)
      (undelivered : iso.delivered ≡ false → iso.total.successors ≡ []) where
    -- A message that the holder of the claim is done with.
    isolated_error-keeps :
        (error : SyncError) (s : CycleState) (rejection : Bool)
        → is_message_rejection error ≡ rejection
        → (rejection ≡ true
            → IsAccounted context.claim n (rest ++ iso.total.successors) s.db.operation_log)
        → Known ⊎ IsAccounted context.claim n (rest ++ iso.total.successors) s.db.operation_log
        → IsIsolatingStep rest (isolated_error w context rest iso error s rejection)
    isolated_error-keeps error s true same rejected accounted = (rejected refl, undelivered)
    isolated_error-keeps error s false same rejected (inl known) =
        (λ r. absurd (ground (arith, r, same)), inl known)
    isolated_error-keeps error s false same rejected (inr accounted) =
        let free =
          release-IsReleased context.claim n (rest ++ iso.total.successors) pending s accounted in
        (λ r. free, inr free)

    error_after_known :
        (error : SyncError) (s : CycleState)
        → IsSettledResult context.claim n Known (threw error s)
        → IsIsolatingStep rest
            (isolated_error w context rest iso error s (is_message_rejection error))
    error_after_known error s (rejected, inl known) =
        isolated_error-keeps error s (is_message_rejection error) refl (λ r. inr (rejected r))
          (inl known)
    error_after_known error s (rejected, inr free) =
        isolated_error-keeps error s (is_message_rejection error) refl (λ r. inr (rejected r))
          (inr (inr free))

    named_after :
        (successors : List OperationLogRow)
        → includes (ids_of (rest ++ iso.total.successors)) n ≡ true
        → includes (ids_of (rest ++ (iso.total.successors ++ successors))) n ≡ true
    named_after successors named = ground (
      arith,
      includes-append n rest iso.total.successors,
      includes-append n rest (iso.total.successors ++ successors),
      includes-append n iso.total.successors successors,
      named,
    )

    -- The result of one message, where its rows are settled and the others accounted for.
    isolated_result-keeps :
        (result : RoundResult)
        → (includes (ids_of (rest ++ iso.total.successors)) n ≡ true)
          ⊎ IsSettledResult context.claim n Known result
        → IsIsolatingStep rest (isolated_result w context rest iso result)
    unfolding add_round_outcome
    isolated_result-keeps (threw error s) (inl named) =
        isolated_error-keeps error s (is_message_rejection error) refl (λ r. inl named)
          (inr (inl named))
    isolated_result-keeps (threw error s) (inr settled) = error_after_known error s settled
    isolated_result-keeps (returned outcome s) (inl named) =
        (inl (named_after outcome.successors named), λ e. absurd (ground (arith, e)))
    isolated_result-keeps (returned outcome s) (inr (inr free)) =
        (inr free, λ e. absurd (ground (arith, e)))
    isolated_result-keeps (returned outcome s) (inr (inl named)) = (
      inl (
          ground (
            arith,
            includes-append n rest (iso.total.successors ++ outcome.successors),
            includes-append n iso.total.successors outcome.successors,
            named,
          )),
      λ e. absurd (ground (arith, e)),
    )

    -- What is not named by the rows after a message is named by it, or free.
    message-IsAccounted :
        (operation : OperationLogRow)
        → IsAccounted context.claim n
            (operation ∷ rest ++ iso.total.successors)
            iso.state.db.operation_log
        → includes (ids_of (rest ++ iso.total.successors)) n ≡ false
        → IsAccounted context.claim n (operation ∷ []) iso.state.db.operation_log
    message-IsAccounted operation (inr free) unnamed = inr free
    message-IsAccounted operation (inl named) unnamed = inl (ground (arith, named, unnamed))

    isolate_one-keeps :
        (operation : OperationLogRow)
        → (includes (ids_of (operation ∷ [])) n ≡ true → Known)
        → IsAccounted context.claim n
            (operation ∷ rest ++ iso.total.successors)
            iso.state.db.operation_log
        → IsIsolatingStep rest (isolate_one w context operation rest iso)
    unfolding isolate_one
    isolate_one-keeps operation covers accounted =
        let held =
          read_held_operation_ids iso.state.db.operation_log (operation.id ∷ []) context.claim in
        let single =
          send_round_with w no_isolation
            (record context { last_changelog_id = iso.total.next_last_changelog_id })
            (operation ∷ []) iso.state in
        elim (Bool-cases (includes (ids_of (rest ++ iso.total.successors)) n)) [
          | inl named ↦ elim (Bool-cases (is_empty held)) [
            | inl skipped ↦ rw skipped (inl named, undelivered)
            | inr sent ↦ rw sent (isolated_result-keeps single (inl named))
          ]
          | inr unnamed ↦
              let message = message-IsAccounted operation accounted unnamed in
              elim (Bool-cases (is_empty held)) [
                | inl skipped ↦ rw skipped (
                  inr (
                      unheld_row-IsReleased context.claim n operation iso.state.db.operation_log
                        skipped message),
                  undelivered,
                )
                | inr sent ↦ rw sent (
                    isolated_result-keeps single (
                      inr (
                        send_round_with-settles w n Known no_isolation
                          (record context { last_changelog_id = iso.total.next_last_changelog_id })
                          (no_isolation-settles
                            (record context {
                              last_changelog_id = iso.total.next_last_changelog_id;
                            })
                            n Known)
                          quiet (operation ∷ []) iso.state covers message)))
              ]
        ]

  isolate_on-settles :
      (rest : List OperationLogRow) (continue : Isolation → RoundResult) (step : IsolationStep)
      → ((iso : Isolation)
          → IsIsolating rest iso
          → IsSettledResult context.claim n Known (continue iso))
      → IsIsolatingStep rest step
      → IsSettledResult context.claim n Known (isolate_on w context continue step)
  isolate_on-settles rest continue (going iso) continues keeps = continues iso keeps
  isolate_on-settles rest continue (stopped error s) continues free = free

  isolation_ended-settles :
      (iso : Isolation) (delivered : Bool)
      → iso.delivered ≡ delivered
      → IsIsolating [] iso
      → IsSettledResult context.claim n Known (isolation_ended w context iso delivered)
  isolation_ended-settles iso true e (accounted, undelivered) = accounted
  isolation_ended-settles iso false e (inr free, undelivered) = (λ r. free, inr free)
  isolation_ended-settles iso false e (inl named, undelivered) =
      absurd (ground (arith, named, undelivered e))

  isolate_each-settles :
      (rows : List OperationLogRow) (iso : Isolation)
      → (includes (ids_of rows) n ≡ true → Known)
      → IsIsolating rows iso
      → IsSettledResult context.claim n Known (isolate_each w context rows iso)
  unfolding isolate_each
  isolate_each-settles [] iso covers inv = isolation_ended-settles iso iso.delivered refl inv
  isolate_each-settles (operation ∷ rest) iso covers (accounted, undelivered) =
      isolate_on-settles rest (isolate_each w context rest)
        (isolate_one w context operation rest iso)
        (λ next. isolate_each-settles rest next (λ named. covers (ground (arith, named))))
        (isolate_one-keeps rest iso undelivered operation (λ named. covers (ground (arith, named)))
          accounted)

  send_one_message_per_request-settles :
      SettlesRejected context n Known (send_one_message_per_request w)
  unfolding send_one_message_per_request
  send_one_message_per_request-settles rows error s covers accounted =
      isolate_each-settles rows _ covers
        (append_nil-IsAccounted context.claim n rows _ accounted, λ e. refl)

  -- However a round ends, answered, refused, isolated or unwritten: where it returns, what the claim
  -- still holds of it are the successors that it returns; where it throws, no more than its rows.
  pub send_reconcile_round-settles :
      (rows : List OperationLogRow) (s : CycleState)
      → (includes (ids_of rows) n ≡ true → Known)
      → IsAccounted context.claim n rows s.db.operation_log
      → IsSettledResult context.claim n Known (send_reconcile_round w context rows s)
  unfolding send_reconcile_round
  send_reconcile_round-settles rows s covers accounted =
      send_round_with-settles w n Known (send_one_message_per_request w) context
        send_one_message_per_request-settles quiet rows s covers accounted
