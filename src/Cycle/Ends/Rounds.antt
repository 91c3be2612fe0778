-- ===== src/Cycle/Ends/Rounds.antt =====
-- The chain ends within its budget (`reconcile-round.helpers.ts`, `reconcile.helpers.ts`).
use autoreas_mobile.Prelude.{
  ℕ, zero, suc, ◌+◌, ◌≤◌, ◌<◌, ◌≡◌, refl, ◌∙◌, Bool, true, false, List, [], ◌∷◌, ◌++◌, is_empty,
  arith, Bool-cases, inl, inr,
}
use autoreas_mobile.Database.{OperationLogRow, pending}
use autoreas_mobile.Outbox.Claim.{OutboxClaim, read_held_operation_ids}
use autoreas_mobile.Reconcile.Round.{ReconcileRoundContext}
use autoreas_mobile.Cycle.{
  World, CycleState, IsTimed, SyncError, RoundResult, returned, threw, is_message_rejection,
}
use autoreas_mobile.Cycle.Send.{
  no_isolation, send_round_with, Isolation, IsolationStep, going, stopped, isolated_error,
  isolated_result, isolate_one, isolation_ended, isolate_on, isolate_each,
  send_one_message_per_request, send_reconcile_round, add_round_outcome,
}
use autoreas_mobile.Cycle.Ratings.{send_season_rating_round}
use autoreas_mobile.Cycle.Chain.{
  outbox_chain_budget_ms, SplitResult, split_returned, split_threw, ratings_of, edits_of,
  rate_split, send_edits, send_split_round, ChainState, after_round, ChainResult, finished, failed,
  out_of_fuel, chain_next, run_chain,
}
use autoreas_mobile.Cycle.Ends.{IsEarly, none-IsEarly, append-IsEarly}
use autoreas_mobile.Cycle.Ends.Sends.{
  IsEarlyResult, IsEarlyIsolation, revert-issued, release-issued, send_round_with-IsEarly,
}
use autoreas_mobile.Cycle.Ends.Rates.{send_season_rating_round-IsEarly}

abbrev IsEarlySplit : ℕ → SplitResult → Type 0
IsEarlySplit i (split_returned outcome s) = IsEarly i outcome.round.successors s
IsEarlySplit i (split_threw error s) = Unit

no_isolation-IsEarly : (context : ReconcileRoundContext) → IsEarlyIsolation context no_isolation
no_isolation-IsEarly context rows error s = omega (arith, revert-issued rows context.claim error s)

module _ (w : World) (context : ReconcileRoundContext) (timed : IsTimed w context.claim)
    (deadline : context.chain_deadline ≡ context.claim.claimed_at + outbox_chain_budget_ms) where
  abbrev IsEarlyStep : ℕ → IsolationStep → Type 0
  IsEarlyStep i (going iso) = IsEarly i iso.total.successors iso.state
  IsEarlyStep i (stopped error s) = i ≤ s.issued

  isolated_error-IsEarly :
      (i : ℕ) (rest : List OperationLogRow) (iso : Isolation) (error : SyncError) (s : CycleState)
      (rejection : Bool)
      → iso.state.issued ≤ s.issued
      → IsEarly i iso.total.successors iso.state
      → IsEarlyStep i (isolated_error w context rest iso error s rejection)
  isolated_error-IsEarly i rest iso error s true grown early = record {
    grows = omega (arith, early.grows, grown);
    sent = λ e. omega (arith, early.sent e, grown);
    within = early.within;
  }
  isolated_error-IsEarly i rest iso error s false grown early = omega (
    arith,
    early.grows,
    grown,
    release-issued (rest ++ iso.total.successors) context.claim pending s,
  )

  isolated_result-IsEarly :
      (i : ℕ) (rest : List OperationLogRow) (iso : Isolation) (result : RoundResult)
      → IsEarlyResult iso.state.issued result
      → IsEarly i iso.total.successors iso.state
      → IsEarlyStep i (isolated_result w context rest iso result)
  unfolding add_round_outcome
  isolated_result-IsEarly i rest iso (returned outcome s) single early =
      append-IsEarly i iso.total.successors outcome.successors iso.state s early single
  isolated_result-IsEarly i rest iso (threw error s) single early =
      isolated_error-IsEarly i rest iso error s (is_message_rejection error) single early

  isolate_one-IsEarly :
      (i : ℕ) (operation : OperationLogRow) (rest : List OperationLogRow) (iso : Isolation)
      → IsEarly i iso.total.successors iso.state
      → IsEarlyStep i (isolate_one w context operation rest iso)
  unfolding isolate_one
  isolate_one-IsEarly i operation rest iso early =
      let single_context : ReconcileRoundContext = record context {
        last_changelog_id = iso.total.next_last_changelog_id;
      } in
      elim (Bool-cases (
        is_empty
          (read_held_operation_ids iso.state.db.operation_log (operation.id ∷ []) context.claim))) [
            | inl lost ↦ rw lost early
            | inr holds ↦ rw holds (
                isolated_result-IsEarly i rest iso
                  (send_round_with w no_isolation single_context (operation ∷ []) iso.state)
                  (send_round_with-IsEarly w no_isolation single_context timed deadline
                    (no_isolation-IsEarly single_context) (operation ∷ []) iso.state)
                  early)
          ]

  isolate_on-IsEarly :
      (i : ℕ) (continue : Isolation → RoundResult) (step : IsolationStep)
      → ((iso : Isolation)
          → IsEarly i iso.total.successors iso.state
          → IsEarlyResult i (continue iso))
      → IsEarlyStep i step
      → IsEarlyResult i (isolate_on w context continue step)
  isolate_on-IsEarly i continue (going iso) continues early = continues iso early
  isolate_on-IsEarly i continue (stopped error s) continues grows = grows

  isolation_ended-IsEarly :
      (i : ℕ) (iso : Isolation) (delivered : Bool)
      → IsEarly i iso.total.successors iso.state
      → IsEarlyResult i (isolation_ended w context iso delivered)
  isolation_ended-IsEarly i iso true early = early
  isolation_ended-IsEarly i iso false early = early.grows

  isolate_each-IsEarly :
      (i : ℕ) (rows : List OperationLogRow) (iso : Isolation)
      → IsEarly i iso.total.successors iso.state
      → IsEarlyResult i (isolate_each w context rows iso)
  unfolding isolate_each
  isolate_each-IsEarly i [] iso early = isolation_ended-IsEarly i iso iso.delivered early
  isolate_each-IsEarly i (operation ∷ rest) iso early =
      isolate_on-IsEarly i (isolate_each w context rest) (isolate_one w context operation rest iso)
        (isolate_each-IsEarly i rest) (isolate_one-IsEarly i operation rest iso early)

  isolation-IsEarly : IsEarlyIsolation context (send_one_message_per_request w)
  unfolding send_one_message_per_request
  isolation-IsEarly rows error s =
      isolate_each-IsEarly s.issued rows _ (none-IsEarly s.issued s (omega arith))

  send_edits-IsEarly :
      (edits : List OperationLogRow) (first_round : Bool) (s : CycleState)
      → IsEarlyResult s.issued (send_edits w context edits first_round s)
  unfolding send_edits send_reconcile_round
  send_edits-IsEarly [] false s = none-IsEarly s.issued s (omega arith)
  send_edits-IsEarly [] true s =
      send_round_with-IsEarly w (send_one_message_per_request w) context timed deadline
        isolation-IsEarly [] s
  send_edits-IsEarly (edit ∷ edits) false s =
      send_round_with-IsEarly w (send_one_message_per_request w) context timed deadline
        isolation-IsEarly (edit ∷ edits) s
  send_edits-IsEarly (edit ∷ edits) true s =
      send_round_with-IsEarly w (send_one_message_per_request w) context timed deadline
        isolation-IsEarly (edit ∷ edits) s

  rate_split-IsEarly :
      (i : ℕ) (ratings : List OperationLogRow) (result : RoundResult)
      → IsEarlyResult i result
      → IsEarlySplit i (rate_split w context ratings result)
  rate_split-IsEarly i ratings (threw error s) early = tt
  rate_split-IsEarly i ratings (returned applied s) early =
      let rated = send_season_rating_round w context.claim context.chain_deadline ratings s in
      append-IsEarly i applied.successors rated.successors s rated.state early (
        send_season_rating_round-IsEarly w context.claim context.chain_deadline timed deadline
          ratings s)

  send_split_round-IsEarly :
      (round : List OperationLogRow) (first_round : Bool) (s : CycleState)
      → IsEarlySplit s.issued (send_split_round w context round first_round s)
  unfolding send_split_round
  send_split_round-IsEarly round first_round s =
      rate_split-IsEarly s.issued (ratings_of round)
        (send_edits w context (edits_of round) first_round s)
        (send_edits-IsEarly (edits_of round) first_round s)

-- What ran out of fuel.
abbrev pub IsOver : ChainResult → Type 0
IsOver (finished c) = Unit
IsOver (failed error s) = Unit
IsOver (out_of_fuel c) = ⊥

module _ (w : World) where
  chain_next-IsOver :
      (continue : ChainState → ChainResult) (c : ChainState) (result : SplitResult)
      → IsEarlySplit c.state.issued result
      → ((next : ChainState)
          → next.context.claim ≡ c.context.claim
          → next.context.chain_deadline ≡ c.context.chain_deadline
          → c.state.issued < next.state.issued
          → c.state.issued < outbox_chain_budget_ms
          → IsOver (continue next))
      → IsOver (chain_next w continue c result)
  chain_next-IsOver continue c (split_threw error s) early continues = tt
  chain_next-IsOver continue c (split_returned outcome s) early continues =
      elim (Bool-cases (is_empty outcome.round.successors)) [
        | inl over ↦ rw over tt
        | inr more ↦
            rw more (
              continues (after_round w c outcome s) refl refl (early.sent more) (early.within more))
      ]

  -- A chain whose claim is timed, and whose deadline is the budget after its claim, ends before one
  -- more round than the budget has milliseconds: the fuel of a round for each is enough.
  pub chain_ends :
      (fuel : ℕ) (claim : OutboxClaim) (c : ChainState)
      → IsTimed w claim
      → c.context.claim ≡ claim
      → c.context.chain_deadline ≡ claim.claimed_at + outbox_chain_budget_ms
      → 1 ≤ fuel
      → outbox_chain_budget_ms < c.state.issued + fuel
      → IsOver (run_chain w fuel c)
  unfolding run_chain
  chain_ends zero claim c timed same deadline some_fuel enough = absurd (omega (arith, some_fuel))
  chain_ends (suc fuel) claim c timed same deadline some_fuel enough =
      let timed' : IsTimed w c.context.claim = rw same timed in
      let deadline' : c.context.chain_deadline
          ≡ c.context.claim.claimed_at + outbox_chain_budget_ms =
        rw same deadline in
      chain_next-IsOver (run_chain w fuel) c
        (send_split_round w c.context c.round c.first_round c.state)
        (send_split_round-IsEarly w c.context timed' deadline' c.round c.first_round c.state)
        (λ next kept kept_deadline grown inside.
          chain_ends fuel c.context.claim next timed' kept (kept_deadline ∙ deadline')
            (omega (arith, enough, inside)) (omega (arith, enough, grown)))
