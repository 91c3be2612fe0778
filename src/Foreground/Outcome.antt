-- ===== src/Foreground/Outcome.antt =====
-- The outcome of a foreground cycle (`runCoordinatedForegroundSyncCycle`).
use mathlib.Core.Bool.{true≢false}
use autoreas_mobile.Prelude.{
  ℕ, ◌+◌, ◌<◌, Bool, true, false, ◌≡◌, refl, sym, arith, Bool-cases, inl, inr, if◌then◌else◌,
}
use autoreas_mobile.Database.{Database}
use autoreas_mobile.Connection.{
  Connection, SyncConnectionStatus, idle, online, CycleFailure, mark_sync_connection_succeeded,
  mark_sync_connection_failed, publish_sync_connection_attempt, begin_sync_connection_attempt,
}
use autoreas_mobile.Cycle.{CycleState, write_failed, IsTimed}
use autoreas_mobile.Cycle.Chain.{
  js_claim, claimed_chain, run_chain, sync_result, ChainResult, finished, failed, out_of_fuel,
  total_backlog_row_count, outbox_chain_budget_ms, SyncResult, synced_pending, sync_failed,
  sync_out_of_fuel, SyncPendingOperationsResult, sync_pending_operations,
}
use autoreas_mobile.Cycle.Ends.Rounds.{IsOver, chain_ends}
use autoreas_mobile.Flush.{SnapshotHealDemand}
use autoreas_mobile.Runtime.{
  SyncRuntimeStatusPatch, build_sync_attempt_started_patch, build_sync_attempt_succeeded_patch,
}
use autoreas_mobile.Foreground.{
  Pass, Surroundings, Telemetry, ForegroundState, ForegroundResult, cycle_returned, cycle_threw,
  cycle_out_of_fuel, heal_snapshot_on_demand, publish_attempt, publish_failure, cycle_failed,
  run_pass, succeeded_or_failed, settle_cycle, after_pull, after_sends, after_start, failure_of,
  run_coordinated_foreground_sync_cycle,
}
use autoreas_mobile.Foreground.Shown.{
  IsShown, failure_kind, succeeded-IsShown, left_pending-IsShown, failed-IsShown, published-IsShown,
}

module _ (w : Surroundings) where
  publish_failure-IsShown :
      (attempt : ℕ) (error : CycleFailure) (s : ForegroundState)
      → IsShown attempt (failure_kind error) (publish_failure w attempt error s).connection
  unfolding publish_failure
  publish_failure-IsShown attempt error s =
      published-IsShown attempt (failure_kind error) w.failed.meanwhile
        (mark_sync_connection_failed attempt error w.failed.instant) s.connection
        (λ d. failed-IsShown attempt w.failed.instant d error)

  -- What is shown of a cycle whose sends gave a result. A cycle without fuel has no outcome.
  pub IsOutcome : ℕ → SyncResult → ForegroundResult → Type 0
  unfolding IsShown
  IsOutcome attempt sent (cycle_returned count t) =
      (result : SyncPendingOperationsResult) × (c : CycleState) × (sent ≡ synced_pending result c)
      × (count ≡ result.synced_count)
      × IsShown attempt (if result.has_more_pending then idle else online) t.connection
  IsOutcome attempt sent (cycle_threw error t) = IsShown attempt (failure_kind error) t.connection
  IsOutcome attempt sent cycle_out_of_fuel = ⊥

  either-IsOutcome :
      (attempt : ℕ) (sent : SyncResult) (test : Bool) (then_result else_result : ForegroundResult)
      → (test ≡ true → IsOutcome attempt sent then_result)
      → (test ≡ false → IsOutcome attempt sent else_result)
      → IsOutcome attempt sent (if test then then_result else else_result)
  either-IsOutcome attempt sent true then_result else_result holds fails = holds refl
  either-IsOutcome attempt sent false then_result else_result holds fails = fails refl

  cycle_failed-IsOutcome :
      (attempt : ℕ) (sent : SyncResult) (demand : SnapshotHealDemand) (error : CycleFailure)
      (s : ForegroundState)
      → IsOutcome attempt sent (cycle_failed w attempt demand error s)
  unfolding IsOutcome cycle_failed
  cycle_failed-IsOutcome attempt sent demand error s =
      publish_failure-IsShown attempt error
        (heal_snapshot_on_demand w demand w.heal_after_failure s)

  module _ (attempt : ℕ) (telemetry : Telemetry) (patch : SyncRuntimeStatusPatch)
      (publish_connection : Connection → Connection) (s : ForegroundState) where
    pub publish_attempt-db :
        (publish_attempt w attempt telemetry patch publish_connection s).1.db ≡ s.db
    unfolding publish_attempt
    publish_attempt-db =
        elim (Bool-cases
          (publish_sync_connection_attempt attempt telemetry.meanwhile publish_connection
            s.connection).is_persisted) [
              | inr h ↦ rw h refl
              | inl h ↦ elim (Bool-cases telemetry.is_failed) [
                | inl k ↦ rw h (rw k refl)
                | inr k ↦ rw h (rw k refl)
              ]
            ]

    publish_attempt-IsShown :
        (kind : SyncConnectionStatus)
        → ((d : Connection) → IsShown attempt kind (publish_connection d))
        → (publish_attempt w attempt telemetry patch publish_connection s).0 ≡ false
        → IsShown attempt kind
            (publish_attempt w attempt telemetry patch publish_connection s).1.connection
    unfolding publish_attempt
    publish_attempt-IsShown kind shows =
        let shown =
          published-IsShown attempt kind telemetry.meanwhile publish_connection s.connection
            shows in
        elim (Bool-cases
          (publish_sync_connection_attempt attempt telemetry.meanwhile publish_connection
            s.connection).is_persisted) [
              | inr h ↦ rw h (λ went. shown)
              | inl h ↦ elim (Bool-cases telemetry.is_failed) [
                | inl k ↦ rw h (rw k (λ went. absurd (true≢false went)))
                | inr k ↦ rw h (rw k (λ went. shown))
              ]
            ]

  module _ (attempt : ℕ) (demand : SnapshotHealDemand) (result : SyncPendingOperationsResult)
      (c : CycleState) where
    succeeded-IsOutcome :
        (p : Bool × ForegroundState)
        → result.has_more_pending ≡ false
        → (p.0 ≡ false → IsShown attempt online p.1.connection)
        → IsOutcome attempt
            (synced_pending result c)
            (succeeded_or_failed w attempt demand result.synced_count p)
    unfolding IsOutcome succeeded_or_failed
    succeeded-IsOutcome (true, s) nothing_more shown =
        cycle_failed-IsOutcome attempt (synced_pending result c) demand (failure_of w write_failed)
          s
    succeeded-IsOutcome (false, s) nothing_more shown =
        (result, c, refl, refl, rw nothing_more (shown refl))

    settle_cycle-IsOutcome :
        (s : ForegroundState)
        → IsOutcome attempt (synced_pending result c) (settle_cycle w attempt demand result s)
    unfolding IsOutcome settle_cycle
    settle_cycle-IsOutcome s =
        let healed = heal_snapshot_on_demand w demand w.heal s in
        either-IsOutcome attempt (synced_pending result c) result.has_more_pending _ _
          (λ h. (
            result,
            c,
            refl,
            refl,
            rw h (left_pending-IsShown attempt w.succeeded.instant healed.connection),
          ))
          (λ h.
            (succeeded-IsOutcome
              (publish_attempt w attempt w.succeeded
                (build_sync_attempt_succeeded_patch w.succeeded.instant)
                (mark_sync_connection_succeeded attempt w.succeeded.instant) healed)
              h
              (publish_attempt-IsShown attempt w.succeeded
                (build_sync_attempt_succeeded_patch w.succeeded.instant)
                (mark_sync_connection_succeeded attempt w.succeeded.instant) healed online
                (succeeded-IsShown attempt w.succeeded.instant))))

  abbrev pub IsEnded : SyncResult → Type 0
  IsEnded (synced_pending result c) = Unit
  IsEnded (sync_failed error c) = Unit
  IsEnded sync_out_of_fuel = ⊥

  sync_result-IsEnded :
      (pass : Pass) (total : ℕ) (result : ChainResult)
      → IsOver result
      → IsEnded (sync_result pass.world total result)
  sync_result-IsEnded pass total (finished c) over = tt
  sync_result-IsEnded pass total (failed error c) over = tt
  sync_result-IsEnded pass total (out_of_fuel c) over = absurd over

  pub run_pass-IsEnded :
      (pass : Pass) (db : Database)
      → IsTimed pass.world (js_claim pass.claimed_at)
      → outbox_chain_budget_ms < w.fuel
      → IsEnded (run_pass w pass db)
  unfolding sync_pending_operations claimed_chain
  run_pass-IsEnded pass db timed enough =
      let s : CycleState = record { db = db; issued = 0 } in
      let chain = claimed_chain pass.world pass.claimed_at pass.diagnostics s in
      elim (Bool-cases w.is_paired) [
        | inr h ↦ rw h tt
        | inl h ↦ rw h (
            sync_result-IsEnded pass (total_backlog_row_count pass.world pass.claimed_at s)
              (run_chain pass.world w.fuel chain)
              (chain_ends pass.world w.fuel (js_claim pass.claimed_at) chain timed refl refl
                (omega (arith, enough)) (omega (arith, enough))))
      ]

  module _ (demand : SnapshotHealDemand)
      (sends_timed : IsTimed w.sends.world (js_claim w.sends.claimed_at))
      (pull_timed : IsTimed w.pull.world (js_claim w.pull.claimed_at))
      (enough : outbox_chain_budget_ms < w.fuel) where
    after_pull-IsOutcome :
        (attempt : ℕ) (result : SyncPendingOperationsResult) (c : CycleState) (s : ForegroundState)
        (pulled : SyncResult)
        → IsEnded pulled
        → IsOutcome attempt (synced_pending result c) (after_pull w attempt demand result s pulled)
    unfolding after_pull settle_cycle
    after_pull-IsOutcome attempt result c s (synced_pending more d) ended =
        settle_cycle-IsOutcome attempt demand result c (record s { db = d.db })
    after_pull-IsOutcome attempt result c s (sync_failed error d) ended =
        settle_cycle-IsOutcome attempt demand result c (record s { db = d.db })
    after_pull-IsOutcome attempt result c s sync_out_of_fuel ended = absurd ended

    after_sends-IsOutcome :
        (attempt : ℕ) (s : ForegroundState) (sent : SyncResult)
        → IsEnded sent
        → IsOutcome attempt sent (after_sends w attempt demand s sent)
    unfolding after_sends run_pass
    after_sends-IsOutcome attempt s (synced_pending result c) ended =
        let t = record s { db = c.db; connection = w.meanwhile s.connection } in
        either-IsOutcome attempt (synced_pending result c) result.rating_delivered _ _
          (λ h.
            (after_pull-IsOutcome attempt result c t (run_pass w w.pull c.db)
              (run_pass-IsEnded w.pull c.db pull_timed enough)))
          (λ h. settle_cycle-IsOutcome attempt demand result c t)
    after_sends-IsOutcome attempt s (sync_failed error c) ended =
        cycle_failed-IsOutcome attempt (sync_failed error c) demand (failure_of w error)
          (record s { db = c.db; connection = w.meanwhile s.connection })
    after_sends-IsOutcome attempt s sync_out_of_fuel ended = absurd ended

    after_start-IsOutcome :
        (attempt : ℕ) (db : Database) (p : Bool × ForegroundState)
        → p.1.db ≡ db
        → IsOutcome attempt (run_pass w w.sends db) (after_start w attempt demand p)
    unfolding after_start
    after_start-IsOutcome attempt db (true, s) same =
        cycle_failed-IsOutcome attempt (run_pass w w.sends db) demand (failure_of w write_failed) s
    after_start-IsOutcome attempt db (false, s) same = rw (sym same) (
        after_sends-IsOutcome attempt s (run_pass w w.sends s.db)
          (run_pass-IsEnded w.sends s.db sends_timed enough))

    -- A cycle ends, and while its attempt is still the latest the connection shows how: online where
    -- it returned and nothing was left pending, idle where it returned and something was,
    -- unreachable where it threw because the bridge could not be reached, and a rejected sync where it
    -- threw anything else. What it returns is the count of its sends. The fuel is one more than the
    -- budget has milliseconds, and every request takes a millisecond or more.
    pub run_coordinated_foreground_sync_cycle-IsOutcome :
        (s : ForegroundState)
        → IsOutcome
            (s.connection.current + 1)
            (run_pass w w.sends s.db)
            (run_coordinated_foreground_sync_cycle w demand s)
    unfolding run_coordinated_foreground_sync_cycle begin_sync_connection_attempt
    run_coordinated_foreground_sync_cycle-IsOutcome s =
        let begun = begin_sync_connection_attempt s.connection in
        after_start-IsOutcome begun.current s.db
          (publish_attempt w begun.current w.started
            (build_sync_attempt_started_patch w.started.instant) (λ c. c)
            (record s { connection = begun }))
          (publish_attempt-db begun.current w.started
            (build_sync_attempt_started_patch w.started.instant) (λ c. c)
            (record s { connection = begun }))
