-- ===== src/Foreground/Healed.antt =====
-- The heal that a foreground cycle is asked for always (`healSnapshotOnDemand`).
use mathlib.Core.Path.{subst, subst⁻¹}
use autoreas_mobile.Prelude.{
  ℕ, ◌<◌, Bool, true, false, Option, some, List, Elem, contains, ◌≡◌, refl, ◌∙◌, inl, inr,
  Bool-cases, if◌then◌else◌,
}
use autoreas_mobile.Connection.{
  Connection, CycleFailure, begin_sync_connection_attempt, mark_sync_connection_succeeded,
  publish_sync_connection_attempt,
}
use autoreas_mobile.Cycle.{IsTimed, write_failed}
use autoreas_mobile.Cycle.Chain.{
  js_claim, outbox_chain_budget_ms, SyncResult, synced_pending, sync_failed, sync_out_of_fuel,
  SyncPendingOperationsResult,
}
use autoreas_mobile.Flush.{always}
use autoreas_mobile.Database.{Database, OperationLogRow}
use autoreas_mobile.Database.Tables.{find_anime}
use autoreas_mobile.Merge.Apply.{load_pending_outbox_record_ids}
use autoreas_mobile.Heal.{IngestedAnime}
use autoreas_mobile.Heal.Stored.{IsSynced}
use autoreas_mobile.Heal.Synced.{IsDistinct, resync_writes_snapshot, resync_keeps_log}
use autoreas_mobile.Runtime.{
  SyncRuntimeStatusPatch, build_sync_attempt_started_patch, build_sync_attempt_succeeded_patch,
}
use autoreas_mobile.Foreground.{
  Surroundings, Telemetry, HealMoment, ForegroundState, ForegroundResult, cycle_returned,
  cycle_threw, cycle_out_of_fuel, heal_fetched, heal_snapshot_on_demand, publish_attempt,
  publish_failure, cycle_failed, run_pass, succeeded_or_failed, settle_cycle, after_pull,
  after_sends, after_start, failure_of, run_coordinated_foreground_sync_cycle,
}
use autoreas_mobile.Foreground.Outcome.{publish_attempt-db, IsEnded, run_pass-IsEnded}

module _ (w : Surroundings) where
  -- The last heal is the one of a moment, and every anime of its snapshot without an unconfirmed edit
  -- is stored with the snapshot's values and token.
  abbrev pub IsHealOf : HealMoment → List IngestedAnime → Option ℕ → Database → Type 0
  IsHealOf moment remote last_heal_at db =
      (last_heal_at ≡ some moment.healed_at)
      × ((e : IngestedAnime)
          → Elem e remote
          → contains (load_pending_outbox_record_ids db.operation_log) e.anime.id ≡ false
          → IsSynced w.sends.world.json e (find_anime db.animes e.anime.id))

  -- The bridge answers a heal with a snapshot that names each anime once, and it is written.
  pub record IsAnswered (moment : HealMoment) (remote : List IngestedAnime) : Type 0 where
    pub answered : moment.fetched ≡ some remote
    pub distinct : IsDistinct remote
    pub written : moment.is_failed ≡ false

  abbrev pub IsHealedState : HealMoment → List IngestedAnime → ForegroundState → Type 0
  IsHealedState moment remote t = IsHealOf moment remote t.last_heal_at t.db

  fetched_is_done :
      (moment : HealMoment) (remote : List IngestedAnime) (s : ForegroundState)
      → IsAnswered moment remote
      → IsHealedState moment remote (heal_fetched w true moment (some remote) s)
  unfolding heal_fetched
  fetched_is_done moment remote s answer =
      let before = moment.meanwhile s.db in
      rw answer.written (
        refl,
        λ e m free. resync_writes_snapshot w.sends.world.json remote before e answer.distinct m (
            subst
              (λ (log : List OperationLogRow).
                contains (load_pending_outbox_record_ids log) e.anime.id ≡ false)
              (resync_keeps_log w.sends.world.json remote before) free),
      )

  heal_is_done :
      w.is_paired ≡ true
      → (moment : HealMoment) (remote : List IngestedAnime) (s : ForegroundState)
      → IsAnswered moment remote
      → IsHealedState moment remote (heal_snapshot_on_demand w always moment s)
  unfolding heal_snapshot_on_demand heal_fetched
  heal_is_done paired moment remote s answer =
      subst⁻¹ (λ b. IsHealedState moment remote (heal_fetched w b moment moment.fetched s)) paired
        (subst⁻¹ (λ o. IsHealedState moment remote (heal_fetched w true moment o s)) answer.answered
          (fetched_is_done moment remote s answer))

  last_heal-publish_attempt :
      (attempt : ℕ) (telemetry : Telemetry) (patch : SyncRuntimeStatusPatch)
      (publish_connection : Connection → Connection) (s : ForegroundState)
      → (publish_attempt w attempt telemetry patch publish_connection s).1.last_heal_at
        ≡ s.last_heal_at
  unfolding publish_attempt
  last_heal-publish_attempt attempt telemetry patch publish_connection s =
      elim (Bool-cases
        (publish_sync_connection_attempt attempt telemetry.meanwhile publish_connection
          s.connection).is_persisted) [
            | inr h ↦ rw h refl
            | inl h ↦ elim (Bool-cases telemetry.is_failed) [
              | inl k ↦ rw h (rw k refl)
              | inr k ↦ rw h (rw k refl)
            ]
          ]

  -- The cycle ended, with the heal that it begins with, or the one after its failure.
  pub IsHealed : List IngestedAnime → List IngestedAnime → ForegroundResult → Type 0
  IsHealed remote remote_after_failure (cycle_returned count t) = IsHealedState w.heal remote t
  IsHealed remote remote_after_failure (cycle_threw error t) =
      IsHealedState w.heal_after_failure remote_after_failure t
  IsHealed remote remote_after_failure cycle_out_of_fuel = ⊥

  module _ (remote remote_after_failure : List IngestedAnime) (paired : w.is_paired ≡ true)
      (answer : IsAnswered w.heal remote)
      (answer_after_failure : IsAnswered w.heal_after_failure remote_after_failure) where
    either-IsHealed :
        (test : Bool) (then_result else_result : ForegroundResult)
        → IsHealed remote remote_after_failure then_result
        → IsHealed remote remote_after_failure else_result
        → IsHealed remote remote_after_failure (if test then then_result else else_result)
    either-IsHealed true then_result else_result holds fails = holds
    either-IsHealed false then_result else_result holds fails = fails

    cycle_failed-IsHealed :
        (attempt : ℕ) (error : CycleFailure) (s : ForegroundState)
        → IsHealed remote remote_after_failure (cycle_failed w attempt always error s)
    unfolding IsHealed cycle_failed publish_failure
    cycle_failed-IsHealed attempt error s =
        heal_is_done paired w.heal_after_failure remote_after_failure s answer_after_failure

    succeeded-IsHealed :
        (attempt count : ℕ) (p : Bool × ForegroundState)
        → IsHealedState w.heal remote p.1
        → IsHealed remote remote_after_failure (succeeded_or_failed w attempt always count p)
    unfolding IsHealed succeeded_or_failed
    succeeded-IsHealed attempt count (true, s) healed =
        cycle_failed-IsHealed attempt (failure_of w write_failed) s
    succeeded-IsHealed attempt count (false, s) healed = healed

    -- A publication leaves the heal as it is.
    published-IsHealedState :
        (attempt : ℕ) (telemetry : Telemetry) (patch : SyncRuntimeStatusPatch)
        (publish_connection : Connection → Connection) (s : ForegroundState)
        → IsHealedState w.heal remote s
        → IsHealedState w.heal remote
            (publish_attempt w attempt telemetry patch publish_connection s).1
    published-IsHealedState attempt telemetry patch publish_connection s healed = (
      last_heal-publish_attempt attempt telemetry patch publish_connection s ∙ healed.0,
      subst⁻¹
          (λ (db : Database).
            (e : IngestedAnime)
            → Elem e remote
            → contains (load_pending_outbox_record_ids db.operation_log) e.anime.id ≡ false
            → IsSynced w.sends.world.json e (find_anime db.animes e.anime.id))
          (publish_attempt-db w attempt telemetry patch publish_connection s) healed.1,
    )

    settle_cycle-IsHealed :
        (attempt : ℕ) (result : SyncPendingOperationsResult) (s : ForegroundState)
        → IsHealed remote remote_after_failure (settle_cycle w attempt always result s)
    unfolding IsHealed settle_cycle
    settle_cycle-IsHealed attempt result s =
        let healed = heal_snapshot_on_demand w always w.heal s in
        let done = heal_is_done paired w.heal remote s answer in
        either-IsHealed result.has_more_pending _ _ done (
          succeeded-IsHealed attempt result.synced_count _ (
            published-IsHealedState attempt w.succeeded
              (build_sync_attempt_succeeded_patch w.succeeded.instant)
              (mark_sync_connection_succeeded attempt w.succeeded.instant) healed done))

    after_pull-IsHealed :
        (attempt : ℕ) (result : SyncPendingOperationsResult) (s : ForegroundState)
        (pulled : SyncResult)
        → IsEnded w pulled
        → IsHealed remote remote_after_failure (after_pull w attempt always result s pulled)
    unfolding after_pull settle_cycle
    after_pull-IsHealed attempt result s (synced_pending more d) ended =
        settle_cycle-IsHealed attempt result (record s { db = d.db })
    after_pull-IsHealed attempt result s (sync_failed error d) ended =
        settle_cycle-IsHealed attempt result (record s { db = d.db })
    after_pull-IsHealed attempt result s sync_out_of_fuel ended = absurd ended

    module _ (sends_timed : IsTimed w.sends.world (js_claim w.sends.claimed_at))
        (pull_timed : IsTimed w.pull.world (js_claim w.pull.claimed_at))
        (enough : outbox_chain_budget_ms < w.fuel) where
      after_sends-IsHealed :
          (attempt : ℕ) (s : ForegroundState) (sent : SyncResult)
          → IsEnded w sent
          → IsHealed remote remote_after_failure (after_sends w attempt always s sent)
      unfolding after_sends run_pass
      after_sends-IsHealed attempt s (synced_pending result c) ended =
          let t = record s { db = c.db; connection = w.meanwhile s.connection } in
          either-IsHealed result.rating_delivered _ _
            (after_pull-IsHealed attempt result t (run_pass w w.pull c.db)
              (run_pass-IsEnded w w.pull c.db pull_timed enough))
            (settle_cycle-IsHealed attempt result t)
      after_sends-IsHealed attempt s (sync_failed error c) ended =
          cycle_failed-IsHealed attempt (failure_of w error)
            (record s { db = c.db; connection = w.meanwhile s.connection })
      after_sends-IsHealed attempt s sync_out_of_fuel ended = absurd ended

      after_start-IsHealed :
          (attempt : ℕ) (p : Bool × ForegroundState)
          → IsHealed remote remote_after_failure (after_start w attempt always p)
      unfolding after_start
      after_start-IsHealed attempt (true, s) =
          cycle_failed-IsHealed attempt (failure_of w write_failed) s
      after_start-IsHealed attempt (false, s) =
          after_sends-IsHealed attempt s (run_pass w w.sends s.db)
            (run_pass-IsEnded w w.sends s.db sends_timed enough)

      -- A paired cycle that is asked for a heal always ends with one, whether it returns or throws,
      -- where the bridge answers with a snapshot that names each anime once and the heal's transaction
      -- goes through: the time of the last heal is the cycle's, and every anime of the snapshot
      -- without an unconfirmed edit is stored with the snapshot's value in each of the 21 columns, its
      -- folder path and its token. The fuel is one more than the budget has milliseconds, and every
      -- request takes a millisecond or more.
      pub run_coordinated_foreground_sync_cycle-IsHealed :
          (s : ForegroundState)
          → IsHealed remote remote_after_failure (run_coordinated_foreground_sync_cycle w always s)
      unfolding run_coordinated_foreground_sync_cycle
      run_coordinated_foreground_sync_cycle-IsHealed s =
          let begun = begin_sync_connection_attempt s.connection in
          after_start-IsHealed begun.current (
            publish_attempt w begun.current w.started
              (build_sync_attempt_started_patch w.started.instant) (λ c. c)
              (record s { connection = begun }))
