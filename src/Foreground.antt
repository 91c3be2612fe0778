-- ===== src/Foreground.antt =====
-- `runCoordinatedForegroundSyncCycle` of `src/features/sync/sync-facade.helpers.ts`, and
-- `snapshot-heal.helpers.ts`: one foreground cycle from its attempt to the outcome that it shows.
--
-- The cover sweep that a cycle starts and does not wait for is left out. The pull after a delivered
-- rating counts its own requests. Each heal may happen twice: before the outcome, and again where
-- the telemetry of a success cannot be written.
pub mod Shown
pub mod Outcome
pub mod Healed
use autoreas_mobile.Prelude.{
  ℕ, ◌-◌, ◌*◌, String, Bool, true, false, not, ◌&&◌, Option, none, some, List, is_empty, nat_eq,
  ltb, if◌then◌else◌,
}
use autoreas_mobile.Database.{Database}
use autoreas_mobile.Connection.{
  Connection, CycleFailure, bridge_unreachable_error, other_error, begin_sync_connection_attempt,
  mark_sync_connection_succeeded, mark_sync_connection_failed, mark_sync_connection_pending,
  publish_sync_connection_attempt,
}
use autoreas_mobile.Cycle.{
  World, CycleState, SyncError, not_configured, http_error, transport_error, invalid_response,
  write_failed,
}
use autoreas_mobile.Cycle.Chain.{
  SyncResult, synced_pending, sync_failed, sync_out_of_fuel, SyncPendingOperationsResult,
  sync_pending_operations,
}
use autoreas_mobile.Flush.{SnapshotHealDemand, never, if_stale, always}
use autoreas_mobile.Heal.{IngestedAnime, resync_from_bridge_snapshot}
use autoreas_mobile.Runtime.{
  SyncRuntimeStatusSnapshot, SyncRuntimeStatusPatch, build_sync_attempt_started_patch,
  build_sync_attempt_succeeded_patch, build_sync_attempt_failed_patch,
  merge_sync_runtime_status_patch,
}

-- What a run of `syncPendingOperations` meets: its world, the time of its claim and the requests of
-- its diagnostics.
pub record Pass : Type 0 where
  pub world : World
  pub claimed_at : ℕ
  pub diagnostics : ℕ

-- What a heal meets: its two readings of the clock, the snapshot that it fetches, if any,
-- whether the transaction of its writes fails, and what others write to the database meanwhile.
pub record HealMoment : Type 0 where
  pub checked_at : ℕ
  pub healed_at : ℕ
  pub fetched : Option (List IngestedAnime)
  pub is_failed : Bool
  pub meanwhile : Database → Database

-- A write of telemetry: its time, whether it fails, and what happens to the connection meanwhile.
pub record Telemetry : Type 0 where
  pub instant : ℕ
  pub is_failed : Bool
  pub meanwhile : Connection → Connection

pub record Surroundings : Type 0 where
  pub is_paired : Bool
  pub fuel : ℕ
  pub sends : Pass
  pub pull : Pass
  pub heal : HealMoment
  pub heal_after_failure : HealMoment
  pub started : Telemetry
  pub succeeded : Telemetry
  pub failed : Telemetry
  -- What happens to the connection while the cycle sends and heals.
  pub meanwhile : Connection → Connection
  pub message_of : SyncError → String

pub record ForegroundState : Type 0 where
  pub db : Database
  pub connection : Connection
  pub runtime : SyncRuntimeStatusSnapshot
  pub last_heal_at : Option ℕ

pub data ForegroundResult : Type 0 where
  cycle_returned : ℕ → ForegroundState → ForegroundResult
  cycle_threw : CycleFailure → ForegroundState → ForegroundResult
  cycle_out_of_fuel : ForegroundResult

-- `SNAPSHOT_HEAL_STALE_AFTER_MS`
abbrev pub snapshot_heal_stale_after_ms : ℕ
snapshot_heal_stale_after_ms = 5 * 60 * 1000

abbrev pub is_stale_heal : Option ℕ → ℕ → Bool
is_stale_heal none now = true
is_stale_heal (some last) now = ltb snapshot_heal_stale_after_ms (now - last)

-- `isSnapshotHealDue`
unfoldable pub is_snapshot_heal_due : SnapshotHealDemand → Option ℕ → ℕ → Bool
is_snapshot_heal_due always last now = true
is_snapshot_heal_due never last now = false
is_snapshot_heal_due if_stale last now = is_stale_heal last now

module _ (w : Surroundings) where
  -- The heal once it is due: an unpaired device fetches nothing, and a failed fetch or transaction
  -- writes nothing; an empty snapshot needs no transaction.
  abbrev pub heal_fetched :
      Bool → HealMoment → Option (List IngestedAnime) → ForegroundState → ForegroundState
  unfolding resync_from_bridge_snapshot
  heal_fetched false moment fetched s = record s { last_heal_at = some moment.healed_at }
  heal_fetched true moment none s = record s { db = moment.meanwhile s.db }
  heal_fetched true moment (some remote) s =
      if moment.is_failed && not (is_empty remote)
      then record s { db = moment.meanwhile s.db }
      else record s {
        db = (resync_from_bridge_snapshot w.sends.world.json true remote (moment.meanwhile s.db)).1;
        last_heal_at = some moment.healed_at;
      }

  -- `healSnapshotOnDemand`
  unfoldable pub heal_snapshot_on_demand :
      SnapshotHealDemand → HealMoment → ForegroundState → ForegroundState
  unfolding is_snapshot_heal_due resync_from_bridge_snapshot
  heal_snapshot_on_demand demand moment s =
      if not (is_snapshot_heal_due demand s.last_heal_at moment.checked_at)
      then s
      else heal_fetched w.is_paired moment moment.fetched s

  -- A publication: whether it throws, and the state after it. One that is stale from the start
  -- writes no telemetry.
  unfoldable pub publish_attempt :
      ℕ
      → Telemetry
      → SyncRuntimeStatusPatch
      → (Connection → Connection)
      → ForegroundState
      → Bool × ForegroundState
  unfolding publish_sync_connection_attempt merge_sync_runtime_status_patch
  publish_attempt attempt telemetry patch publish_connection s =
      let published =
        publish_sync_connection_attempt attempt telemetry.meanwhile publish_connection
          s.connection in
      if not published.is_persisted
      then (false, record s { connection = published.connection })
      else if telemetry.is_failed
      then (true, record s { connection = telemetry.meanwhile s.connection })
      else (
        false,
        record s {
          connection = published.connection;
          runtime = merge_sync_runtime_status_patch s.runtime patch;
        },
      )

  -- The publication of a failure: telemetry that cannot be written does not stop it.
  unfoldable pub publish_failure : ℕ → CycleFailure → ForegroundState → ForegroundState
  unfolding publish_sync_connection_attempt merge_sync_runtime_status_patch
      mark_sync_connection_failed build_sync_attempt_failed_patch
  publish_failure attempt error s =
      let published =
        publish_sync_connection_attempt attempt w.failed.meanwhile
          (mark_sync_connection_failed attempt error w.failed.instant) s.connection in
      record s {
        connection = published.connection;
        runtime =
            if published.is_persisted && not w.failed.is_failed
            then merge_sync_runtime_status_patch s.runtime
                (build_sync_attempt_failed_patch w.failed.instant)
            else s.runtime;
      }

  -- What the `catch` is given of an error of the sends.
  abbrev pub failure_of : SyncError → CycleFailure
  failure_of transport_error = bridge_unreachable_error (w.message_of transport_error)
  failure_of not_configured = other_error (w.message_of not_configured)
  failure_of (http_error status) = other_error (w.message_of (http_error status))
  failure_of invalid_response = other_error (w.message_of invalid_response)
  failure_of write_failed = other_error (w.message_of write_failed)

  -- The `catch` of the cycle.
  unfoldable pub cycle_failed :
      ℕ → SnapshotHealDemand → CycleFailure → ForegroundState → ForegroundResult
  unfolding heal_snapshot_on_demand publish_failure
  cycle_failed attempt demand error s =
      cycle_threw error
        (publish_failure attempt error (heal_snapshot_on_demand demand w.heal_after_failure s))

  abbrev pub run_pass : Pass → Database → SyncResult
  unfolding sync_pending_operations
  run_pass pass db =
      sync_pending_operations pass.world w.fuel w.is_paired pass.claimed_at pass.diagnostics
        (record { db = db; issued = 0 })

  abbrev pub succeeded_or_failed :
      ℕ → SnapshotHealDemand → ℕ → Bool × ForegroundState → ForegroundResult
  unfolding cycle_failed
  succeeded_or_failed attempt demand count (true, s) =
      cycle_failed attempt demand (failure_of write_failed) s
  succeeded_or_failed attempt demand count (false, s) = cycle_returned count s

  -- The cycle from its heal on.
  unfoldable pub settle_cycle :
      ℕ → SnapshotHealDemand → SyncPendingOperationsResult → ForegroundState → ForegroundResult
  unfolding heal_snapshot_on_demand publish_attempt cycle_failed mark_sync_connection_pending
      mark_sync_connection_succeeded build_sync_attempt_succeeded_patch
  settle_cycle attempt demand result s =
      let healed = heal_snapshot_on_demand demand w.heal s in
      if result.has_more_pending
      then cycle_returned result.synced_count (record healed {
        connection = mark_sync_connection_pending attempt w.succeeded.instant healed.connection;
      })
      else succeeded_or_failed attempt demand result.synced_count (
          publish_attempt attempt w.succeeded
            (build_sync_attempt_succeeded_patch w.succeeded.instant)
            (mark_sync_connection_succeeded attempt w.succeeded.instant) healed)

  -- `pullAfterDeliveredRating`: whatever it throws is dropped.
  abbrev pub after_pull :
      ℕ
      → SnapshotHealDemand
      → SyncPendingOperationsResult
      → ForegroundState
      → SyncResult
      → ForegroundResult
  unfolding settle_cycle
  after_pull attempt demand result s (synced_pending pulled c) =
      settle_cycle attempt demand result (record s { db = c.db })
  after_pull attempt demand result s (sync_failed error c) =
      settle_cycle attempt demand result (record s { db = c.db })
  after_pull attempt demand result s sync_out_of_fuel = cycle_out_of_fuel

  abbrev pub after_sends : ℕ → SnapshotHealDemand → ForegroundState → SyncResult → ForegroundResult
  unfolding settle_cycle cycle_failed
  after_sends attempt demand s (synced_pending result c) =
      let sent = record s { db = c.db; connection = w.meanwhile s.connection } in
      if result.rating_delivered
      then after_pull attempt demand result sent (run_pass w.pull c.db)
      else settle_cycle attempt demand result sent
  after_sends attempt demand s (sync_failed error c) =
      cycle_failed attempt demand (failure_of error)
        (record s { db = c.db; connection = w.meanwhile s.connection })
  after_sends attempt demand s sync_out_of_fuel = cycle_out_of_fuel

  abbrev pub after_start : ℕ → SnapshotHealDemand → Bool × ForegroundState → ForegroundResult
  unfolding cycle_failed
  after_start attempt demand (true, s) = cycle_failed attempt demand (failure_of write_failed) s
  after_start attempt demand (false, s) = after_sends attempt demand s (run_pass w.sends s.db)

  -- `runCoordinatedForegroundSyncCycle`
  unfoldable pub run_coordinated_foreground_sync_cycle :
      SnapshotHealDemand → ForegroundState → ForegroundResult
  unfolding publish_attempt begin_sync_connection_attempt build_sync_attempt_started_patch
      cycle_failed settle_cycle sync_pending_operations
  run_coordinated_foreground_sync_cycle demand s =
      let begun = begin_sync_connection_attempt s.connection in
      after_start begun.current demand (
        publish_attempt begun.current w.started (build_sync_attempt_started_patch w.started.instant)
          (λ c. c) (record s { connection = begun }))
