-- ===== src/Tests/Flush.antt =====
-- Witnesses of the flushes and of the connection: two databases, a burst of requests while a cycle
-- runs, and an attempt that a newer one overtakes.
use autoreas_mobile.Prelude.{
  ◌<◌, ◌≡◌, ◌⊎◌, refl, false, none, some, List, [], ◌∷◌, ◌++◌, Elem, arith,
}
use autoreas_mobile.Connection.{
  Connection, reset_sync_connection_store, begin_sync_connection_attempt,
  mark_sync_connection_succeeded, mark_sync_connection_failed, mark_sync_connection_pending,
  publish_sync_connection_attempt, bridge_unreachable_error,
}
use autoreas_mobile.Connection.Stale.{here, next, succeeded, stale_attempt_is_silent}
use autoreas_mobile.Flush.{
  SyncFlushReason, bootstrap, manual, local_mutation, ws_reconnected, season_rating, SyncFlush,
  Reasons, all_reasons, never, build_sync_flush_request, snapshot_heal_flush_demand,
  sync_flush_reason_source,
}
use autoreas_mobile.Flush.Demands.{IsWeaker, strongest_demand_is_served}
use autoreas_mobile.Flush.Queue.{
  Event, requested, settled, registered, flush_steps, queue_steps, view,
}
use autoreas_mobile.Flush.Served.{flushes_are_a_queue}
use autoreas_mobile.Flush.Lossless.{in_order, reasons_asked, no_request_is_lost}

abbrev mounted : SyncFlush
mounted = record {
  dispatcher = some 7;
  states = λ database. none;
  connection = reset_sync_connection_store;
  runs = [];
}

abbrev burst : List Event
burst =
    requested 1 bootstrap
    ∷ requested 1 local_mutation
    ∷ requested 2 manual
    ∷ requested 1 ws_reconnected
    ∷ settled 1
    ∷ registered 8
    ∷ requested 1 season_rating
    ∷ []

flushes_are_a_queue_example :
    view 1 (flush_steps burst mounted) ≡ queue_steps 1 burst (some 7) (view 1 mounted)
flushes_are_a_queue_example = flushes_are_a_queue 1 burst mounted

no_request_is_lost_example :
    in_order (view 1 (flush_steps burst mounted))
    ≡ in_order (view 1 mounted) ++ reasons_asked 1 burst
no_request_is_lost_example = no_request_is_lost 1 burst mounted 7 refl refl

abbrev joined_reasons : Reasons
joined_reasons = record { first = local_mutation; others = ws_reconnected ∷ [] }

strongest_demand_is_served_example :
    ((reason : SyncFlushReason)
      → Elem reason (all_reasons joined_reasons)
      → IsWeaker
          (snapshot_heal_flush_demand reason)
          (build_sync_flush_request 1 joined_reasons).heal_snapshot)
    × (((build_sync_flush_request 1 joined_reasons).heal_snapshot ≡ never)
        ⊎ ((reason : SyncFlushReason) × Elem reason (all_reasons joined_reasons)
            × ((build_sync_flush_request 1 joined_reasons).heal_snapshot
                ≡ snapshot_heal_flush_demand reason)))
    × ((build_sync_flush_request 1 joined_reasons).source
        ≡ sync_flush_reason_source joined_reasons.first)
strongest_demand_is_served_example = strongest_demand_is_served 1 joined_reasons

-- The first attempt, and the second that overtakes it.
abbrev first_attempt : Connection
first_attempt = begin_sync_connection_attempt reset_sync_connection_store

abbrev second_attempt : Connection
second_attempt = begin_sync_connection_attempt first_attempt

abbrev after_success : Connection
after_success = mark_sync_connection_succeeded 2 50 second_attempt

overtaken : 1 < second_attempt.current
unfolding begin_sync_connection_attempt
overtaken = omega arith

stale_attempt_is_silent_example :
    (mark_sync_connection_succeeded 1 60 after_success ≡ after_success)
    × (mark_sync_connection_failed 1 (bridge_unreachable_error "off") 60 after_success
        ≡ after_success)
    × (mark_sync_connection_pending 1 60 after_success ≡ after_success)
    × (publish_sync_connection_attempt 1 (λ c. c) (λ c. c) after_success
        ≡ record { is_persisted = false; is_published = false; connection = after_success })
stale_attempt_is_silent_example =
    stale_attempt_is_silent 1 overtaken (next here (succeeded second_attempt 2 50)) 60
      (bridge_unreachable_error "off") (λ c. c) (λ c. c)
