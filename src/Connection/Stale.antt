-- ===== src/Connection/Stale.antt =====
-- An attempt that is no longer the latest publishes nothing (`sync-connection-store.helpers.ts`).
use autoreas_mobile.Prelude.{ℕ, ◌≤◌, ◌<◌, ◌≡◌, refl, false, nat_eq, arith}
use autoreas_mobile.Connection.{
  Connection, CycleFailure, begin_sync_connection_attempt, mark_sync_connection_succeeded,
  mark_sync_connection_failed, mark_sync_connection_pending, invalidate_sync_connection_online,
  forget_sync_connection_bridge, publish_sync_connection_attempt,
}

-- What the app does to the connection.
pub data Step : Connection → Connection → Type 0 where
  begun : (c : Connection) → Step c (begin_sync_connection_attempt c)
  succeeded :
      (c : Connection) (attempt synced_at : ℕ)
      → Step c (mark_sync_connection_succeeded attempt synced_at c)
  failed :
      (c : Connection) (attempt : ℕ) (error : CycleFailure) (now : ℕ)
      → Step c (mark_sync_connection_failed attempt error now c)
  left_pending :
      (c : Connection) (attempt reached_at : ℕ)
      → Step c (mark_sync_connection_pending attempt reached_at c)
  invalidated : (c : Connection) → Step c (invalidate_sync_connection_online c)
  forgotten : (c : Connection) → Step c (forget_sync_connection_bridge c)

pub data Steps : Connection → Connection → Type 0 where
  here : {c : Connection} → Steps c c
  next : {c d e : Connection} → Steps c d → Step d e → Steps c e

step_grows : {c d : Connection} → Step c d → c.current ≤ d.current
unfolding begin_sync_connection_attempt mark_sync_connection_succeeded mark_sync_connection_failed
    mark_sync_connection_pending invalidate_sync_connection_online forget_sync_connection_bridge
step_grows (begun c) = omega arith
step_grows (succeeded c attempt synced_at) = ground arith
step_grows (failed c attempt error now) = ground arith
step_grows (left_pending c attempt reached_at) = ground arith
step_grows (invalidated c) = omega arith
step_grows (forgotten c) = omega arith

attempts_grow : {c d : Connection} → Steps c d → c.current ≤ d.current
attempts_grow here = omega arith
attempts_grow (next steps step) = omega (arith, attempts_grow steps, step_grows step)

module _ {c d : Connection} (attempt : ℕ) (stale : attempt < c.current) (steps : Steps c d) where
  stale_test : nat_eq attempt d.current ≡ false
  stale_test = ground (arith, attempts_grow steps)

  -- An attempt older than the latest of some moment changes nothing after that moment, whatever
  -- happens since: neither its success nor its failure nor its pending end is shown, and its
  -- publication writes no telemetry.
  pub stale_attempt_is_silent :
      (instant : ℕ) (error : CycleFailure) (meanwhile publish_connection : Connection → Connection)
      → (mark_sync_connection_succeeded attempt instant d ≡ d)
        × (mark_sync_connection_failed attempt error instant d ≡ d)
        × (mark_sync_connection_pending attempt instant d ≡ d)
        × (publish_sync_connection_attempt attempt meanwhile publish_connection d
            ≡ record { is_persisted = false; is_published = false; connection = d })
  unfolding mark_sync_connection_succeeded mark_sync_connection_failed mark_sync_connection_pending
      publish_sync_connection_attempt
  stale_attempt_is_silent instant error meanwhile publish_connection =
      (rw stale_test refl, rw stale_test refl, rw stale_test refl, rw stale_test refl)
