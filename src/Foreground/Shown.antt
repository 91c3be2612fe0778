-- ===== src/Foreground/Shown.antt =====
-- What the marks and the publications of an attempt leave shown (`sync-connection-store.helpers.ts`).
use mathlib.Core.Bool.{}
use autoreas_mobile.Prelude.{
  ℕ, false, ◌≡◌, ◌≢◌, refl, nat_eq, arith, Bool-cases, inl, inr, if◌then◌else◌,
}
use autoreas_mobile.Database.{}
use autoreas_mobile.Connection.{
  Connection, SyncConnectionStatus, idle, online, unreachable, sync_error, CycleFailure,
  is_unreachable, mark_sync_connection_succeeded, mark_sync_connection_failed,
  mark_sync_connection_pending, publish_sync_connection_attempt,
}
use autoreas_mobile.Cycle.{}
use autoreas_mobile.Cycle.Chain.{}
use autoreas_mobile.Cycle.Ends.Rounds.{}
use autoreas_mobile.Flush.{}
use autoreas_mobile.Runtime.{}
use autoreas_mobile.Foreground.{}

-- While the attempt is still the latest, the connection shows this.
unfoldable pub IsShown : ℕ → SyncConnectionStatus → Connection → Type 0
IsShown attempt kind c = c.current ≡ attempt → c.snapshot.kind ≡ kind

other_attempt : (attempt current : ℕ) → nat_eq attempt current ≡ false → current ≢ attempt
other_attempt attempt current h same = ground arith

abbrev pub failure_kind : CycleFailure → SyncConnectionStatus
failure_kind error = if is_unreachable error then unreachable else sync_error

module _ (attempt instant : ℕ) (c : Connection) where
  pub succeeded-IsShown : IsShown attempt online (mark_sync_connection_succeeded attempt instant c)
  unfolding IsShown mark_sync_connection_succeeded
  succeeded-IsShown = elim (Bool-cases (nat_eq attempt c.current)) [
    | inl h ↦ rw h (λ same. refl)
    | inr h ↦ rw h (λ same. absurd (other_attempt attempt c.current h same))
  ]

  pub left_pending-IsShown : IsShown attempt idle (mark_sync_connection_pending attempt instant c)
  unfolding IsShown mark_sync_connection_pending
  left_pending-IsShown = elim (Bool-cases (nat_eq attempt c.current)) [
    | inl h ↦ rw h (λ same. refl)
    | inr h ↦ rw h (λ same. absurd (other_attempt attempt c.current h same))
  ]

  pub failed-IsShown :
      (error : CycleFailure)
      → IsShown attempt (failure_kind error) (mark_sync_connection_failed attempt error instant c)
  unfolding IsShown mark_sync_connection_failed
  failed-IsShown error = elim (Bool-cases (nat_eq attempt c.current)) [
    | inl h ↦ rw h (λ same. refl)
    | inr h ↦ rw h (λ same. absurd (other_attempt attempt c.current h same))
  ]

-- What a publication leaves is shown, whatever happens to the connection meanwhile.
pub published-IsShown :
    (attempt : ℕ) (kind : SyncConnectionStatus)
    (meanwhile publish_connection : Connection → Connection) (c : Connection)
    → ((d : Connection) → IsShown attempt kind (publish_connection d))
    → IsShown attempt kind
        (publish_sync_connection_attempt attempt meanwhile publish_connection c).connection
unfolding IsShown publish_sync_connection_attempt
published-IsShown attempt kind meanwhile publish_connection c shows =
    elim (Bool-cases (nat_eq attempt c.current)) [
      | inr h ↦ rw h (λ same. absurd (other_attempt attempt c.current h same))
      | inl h ↦ elim (Bool-cases (nat_eq attempt (meanwhile c).current)) [
        | inr k ↦ rw h (rw k (λ same. absurd (other_attempt attempt (meanwhile c).current k same)))
        | inl k ↦ rw h (rw k (shows (meanwhile c)))
      ]
    ]
