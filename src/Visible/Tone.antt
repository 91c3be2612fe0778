-- ===== src/Visible/Tone.antt =====
-- The tone ladder of the visible status (`sync-visible-status.helpers.ts`).
use autoreas_mobile.Prelude.{
  ℕ, ◌+◌, String, Bool, true, false, not, ◌&&◌, ◌||◌, Option, none, some, ◌≡◌, refl, nat_eq, leb,
  ◌-◌, if◌then◌else◌, Bool-cases, inl, inr, arith,
}
use autoreas_mobile.Connection.{
  SyncFacadeConnectionStatus, of_store, reachable, idle, syncing, online, unreachable, sync_error,
}
use autoreas_mobile.Visible.{
  SyncVisibleStatusTone, default, accent, success, warning, danger, SyncVisibleStatus,
  SyncVisibleStatusFacts, is_false, is_syncing, is_online, is_sync_error, is_reachable,
  stale_or_waiting, get_elapsed_since_last_sync, is_bridge_known_reachable,
  derive_stale_backlog_status, derive_no_pending_sync_status, derive_pending_sync_status,
  derive_visible_sync_status,
}

-- The bridge was not reached by the latest exchange, and the device is not known to be offline.
unfoldable pub is_waiting_status : SyncFacadeConnectionStatus → Bool
is_waiting_status (of_store idle) = true
is_waiting_status (of_store unreachable) = true
is_waiting_status (of_store syncing) = false
is_waiting_status (of_store online) = false
is_waiting_status (of_store sync_error) = false
is_waiting_status reachable = false

-- The last sync was 72 hours ago or more.
unfoldable pub is_three_days_old : Option ℕ → ℕ → Bool
is_three_days_old none now = false
is_three_days_old (some last) now = leb (last + 259200000) now

unfoldable pub is_tone : SyncVisibleStatusTone → SyncVisibleStatusTone → Bool
is_tone accent accent = true
is_tone success success = true
is_tone warning warning = true
is_tone danger danger = true
is_tone default default = true
is_tone _ _ = false

-- The device has a bridge, is not offline, and has not reached the bridge with its latest exchange.
unfoldable pub is_waiting_for_bridge : SyncVisibleStatusFacts → Bool
unfolding is_waiting_status
is_waiting_for_bridge facts =
    is_waiting_status facts.connection_status
    && not (is_false facts.is_bridge_configured)
    && not (is_false facts.is_device_online)

-- What each tone stands for.
pub IsToneLadder : SyncVisibleStatusFacts → ℕ → SyncVisibleStatusTone → Type 0
unfolding is_tone is_waiting_for_bridge is_three_days_old
IsToneLadder facts now tone =
    (is_tone accent tone ≡ is_syncing facts.connection_status)
    × (is_tone danger tone ≡ is_sync_error facts.connection_status)
    × (is_tone success tone ≡ is_online facts.connection_status && nat_eq facts.pending_ops_count 0)
    × (is_tone warning tone ≡ (
        is_waiting_for_bridge facts
        && not (nat_eq facts.pending_ops_count 0)
        && is_three_days_old facts.last_sync_at now))

-- The tone of a backlog, from its three tests and its age.
unfoldable backlog_tone : Bool → Bool → Bool → Bool → SyncVisibleStatusTone
backlog_tone unpaired offline known old =
    if unpaired
    then default
    else if offline
    then default
    else if known
    then default
    else if old
    then warning
    else default

unfoldable ladder_tone :
    SyncFacadeConnectionStatus → Bool → Bool → Bool → Bool → SyncVisibleStatusTone
unfolding backlog_tone
ladder_tone status none_pending unpaired offline old =
    if is_syncing status
    then accent
    else if is_online status && none_pending
    then success
    else if is_sync_error status
    then danger
    else if none_pending
    then default
    else backlog_tone unpaired offline (is_online status || is_reachable status) old

ladder_tests :
    (status : SyncFacadeConnectionStatus) (none_pending unpaired offline old : Bool)
    → (is_tone accent (ladder_tone status none_pending unpaired offline old) ≡ is_syncing status)
      × (is_tone danger (ladder_tone status none_pending unpaired offline old)
          ≡ is_sync_error status)
      × (is_tone success (ladder_tone status none_pending unpaired offline old)
          ≡ is_online status && none_pending)
      × (is_tone warning (ladder_tone status none_pending unpaired offline old)
          ≡ ((is_waiting_status status && not unpaired && not offline) && not none_pending && old))
unfolding is_tone ladder_tone is_waiting_status
ladder_tests status none_pending unpaired offline old = ground arith

module _ (digits : ℕ → String) (facts : SyncVisibleStatusFacts) (now : ℕ) where
  tone-derive_no_pending_sync_status :
      (derive_no_pending_sync_status digits facts now).tone ≡ default
  unfolding derive_no_pending_sync_status
  tone-derive_no_pending_sync_status = elim (Bool-cases (is_false facts.is_bridge_configured)) [
    | inl h ↦ rw h refl
    | inr h ↦ elim (Bool-cases (is_false facts.is_device_online)) [
      | inl k ↦ rw h (rw k refl)
      | inr k ↦ rw h (rw k refl)
    ]
  ]

  age_test : (last : ℕ) → leb 259200000 (now - last) ≡ leb (last + 259200000) now
  age_test last = ground arith

  tone-stale_or_waiting :
      (waits : SyncVisibleStatus) (count : ℕ) (last : Option ℕ)
      → waits.tone ≡ default
      → (stale_or_waiting digits waits count (get_elapsed_since_last_sync last now)).tone
        ≡ (if is_three_days_old last now then warning else default)
  unfolding get_elapsed_since_last_sync is_three_days_old derive_stale_backlog_status
  tone-stale_or_waiting waits count none h = h
  tone-stale_or_waiting waits count (some last) h =
      rw (age_test last)
        (elim (Bool-cases (leb (last + 259200000) now)) [ inl k ↦ rw k refl | inr k ↦ rw k h ])

  tone-derive_pending_sync_status :
      (derive_pending_sync_status digits facts now).tone
      ≡ backlog_tone
          (is_false facts.is_bridge_configured)
          (is_false facts.is_device_online)
          (is_bridge_known_reachable facts)
          (is_three_days_old facts.last_sync_at now)
  unfolding derive_pending_sync_status backlog_tone
  tone-derive_pending_sync_status = elim (Bool-cases (is_false facts.is_bridge_configured)) [
    | inl h ↦ rw h refl
    | inr h ↦ elim (Bool-cases (is_false facts.is_device_online)) [
      | inl k ↦ rw h (rw k refl)
      | inr k ↦ elim (Bool-cases (is_bridge_known_reachable facts)) [
        | inl m ↦ rw h (rw k (rw m refl))
        | inr m ↦
            rw h (
              rw k (rw m (tone-stale_or_waiting _ facts.pending_ops_count facts.last_sync_at refl)))
      ]
    ]
  ]

  tone-derive_visible_sync_status :
      (derive_visible_sync_status digits facts now).tone
      ≡ ladder_tone facts.connection_status
          (nat_eq facts.pending_ops_count 0)
          (is_false facts.is_bridge_configured)
          (is_false facts.is_device_online)
          (is_three_days_old facts.last_sync_at now)
  unfolding derive_visible_sync_status ladder_tone is_bridge_known_reachable
  tone-derive_visible_sync_status = elim (Bool-cases (is_syncing facts.connection_status)) [
    | inl h ↦ rw h refl
    | inr h ↦
        elim (Bool-cases (is_online facts.connection_status && nat_eq facts.pending_ops_count 0)) [
          | inl k ↦ rw h (rw k refl)
          | inr k ↦ elim (Bool-cases (is_sync_error facts.connection_status)) [
            | inl m ↦ rw h (rw k (rw m refl))
            | inr m ↦ elim (Bool-cases (nat_eq facts.pending_ops_count 0)) [
              | inl n ↦ rw h (rw k (rw m (rw n tone-derive_no_pending_sync_status)))
              | inr n ↦ rw h (rw k (rw m (rw n tone-derive_pending_sync_status)))
            ]
          ]
        ]
  ]

  -- The tone is accent exactly while a cycle runs, danger exactly after a cycle that was rejected,
  -- success exactly when the latest cycle succeeded and nothing is pending, and warning exactly when
  -- something is pending, the bridge is waited for, and the last sync was 72 hours ago or more.
  pub derive_visible_sync_status-IsToneLadder :
      IsToneLadder facts now (derive_visible_sync_status digits facts now).tone
  unfolding IsToneLadder is_waiting_for_bridge
  derive_visible_sync_status-IsToneLadder = rw tone-derive_visible_sync_status (
      ladder_tests facts.connection_status (nat_eq facts.pending_ops_count 0)
        (is_false facts.is_bridge_configured) (is_false facts.is_device_online)
        (is_three_days_old facts.last_sync_at now))
