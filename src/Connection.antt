-- ===== src/Connection.antt =====
-- `src/features/sync/sync-connection-store/sync-connection-store.helpers.ts` and
-- `bridge-reachability.helpers.ts`: what the app shows of the connection to the bridge.
--
-- The module variables are the record `Connection`: the number of the latest attempt, and the
-- snapshot that the store holds.
pub mod Stale
use autoreas_mobile.Prelude.{
  ℕ, ◌+◌, String, Bool, true, false, not, ◌&&◌, ◌||◌, Option, none, some, nat_eq, ltb, leb, get_or,
  if◌then◌else◌,
}

pub data SyncConnectionStatus : Type 0 where
  idle syncing online unreachable sync_error : SyncConnectionStatus

-- When the latest exchange was, and whether it reached the bridge.
pub record SyncBridgeContact : Type 0 where
  pub instant : ℕ
  pub reached : Bool

pub record SyncConnectionSnapshot : Type 0 where
  pub kind : SyncConnectionStatus
  pub last_sync_at : Option ℕ
  pub message : Option String
  pub bridge_contact : Option SyncBridgeContact

-- `INITIAL_SYNC_CONNECTION_SNAPSHOT`
abbrev pub initial_sync_connection_snapshot : SyncConnectionSnapshot
initial_sync_connection_snapshot = record {
  kind = idle;
  last_sync_at = none;
  message = none;
  bridge_contact = none;
}

pub record Connection : Type 0 where
  pub current : ℕ
  pub snapshot : SyncConnectionSnapshot

-- What a cycle is rejected with: a `BridgeUnreachableError`, another `Error`, or another value.
pub data CycleFailure : Type 0 where
  bridge_unreachable_error : String → CycleFailure
  other_error : String → CycleFailure
  not_an_error : CycleFailure

-- `beginSyncConnectionAttempt`; the number that it returns is the new `current`.
unfoldable pub begin_sync_connection_attempt : Connection → Connection
begin_sync_connection_attempt c = record {
  current = c.current + 1;
  snapshot = record c.snapshot { kind = syncing; message = none };
}

-- `markSyncConnectionSucceeded`
unfoldable pub mark_sync_connection_succeeded : ℕ → ℕ → Connection → Connection
mark_sync_connection_succeeded attempt synced_at c =
    if not (nat_eq attempt c.current) then c else record c {
      snapshot = record {
        kind = online;
        last_sync_at = some synced_at;
        message = none;
        bridge_contact = some (record { instant = synced_at; reached = true });
      };
    }

abbrev pub failure_message : CycleFailure → String
failure_message (bridge_unreachable_error message) = message
failure_message (other_error message) = message
failure_message not_an_error = "Sync failed"

abbrev pub is_unreachable : CycleFailure → Bool
is_unreachable (bridge_unreachable_error message) = true
is_unreachable (other_error message) = false
is_unreachable not_an_error = false

-- `markSyncConnectionFailed` at the time `now`.
unfoldable pub mark_sync_connection_failed : ℕ → CycleFailure → ℕ → Connection → Connection
mark_sync_connection_failed attempt error now c =
    if not (nat_eq attempt c.current) then c else record c {
      snapshot = record {
        kind = if is_unreachable error then unreachable else sync_error;
        last_sync_at = c.snapshot.last_sync_at;
        message = some (failure_message error);
        bridge_contact =
            if is_unreachable error
            then some (record { instant = now; reached = false })
            else c.snapshot.bridge_contact;
      };
    }

-- `markSyncConnectionPending`
unfoldable pub mark_sync_connection_pending : ℕ → ℕ → Connection → Connection
mark_sync_connection_pending attempt reached_at c =
    if not (nat_eq attempt c.current) then c else record c {
      snapshot = record {
        kind = idle;
        last_sync_at = c.snapshot.last_sync_at;
        message = none;
        bridge_contact = some (record { instant = reached_at; reached = true });
      };
    }

-- `invalidateSyncConnectionOnline`
unfoldable pub invalidate_sync_connection_online : Connection → Connection
invalidate_sync_connection_online c = record {
  current = c.current + 1;
  snapshot = record c.snapshot { kind = idle; message = none };
}

-- `forgetSyncConnectionBridge`
unfoldable pub forget_sync_connection_bridge : Connection → Connection
forget_sync_connection_bridge c = record {
  current = c.current + 1;
  snapshot = record c.snapshot { kind = idle; message = none; bridge_contact = none };
}

pub record Publication : Type 0 where
  pub is_persisted : Bool
  pub is_published : Bool
  pub connection : Connection

-- The turn of a publication in the queue of `publishSyncConnectionAttempt`: `meanwhile` is what
-- happens to the connection while the telemetry is written.
unfoldable pub publish_sync_connection_attempt :
    ℕ → (Connection → Connection) → (Connection → Connection) → Connection → Publication
publish_sync_connection_attempt attempt meanwhile publish_connection c =
    let after = meanwhile c in
    if not (nat_eq attempt c.current)
    then record { is_persisted = false; is_published = false; connection = c }
    else if not (nat_eq attempt after.current)
    then record { is_persisted = true; is_published = false; connection = after }
    else record { is_persisted = true; is_published = true; connection = publish_connection after }

-- `resetSyncConnectionStore`
abbrev pub reset_sync_connection_store : Connection
reset_sync_connection_store = record { current = 0; snapshot = initial_sync_connection_snapshot }

pub record SyncRuntimeReachabilityEvidence : Type 0 where
  pub last_attempt_at : Option ℕ
  pub last_success_at : Option ℕ

pub data SyncFacadeConnectionStatus : Type 0 where
  of_store : SyncConnectionStatus → SyncFacadeConnectionStatus
  reachable : SyncFacadeConnectionStatus

abbrev pub latest_success : Option ℕ → Option ℕ → Option ℕ
latest_success none attempt = none
latest_success (some success) attempt =
    if leb (get_or attempt 0) success then some success else none

-- `readLatestRuntimeSuccess`
unfoldable pub read_latest_runtime_success : Option SyncRuntimeReachabilityEvidence → Option ℕ
read_latest_runtime_success none = none
read_latest_runtime_success (some evidence) =
    latest_success evidence.last_success_at evidence.last_attempt_at

abbrev pub is_reached : SyncBridgeContact → Option ℕ → Bool
is_reached contact none = contact.reached
is_reached contact (some success_at) =
    if ltb contact.instant success_at then true else contact.reached

abbrev pub is_settled : SyncConnectionStatus → Bool
is_settled idle = true
is_settled unreachable = true
is_settled syncing = false
is_settled online = false
is_settled sync_error = false

abbrev pub status_with :
    SyncConnectionStatus → Option ℕ → Option SyncBridgeContact → SyncFacadeConnectionStatus
status_with kind success_at none = of_store kind
status_with kind success_at (some contact) =
    if is_reached contact success_at then reachable else of_store kind

-- `resolveSyncFacadeConnectionStatus`
unfoldable pub resolve_sync_facade_connection_status :
    SyncConnectionSnapshot → Option SyncRuntimeReachabilityEvidence → SyncFacadeConnectionStatus
unfolding read_latest_runtime_success
resolve_sync_facade_connection_status snapshot evidence =
    if is_settled snapshot.kind
    then status_with snapshot.kind (read_latest_runtime_success evidence) snapshot.bridge_contact
    else of_store snapshot.kind
