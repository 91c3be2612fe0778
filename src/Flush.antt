-- ===== src/Flush.antt =====
-- `src/features/sync/sync-flush.helpers.ts` with its constants: the one entry point for outbound
-- work, single-flight per database.
--
-- The module's variables are the record `SyncFlush`: the registered dispatcher, the state of each
-- database that has a running cycle, the connection store, and the runs that were started. A
-- database and a dispatcher are named by numbers; a promise is what will resolve it.
pub mod Demands
pub mod Queue
pub mod Served
pub mod Lossless
use autoreas_mobile.Prelude.{
  ℕ, Bool, true, false, Option, none, some, List, [], ◌∷◌, ◌++◌, nat_eq, nat_opt_eq, ltb,
  if◌then◌else◌,
}
use autoreas_mobile.Connection.{
  Connection, begin_sync_connection_attempt, invalidate_sync_connection_online,
}

pub data SyncFlushReason : Type 0 where
  bootstrap manual app_active network_regained ws_sync_required : SyncFlushReason
  ws_reconnected ws_disconnected local_mutation season_rating : SyncFlushReason

pub data SyncRuntimeTriggerSource : Type 0 where
  on_bootstrap on_manual on_app_active on_network_regained : SyncRuntimeTriggerSource
  on_local_mutation on_ws_sync_required : SyncRuntimeTriggerSource

pub data SnapshotHealDemand : Type 0 where
  never if_stale always : SnapshotHealDemand

-- `SYNC_FLUSH_REASON_SOURCES`
unfoldable pub sync_flush_reason_source : SyncFlushReason → SyncRuntimeTriggerSource
sync_flush_reason_source bootstrap = on_bootstrap
sync_flush_reason_source manual = on_manual
sync_flush_reason_source app_active = on_app_active
sync_flush_reason_source network_regained = on_network_regained
sync_flush_reason_source ws_sync_required = on_ws_sync_required
sync_flush_reason_source ws_reconnected = on_ws_sync_required
sync_flush_reason_source ws_disconnected = on_ws_sync_required
sync_flush_reason_source local_mutation = on_local_mutation
sync_flush_reason_source season_rating = on_local_mutation

-- `SNAPSHOT_HEAL_FLUSH_DEMANDS`
unfoldable pub snapshot_heal_flush_demand : SyncFlushReason → SnapshotHealDemand
snapshot_heal_flush_demand bootstrap = always
snapshot_heal_flush_demand manual = never
snapshot_heal_flush_demand app_active = always
snapshot_heal_flush_demand network_regained = never
snapshot_heal_flush_demand ws_sync_required = never
snapshot_heal_flush_demand ws_reconnected = if_stale
snapshot_heal_flush_demand ws_disconnected = never
snapshot_heal_flush_demand local_mutation = never
snapshot_heal_flush_demand season_rating = never

-- `SNAPSHOT_HEAL_DEMAND_RANK`
unfoldable pub snapshot_heal_demand_rank : SnapshotHealDemand → ℕ
snapshot_heal_demand_rank never = 0
snapshot_heal_demand_rank if_stale = 1
snapshot_heal_demand_rank always = 2

abbrev pub stronger : SnapshotHealDemand → SnapshotHealDemand → SnapshotHealDemand
stronger strongest demand =
    if ltb (snapshot_heal_demand_rank strongest) (snapshot_heal_demand_rank demand)
    then demand
    else strongest

-- The `reduce` of `mergeSnapshotHealDemands`, from `strongest` on.
unfoldable pub merge_demands_from : SnapshotHealDemand → List SyncFlushReason → SnapshotHealDemand
unfolding snapshot_heal_flush_demand snapshot_heal_demand_rank
merge_demands_from strongest [] = strongest
merge_demands_from strongest (reason ∷ reasons) =
    merge_demands_from (stronger strongest (snapshot_heal_flush_demand reason)) reasons

-- `mergeSnapshotHealDemands`
unfoldable pub merge_snapshot_heal_demands : List SyncFlushReason → SnapshotHealDemand
unfolding merge_demands_from
merge_snapshot_heal_demands reasons = merge_demands_from never reasons

pub record SyncFlushRequest : Type 0 where
  pub database : ℕ
  pub source : SyncRuntimeTriggerSource
  pub heal_snapshot : SnapshotHealDemand

-- The reasons that one run serves: never none.
pub record Reasons : Type 0 where
  pub first : SyncFlushReason
  pub others : List SyncFlushReason

abbrev pub all_reasons : Reasons → List SyncFlushReason
all_reasons reasons = reasons.first ∷ reasons.others

-- `buildSyncFlushRequest`
unfoldable pub build_sync_flush_request : ℕ → Reasons → SyncFlushRequest
unfolding sync_flush_reason_source merge_snapshot_heal_demands
build_sync_flush_request database reasons = record {
  database = database;
  source = sync_flush_reason_source reasons.first;
  heal_snapshot = merge_snapshot_heal_demands (all_reasons reasons);
}

-- A run that a dispatcher was asked for.
pub record Run : Type 0 where
  pub dispatcher : ℕ
  pub reasons : Reasons
  pub request : SyncFlushRequest

-- `SyncFlushState`; the running promise is that of the database's last run.
pub record SyncFlushState : Type 0 where
  pub follow_up : Option Reasons

pub record SyncFlush : Type 0 where
  pub dispatcher : Option ℕ
  pub states : ℕ → Option SyncFlushState
  pub connection : Connection
  pub runs : List Run

-- What resolves the promise of a request: at once to 0, or when the run that serves it settles.
pub data FlushPromise : Type 0 where
  resolved_zero running_promise follow_up_promise : FlushPromise

-- `SYNC_FLUSH_STATES.set` and `delete`
unfoldable pub set_state :
    ℕ → Option SyncFlushState → (ℕ → Option SyncFlushState) → ℕ → Option SyncFlushState
set_state database state states d = if nat_eq d database then state else states d

-- `registerSyncFlushDispatcher`
unfoldable pub register_sync_flush_dispatcher : ℕ → SyncFlush → SyncFlush
register_sync_flush_dispatcher dispatcher f = record f { dispatcher = some dispatcher }

-- The function that `registerSyncFlushDispatcher` returns.
unfoldable pub unregister_sync_flush_dispatcher : ℕ → SyncFlush → SyncFlush
unregister_sync_flush_dispatcher dispatcher f =
    if nat_opt_eq f.dispatcher (some dispatcher) then record f { dispatcher = none } else f

-- `startFlush`; a dispatcher that throws gives a run that rejects, and the state is the same.
unfoldable pub start_flush : ℕ → ℕ → Reasons → SyncFlush → SyncFlush
unfolding build_sync_flush_request set_state
start_flush database dispatcher reasons f = record f {
  states = set_state database (some (record { follow_up = none })) f.states;
  runs =
      f.runs
      ++ record {
        dispatcher = dispatcher;
        reasons = reasons;
        request = build_sync_flush_request database reasons;
      }
        ∷ [];
}

abbrev pub one_reason : SyncFlushReason → Reasons
one_reason reason = record { first = reason; others = [] }

abbrev pub join_follow_up :
    ℕ → SyncFlushReason → SyncFlush → Option Reasons → FlushPromise × SyncFlush
join_follow_up database reason f (some waiting) = (
  follow_up_promise,
  record f {
    states =
        set_state database
          (some (record {
            follow_up = some (record waiting { others = waiting.others ++ reason ∷ [] });
          }))
          f.states;
  },
)
join_follow_up database reason f none = (
  follow_up_promise,
  record f {
    states = set_state database (some (record { follow_up = some (one_reason reason) })) f.states;
    connection = begin_sync_connection_attempt f.connection;
  },
)

abbrev pub request_on :
    ℕ → SyncFlushReason → SyncFlush → ℕ → Option SyncFlushState → FlushPromise × SyncFlush
request_on database reason f dispatcher none =
    (running_promise, start_flush database dispatcher (one_reason reason) f)
request_on database reason f dispatcher (some state) =
    join_follow_up database reason f state.follow_up

abbrev pub request_with : ℕ → SyncFlushReason → SyncFlush → Option ℕ → FlushPromise × SyncFlush
request_with database reason f none = (resolved_zero, f)
request_with database reason f (some dispatcher) =
    request_on database reason f dispatcher (f.states database)

-- `requestFlush`
unfoldable pub request_flush : ℕ → SyncFlushReason → SyncFlush → FlushPromise × SyncFlush
unfolding start_flush set_state begin_sync_connection_attempt
request_flush database reason f = request_with database reason f f.dispatcher

abbrev pub cleared : ℕ → SyncFlush → SyncFlush
cleared database f = record f { states = set_state database none f.states }

abbrev pub follow_with : ℕ → SyncFlush → Reasons → Option ℕ → SyncFlush
follow_with database f waiting (some dispatcher) =
    start_flush database dispatcher waiting (cleared database f)
follow_with database f waiting none = record (cleared database f) {
  connection = invalidate_sync_connection_online f.connection;
}

abbrev pub settle_follow_up : ℕ → SyncFlush → Option Reasons → SyncFlush
settle_follow_up database f none = cleared database f
settle_follow_up database f (some waiting) = follow_with database f waiting f.dispatcher

abbrev pub settle_on : ℕ → SyncFlush → Option SyncFlushState → SyncFlush
settle_on database f none = f
settle_on database f (some state) = settle_follow_up database f state.follow_up

-- `settleFlush`, when the running cycle of the database settles; a database that runs none has
-- nothing to settle.
unfoldable pub settle_flush : ℕ → SyncFlush → SyncFlush
unfolding start_flush set_state invalidate_sync_connection_online
settle_flush database f = settle_on database f (f.states database)
