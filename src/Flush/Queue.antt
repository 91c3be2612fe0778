-- ===== src/Flush/Queue.antt =====
-- What flushes are specified by: a queue of reasons for each database, and what the module's
-- variables (`sync-flush.helpers.ts`) say of it.
use autoreas_mobile.Prelude.{
  ℕ, Bool, true, false, Option, none, some, List, [], ◌∷◌, ◌++◌, is_empty, nat_eq, nat_opt_eq,
  if◌then◌else◌,
}
use autoreas_mobile.Flush.{
  SyncFlushReason, Reasons, all_reasons, Run, SyncFlushState, SyncFlush,
  register_sync_flush_dispatcher, unregister_sync_flush_dispatcher, request_flush, settle_flush,
}

-- What callers and the runtime do.
pub data Event : Type 0 where
  requested : ℕ → SyncFlushReason → Event
  settled : ℕ → Event
  registered : ℕ → Event
  unregistered : ℕ → Event

abbrev pub flush_step : Event → SyncFlush → SyncFlush
flush_step (requested database reason) f = (request_flush database reason f).1
flush_step (settled database) f = settle_flush database f
flush_step (registered dispatcher) f = register_sync_flush_dispatcher dispatcher f
flush_step (unregistered dispatcher) f = unregister_sync_flush_dispatcher dispatcher f

abbrev pub flush_steps : List Event → SyncFlush → SyncFlush
flush_steps [] f = f
flush_steps (event ∷ events) f = flush_steps events (flush_step event f)

-- The specification, for one database: whether a cycle runs, the reasons that wait, and the
-- reasons of each run, in order.
pub record FlushQueue : Type 0 where
  pub is_busy : Bool
  pub waiting : List SyncFlushReason
  pub served : List (List SyncFlushReason)

abbrev pub begin_run : List SyncFlushReason → FlushQueue → FlushQueue
begin_run reasons q = record { is_busy = true; waiting = []; served = q.served ++ reasons ∷ [] }

abbrev pub wait : SyncFlushReason → FlushQueue → FlushQueue
wait reason q = record q { waiting = q.waiting ++ reason ∷ [] }

abbrev pub stop : FlushQueue → FlushQueue
stop q = record q { is_busy = false; waiting = [] }

-- A request waits behind the running cycle, or starts a run; without a dispatcher it is dropped.
abbrev pub queue_request : SyncFlushReason → Option ℕ → FlushQueue → FlushQueue
queue_request reason none q = q
queue_request reason (some dispatcher) q =
    if q.is_busy then wait reason q else begin_run (reason ∷ []) q

-- When the cycle settles, all that waits is one run; without a dispatcher it is dropped.
abbrev pub queue_settle : Option ℕ → FlushQueue → FlushQueue
queue_settle none q = stop q
queue_settle (some dispatcher) q = if is_empty q.waiting then stop q else begin_run q.waiting q

abbrev pub queue_step : ℕ → Event → Option ℕ → FlushQueue → FlushQueue
queue_step database (requested d reason) dispatcher q =
    if nat_eq database d then queue_request reason dispatcher q else q
queue_step database (settled d) dispatcher q =
    if nat_eq database d then queue_settle dispatcher q else q
queue_step database (registered e) dispatcher q = q
queue_step database (unregistered e) dispatcher q = q

abbrev pub dispatcher_after : Event → Option ℕ → Option ℕ
dispatcher_after (requested d reason) dispatcher = dispatcher
dispatcher_after (settled d) dispatcher = dispatcher
dispatcher_after (registered e) dispatcher = some e
dispatcher_after (unregistered e) dispatcher =
    if nat_opt_eq dispatcher (some e) then none else dispatcher

abbrev pub queue_steps : ℕ → List Event → Option ℕ → FlushQueue → FlushQueue
queue_steps database [] dispatcher q = q
queue_steps database (event ∷ events) dispatcher q =
    queue_steps database events (dispatcher_after event dispatcher)
      (queue_step database event dispatcher q)

-- The abstraction: what the module's variables say of one database.
abbrev pub runs_of : ℕ → List Run → List (List SyncFlushReason)
runs_of database [] = []
runs_of database (run ∷ runs) =
    if nat_eq run.request.database database
    then all_reasons run.reasons ∷ runs_of database runs
    else runs_of database runs

abbrev pub follow_up_reasons : Option Reasons → List SyncFlushReason
follow_up_reasons none = []
follow_up_reasons (some waiting) = all_reasons waiting

abbrev pub is_running : Option SyncFlushState → Bool
is_running none = false
is_running (some state) = true

abbrev pub waiting_reasons : Option SyncFlushState → List SyncFlushReason
waiting_reasons none = []
waiting_reasons (some state) = follow_up_reasons state.follow_up

abbrev pub view : ℕ → SyncFlush → FlushQueue
view database f = record {
  is_busy = is_running (f.states database);
  waiting = waiting_reasons (f.states database);
  served = runs_of database f.runs;
}
