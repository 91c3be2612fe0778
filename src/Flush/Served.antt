-- ===== src/Flush/Served.antt =====
-- Single-flight flushes are a queue (`requestFlush` and `settleFlush` of `sync-flush.helpers.ts`):
-- what is asked for while a cycle runs waits, and the next run takes all of it.
use autoreas_mobile.Prelude.{
  ℕ, ◌≡◌, refl, ap, sym, ◌∙◌, true, false, Option, none, some, List, [], ◌∷◌, ◌++◌, nat_eq,
  nat_opt_eq, if◌then◌else◌, arith, Bool-cases, inl, inr,
}
use autoreas_mobile.Flush.{
  SyncFlushReason, Reasons, all_reasons, Run, SyncFlushState, SyncFlush, set_state,
  register_sync_flush_dispatcher, unregister_sync_flush_dispatcher, start_flush, one_reason,
  join_follow_up, request_on, request_with, request_flush, cleared, follow_with, settle_follow_up,
  settle_on, settle_flush, build_sync_flush_request,
}
use autoreas_mobile.Flush.Queue.{
  Event, requested, settled, registered, unregistered, flush_step, flush_steps, begin_run, wait,
  stop, queue_request, queue_settle, queue_step, dispatcher_after, queue_steps, runs_of, is_running,
  waiting_reasons, view,
}

runs_of-append :
    (database : ℕ) (runs : List Run) (run : Run)
    → runs_of database (runs ++ run ∷ []) ≡ (
        if nat_eq run.request.database database
        then runs_of database runs ++ all_reasons run.reasons ∷ []
        else runs_of database runs)
runs_of-append database [] run = ground arith
runs_of-append database (r ∷ runs) run = ground (arith, runs_of-append database runs run)

same_database : (d e : ℕ) → nat_eq d e ≡ true → nat_eq e d ≡ true
same_database d e h = ground (arith, h)

other_database : (d e : ℕ) → nat_eq d e ≡ false → nat_eq e d ≡ false
other_database d e h = ground (arith, h)

start_flush-view :
    (database : ℕ) (f : SyncFlush) (d dispatcher : ℕ) (reasons : Reasons)
    → view database (start_flush d dispatcher reasons f) ≡ (
        if nat_eq database d
        then begin_run (all_reasons reasons) (view database f)
        else view database f)
unfolding start_flush set_state build_sync_flush_request
start_flush-view database f d dispatcher reasons = elim (Bool-cases (nat_eq database d)) [
  | inl same ↦ rw (same, runs_of-append database f.runs _, same_database database d same) refl
  | inr other ↦ rw (other, runs_of-append database f.runs _, other_database database d other) refl
]

-- A write of the state of a database, where no run starts.
set_state-view :
    (database : ℕ) (f : SyncFlush) (d : ℕ) (state : Option SyncFlushState)
    → view database (record f { states = set_state d state f.states }) ≡ (
        if nat_eq database d
        then record (view database f) {
          is_busy = is_running state;
          waiting = waiting_reasons state;
        }
        else view database f)
unfolding set_state
set_state-view database f d state = elim (Bool-cases (nat_eq database d)) [
  | inl same ↦ rw same refl
  | inr other ↦ rw other refl
]

module _ (database d : ℕ) (f : SyncFlush) (same : nat_eq database d ≡ true) where
  states-same : f.states database ≡ f.states d
  states-same = ap f.states (ground (arith, same))

  join-view :
      (reason : SyncFlushReason) (state : SyncFlushState) (follow_up : Option Reasons)
      → f.states d ≡ some state
      → state.follow_up ≡ follow_up
      → view database (join_follow_up d reason f follow_up).1 ≡ wait reason (view database f)
  join-view reason state none stored none_waits =
      set_state-view database f d _ ∙ rw (same, states-same, stored, none_waits) refl
  join-view reason state (some waiting) stored waits =
      set_state-view database f d _ ∙ rw (same, states-same, stored, waits) refl

  request_on-view :
      (reason : SyncFlushReason) (dispatcher : ℕ) (state : Option SyncFlushState)
      → f.states d ≡ state
      → view database (request_on d reason f dispatcher state).1
        ≡ queue_request reason (some dispatcher) (view database f)
  request_on-view reason dispatcher none stored =
      start_flush-view database f d dispatcher (one_reason reason)
      ∙ rw (same, states-same, stored) refl
  request_on-view reason dispatcher (some state) stored =
      join-view reason state state.follow_up stored refl ∙ rw (states-same, stored) refl

  request_with-view :
      (reason : SyncFlushReason) (dispatcher : Option ℕ)
      → view database (request_with d reason f dispatcher).1
        ≡ queue_request reason dispatcher (view database f)
  request_with-view reason none = refl
  request_with-view reason (some dispatcher) = request_on-view reason dispatcher (f.states d) refl

  follow_with-view :
      (state : SyncFlushState) (waiting : Reasons) (dispatcher : Option ℕ)
      → f.states d ≡ some state
      → state.follow_up ≡ some waiting
      → view database (follow_with d f waiting dispatcher)
        ≡ queue_settle dispatcher (view database f)
  follow_with-view state waiting none stored waits = set_state-view database f d none ∙ rw same refl
  follow_with-view state waiting (some dispatcher) stored waits =
      start_flush-view database (cleared d f) d dispatcher waiting
      ∙ rw (same, states-same, stored, waits) refl

  settle_follow_up-view :
      (state : SyncFlushState) (follow_up : Option Reasons)
      → f.states d ≡ some state
      → state.follow_up ≡ follow_up
      → view database (settle_follow_up d f follow_up) ≡ queue_settle f.dispatcher (view database f)
  settle_follow_up-view state (some waiting) stored waits =
      follow_with-view state waiting f.dispatcher stored waits
  settle_follow_up-view state none stored waits =
      set_state-view database f d none
      ∙ rw same (sym (nothing_waits f.dispatcher (rw (states-same, stored, waits) refl)))
    where
      nothing_waits :
          (dispatcher : Option ℕ)
          → (view database f).waiting ≡ []
          → queue_settle dispatcher (view database f) ≡ stop (view database f)
      nothing_waits none e = refl
      nothing_waits (some dispatcher) e = rw e refl

  idle_settle :
      (dispatcher : Option ℕ)
      → f.states d ≡ none
      → view database f ≡ queue_settle dispatcher (view database f)
  idle_settle none stored = rw (states-same, stored) refl
  idle_settle (some dispatcher) stored = rw (states-same, stored) refl

  settle_on-view :
      (state : Option SyncFlushState)
      → f.states d ≡ state
      → view database (settle_on d f state) ≡ queue_settle f.dispatcher (view database f)
  settle_on-view none stored = idle_settle f.dispatcher stored
  settle_on-view (some state) stored = settle_follow_up-view state state.follow_up stored refl

module _ (database d : ℕ) (f : SyncFlush) (other : nat_eq database d ≡ false) where
  request_on-apart :
      (reason : SyncFlushReason) (dispatcher : ℕ) (state : Option SyncFlushState)
      → view database (request_on d reason f dispatcher state).1 ≡ view database f
  request_on-apart reason dispatcher none =
      start_flush-view database f d dispatcher (one_reason reason) ∙ rw other refl
  request_on-apart reason dispatcher (some state) = join-apart reason state.follow_up
    where
      join-apart :
          (reason : SyncFlushReason) (follow_up : Option Reasons)
          → view database (join_follow_up d reason f follow_up).1 ≡ view database f
      join-apart reason none = set_state-view database f d _ ∙ rw other refl
      join-apart reason (some waiting) = set_state-view database f d _ ∙ rw other refl

  request_with-apart :
      (reason : SyncFlushReason) (dispatcher : Option ℕ)
      → view database (request_with d reason f dispatcher).1 ≡ view database f
  request_with-apart reason none = refl
  request_with-apart reason (some dispatcher) = request_on-apart reason dispatcher (f.states d)

  follow_with-apart :
      (waiting : Reasons) (dispatcher : Option ℕ)
      → view database (follow_with d f waiting dispatcher) ≡ view database f
  follow_with-apart waiting none = set_state-view database f d none ∙ rw other refl
  follow_with-apart waiting (some dispatcher) =
      start_flush-view database (cleared d f) d dispatcher waiting
      ∙ rw other (set_state-view database f d none ∙ rw other refl)

  settle_on-apart :
      (state : Option SyncFlushState) → view database (settle_on d f state) ≡ view database f
  settle_on-apart none = refl
  settle_on-apart (some state) = follow_up-apart state.follow_up
    where
      follow_up-apart :
          (follow_up : Option Reasons)
          → view database (settle_follow_up d f follow_up) ≡ view database f
      follow_up-apart none = set_state-view database f d none ∙ rw other refl
      follow_up-apart (some waiting) = follow_with-apart waiting f.dispatcher

flush_step-view :
    (database : ℕ) (event : Event) (f : SyncFlush)
    → view database (flush_step event f) ≡ queue_step database event f.dispatcher (view database f)
unfolding request_flush settle_flush register_sync_flush_dispatcher unregister_sync_flush_dispatcher
flush_step-view database (requested d reason) f = elim (Bool-cases (nat_eq database d)) [
  | inl same ↦ rw same (request_with-view database d f same reason f.dispatcher)
  | inr other ↦ rw other (request_with-apart database d f other reason f.dispatcher)
]
flush_step-view database (settled d) f = elim (Bool-cases (nat_eq database d)) [
  | inl same ↦ rw same (settle_on-view database d f same (f.states d) refl)
  | inr other ↦ rw other (settle_on-apart database d f other (f.states d))
]
flush_step-view database (registered e) f = refl
flush_step-view database (unregistered e) f = elim (Bool-cases (nat_opt_eq f.dispatcher (some e))) [
  | inl mine ↦ rw mine refl
  | inr replaced ↦ rw replaced refl
]

module _ (d : ℕ) (f : SyncFlush) where
  start_flush-dispatcher :
      (dispatcher : ℕ) (reasons : Reasons)
      → (start_flush d dispatcher reasons f).dispatcher ≡ f.dispatcher
  unfolding start_flush
  start_flush-dispatcher dispatcher reasons = refl

  request_with-dispatcher :
      (reason : SyncFlushReason) (dispatcher : Option ℕ) (state : Option SyncFlushState)
      → f.states d ≡ state
      → (request_with d reason f dispatcher).1.dispatcher ≡ f.dispatcher
  request_with-dispatcher reason none state stored = refl
  request_with-dispatcher reason (some dispatcher) none stored =
      rw stored (start_flush-dispatcher dispatcher (one_reason reason))
  request_with-dispatcher reason (some dispatcher) (some state) stored =
      rw stored (join-dispatcher state.follow_up)
    where
      join-dispatcher :
          (follow_up : Option Reasons)
          → (join_follow_up d reason f follow_up).1.dispatcher ≡ f.dispatcher
      join-dispatcher none = refl
      join-dispatcher (some waiting) = refl

  settle_on-dispatcher :
      (state : Option SyncFlushState) → (settle_on d f state).dispatcher ≡ f.dispatcher
  unfolding start_flush
  settle_on-dispatcher none = refl
  settle_on-dispatcher (some state) = settle-dispatcher state.follow_up f.dispatcher
    where
      follow-dispatcher :
          (waiting : Reasons) (dispatcher : Option ℕ)
          → (follow_with d f waiting dispatcher).dispatcher ≡ f.dispatcher
      follow-dispatcher waiting none = refl
      follow-dispatcher waiting (some dispatcher) = refl

      settle-dispatcher :
          (follow_up : Option Reasons) (dispatcher : Option ℕ)
          → (settle_follow_up d f follow_up).dispatcher ≡ f.dispatcher
      settle-dispatcher none dispatcher = refl
      settle-dispatcher (some waiting) dispatcher = follow-dispatcher waiting f.dispatcher

flush_step-dispatcher :
    (event : Event) (f : SyncFlush)
    → (flush_step event f).dispatcher ≡ dispatcher_after event f.dispatcher
unfolding request_flush settle_flush register_sync_flush_dispatcher unregister_sync_flush_dispatcher
flush_step-dispatcher (requested d reason) f =
    request_with-dispatcher d f reason f.dispatcher (f.states d) refl
flush_step-dispatcher (settled d) f = settle_on-dispatcher d f (f.states d)
flush_step-dispatcher (registered e) f = refl
flush_step-dispatcher (unregistered e) f = elim (Bool-cases (nat_opt_eq f.dispatcher (some e))) [
  | inl mine ↦ rw mine refl
  | inr replaced ↦ rw replaced refl
]

-- Flushes refine the queue: through any events, of any databases, what the module's variables say
-- of one database is what the events of that database make of its queue.
pub flushes_are_a_queue :
    (database : ℕ) (events : List Event) (f : SyncFlush)
    → view database (flush_steps events f)
      ≡ queue_steps database events f.dispatcher (view database f)
flushes_are_a_queue database [] f = refl
flushes_are_a_queue database (event ∷ events) f =
    flushes_are_a_queue database events (flush_step event f)
    ∙ rw (flush_step-dispatcher event f, flush_step-view database event f) refl
