-- ===== src/Flush/Lossless.antt =====
-- No request is lost (`sync-flush.helpers.ts`), by the queue that flushes refine.
use mathlib.Core.List.{append_assoc, append-nil}
use autoreas_mobile.Prelude.{
  ℕ, ◌≡◌, refl, ap, sym, ◌∙◌, Bool, true, false, Option, none, some, List, [], ◌∷◌, ◌++◌, is_empty,
  every, nat_eq, if◌then◌else◌, arith, Bool-cases, inl, inr,
}
use autoreas_mobile.Flush.{SyncFlushReason, SyncFlush, SyncFlushState}
use autoreas_mobile.Flush.Queue.{
  Event, requested, settled, registered, unregistered, flush_steps, FlushQueue, begin_run, wait,
  stop, queue_request, queue_settle, queue_step, dispatcher_after, queue_steps, view,
}
use autoreas_mobile.Flush.Served.{flushes_are_a_queue}

-- The reasons that a database was asked for, in order.
abbrev pub reasons_asked : ℕ → List Event → List SyncFlushReason
reasons_asked database [] = []
reasons_asked database (requested d reason ∷ events) =
    if nat_eq database d
    then reason ∷ reasons_asked database events
    else reasons_asked database events
reasons_asked database (settled d ∷ events) = reasons_asked database events
reasons_asked database (registered e ∷ events) = reasons_asked database events
reasons_asked database (unregistered e ∷ events) = reasons_asked database events

-- No event takes the dispatcher away.
abbrev pub keeps_dispatcher : Event → Bool
keeps_dispatcher (requested d reason) = true
keeps_dispatcher (settled d) = true
keeps_dispatcher (registered e) = true
keeps_dispatcher (unregistered e) = false

abbrev pub joined : List (List SyncFlushReason) → List SyncFlushReason
joined [] = []
joined (run ∷ runs) = run ++ joined runs

-- The reasons of all runs, and then those that wait.
abbrev pub in_order : FlushQueue → List SyncFlushReason
in_order q = joined q.served ++ q.waiting

joined-append :
    (runs : List (List SyncFlushReason)) (run : List SyncFlushReason)
    → joined (runs ++ run ∷ []) ≡ joined runs ++ run
joined-append [] run = append-nil run
joined-append (r ∷ runs) run =
    ap (λ rest. r ++ rest) (joined-append runs run) ∙ sym (append_assoc r (joined runs) run)

-- A queue that runs nothing has nothing waiting.
abbrev pub IsIdleEmpty : FlushQueue → Type 0
IsIdleEmpty q = q.is_busy ≡ false → q.waiting ≡ []

empty-list : (xs : List SyncFlushReason) → is_empty xs ≡ true → xs ≡ []
empty-list [] h = refl
empty-list (x ∷ xs) h = absurd (ground (arith, h))

begin_run-in_order :
    (reasons : List SyncFlushReason) (q : FlushQueue)
    → in_order (begin_run reasons q) ≡ joined q.served ++ reasons
begin_run-in_order reasons q = append-nil _ ∙ joined-append q.served reasons

module _ (q : FlushQueue) (idle_empty : IsIdleEmpty q) where
  request-in_order :
      (reason : SyncFlushReason) (dispatcher : ℕ)
      → in_order (queue_request reason (some dispatcher) q) ≡ in_order q ++ reason ∷ []
  request-in_order reason dispatcher = elim (Bool-cases q.is_busy) [
    | inl busy ↦
        ap (λ b. in_order (if b then wait reason q else begin_run (reason ∷ []) q)) busy
        ∙ sym (append_assoc (joined q.served) q.waiting (reason ∷ []))
    | inr idle ↦
        ap (λ b. in_order (if b then wait reason q else begin_run (reason ∷ []) q)) idle
        ∙ begin_run-in_order (reason ∷ []) q
        ∙ ap (λ xs. xs ++ reason ∷ [])
            (sym (append-nil (joined q.served))
              ∙ ap (λ xs. joined q.served ++ xs) (sym (idle_empty idle)))
  ]

  settle-in_order : (dispatcher : ℕ) → in_order (queue_settle (some dispatcher) q) ≡ in_order q
  settle-in_order dispatcher = elim (Bool-cases (is_empty q.waiting)) [
    | inl nothing ↦
        ap (λ b. in_order (if b then stop q else begin_run q.waiting q)) nothing
        ∙ ap (λ xs. joined q.served ++ xs) (sym (empty-list q.waiting nothing))
    | inr some_wait ↦
        ap (λ b. in_order (if b then stop q else begin_run q.waiting q)) some_wait
        ∙ begin_run-in_order q.waiting q
  ]

  request-IsIdleEmpty :
      (reason : SyncFlushReason) (dispatcher : Option ℕ)
      → IsIdleEmpty (queue_request reason dispatcher q)
  request-IsIdleEmpty reason none h = idle_empty h
  request-IsIdleEmpty reason (some dispatcher) h = elim (Bool-cases q.is_busy) [
    | inl busy ↦ absurd (ground (arith, busy, h))
    | inr idle ↦ rw idle refl
  ]

  settle-IsIdleEmpty : (dispatcher : Option ℕ) → IsIdleEmpty (queue_settle dispatcher q)
  settle-IsIdleEmpty none h = refl
  settle-IsIdleEmpty (some dispatcher) h = elim (Bool-cases (is_empty q.waiting)) [
    | inl nothing ↦ rw nothing refl
    | inr some_wait ↦ rw some_wait refl
  ]

  step-IsIdleEmpty :
      (database : ℕ) (event : Event) (dispatcher : Option ℕ)
      → IsIdleEmpty (queue_step database event dispatcher q)
  step-IsIdleEmpty database (requested d reason) dispatcher =
      elim (Bool-cases (nat_eq database d)) [
        | inl same ↦ rw same (request-IsIdleEmpty reason dispatcher)
        | inr other ↦ rw other idle_empty
      ]
  step-IsIdleEmpty database (settled d) dispatcher = elim (Bool-cases (nat_eq database d)) [
    | inl same ↦ rw same (settle-IsIdleEmpty dispatcher)
    | inr other ↦ rw other idle_empty
  ]
  step-IsIdleEmpty database (registered e) dispatcher = idle_empty
  step-IsIdleEmpty database (unregistered e) dispatcher = idle_empty

  step-in_order :
      (database : ℕ) (event : Event) (dispatcher : ℕ)
      → in_order (queue_step database event (some dispatcher) q)
        ≡ in_order q ++ reasons_asked database (event ∷ [])
  step-in_order database (requested d reason) dispatcher = elim (Bool-cases (nat_eq database d)) [
    | inl same ↦ rw same (request-in_order reason dispatcher)
    | inr other ↦ rw other (sym (append-nil (in_order q)))
  ]
  step-in_order database (settled d) dispatcher = elim (Bool-cases (nat_eq database d)) [
    | inl same ↦ rw same (settle-in_order dispatcher ∙ sym (append-nil (in_order q)))
    | inr other ↦ rw other (sym (append-nil (in_order q)))
  ]
  step-in_order database (registered e) dispatcher = sym (append-nil (in_order q))
  step-in_order database (unregistered e) dispatcher = sym (append-nil (in_order q))

asked-cons :
    (database : ℕ) (event : Event) (events : List Event)
    → reasons_asked database (event ∷ events)
      ≡ reasons_asked database (event ∷ []) ++ reasons_asked database events
asked-cons database (requested d reason) events = elim (Bool-cases (nat_eq database d)) [
  | inl same ↦ rw same refl
  | inr other ↦ rw other refl
]
asked-cons database (settled d) events = refl
asked-cons database (registered e) events = refl
asked-cons database (unregistered e) events = refl

-- A dispatcher that stays, or is replaced by another.
dispatcher_kept :
    (event : Event) (dispatcher : ℕ)
    → keeps_dispatcher event ≡ true
    → (e : ℕ) × (dispatcher_after event (some dispatcher) ≡ some e)
dispatcher_kept (requested d reason) dispatcher keeps = (dispatcher, refl)
dispatcher_kept (settled d) dispatcher keeps = (dispatcher, refl)
dispatcher_kept (registered e) dispatcher keeps = (e, refl)
dispatcher_kept (unregistered e) dispatcher keeps = absurd (ground (arith, keeps))

queue_steps-in_order :
    (database : ℕ) (events : List Event) (dispatcher : ℕ) (q : FlushQueue)
    → IsIdleEmpty q
    → every keeps_dispatcher events ≡ true
    → in_order (queue_steps database events (some dispatcher) q)
      ≡ in_order q ++ reasons_asked database events
queue_steps-in_order database [] dispatcher q idle_empty keeps = sym (append-nil (in_order q))
queue_steps-in_order database (event ∷ events) dispatcher q idle_empty keeps =
    let (e, stays) = dispatcher_kept event dispatcher (ground (arith, keeps)) in
    let q' = queue_step database event (some dispatcher) q in
    ap (λ o. in_order (queue_steps database events o q')) stays
    ∙ queue_steps-in_order database events e q'
        (step-IsIdleEmpty q idle_empty database event (some dispatcher)) (ground (arith, keeps))
    ∙ ap (λ xs. xs ++ reasons_asked database events)
        (step-in_order q idle_empty database event dispatcher)
    ∙ append_assoc (in_order q) (reasons_asked database (event ∷ []))
        (reasons_asked database events)
    ∙ ap (λ xs. in_order q ++ xs) (sym (asked-cons database event events))

view-IsIdleEmpty :
    (database : ℕ) (f : SyncFlush) (state : Option SyncFlushState)
    → f.states database ≡ state
    → IsIdleEmpty (view database f)
view-IsIdleEmpty database f none stored h = rw stored refl
view-IsIdleEmpty database f (some state) stored h =
    let busy : true ≡ false = rw stored at h in absurd (ground (arith, busy))

-- While a dispatcher stays registered no request is lost, doubled or overtaken: the reasons of the
-- runs of a database, one run after the other, and then those that wait, are what they were before
-- and then the reasons that it was asked for, in order.
pub no_request_is_lost :
    (database : ℕ) (events : List Event) (f : SyncFlush) (dispatcher : ℕ)
    → f.dispatcher ≡ some dispatcher
    → every keeps_dispatcher events ≡ true
    → in_order (view database (flush_steps events f))
      ≡ in_order (view database f) ++ reasons_asked database events
no_request_is_lost database events f dispatcher registered_now keeps =
    ap in_order (flushes_are_a_queue database events f)
    ∙ ap (λ o. in_order (queue_steps database events o (view database f))) registered_now
    ∙ queue_steps-in_order database events dispatcher (view database f)
        (view-IsIdleEmpty database f (f.states database) refl) keeps
