-- ===== src/Projection/Session.antt =====
-- The overlay over a whole session (`anime-mutation-projection.helpers.ts`), in any order of calls.
use autoreas_mobile.Prelude.{
  ℕ, ◌+◌, String, ◌≡◌, refl, ap, ◌∙◌, Bool, Option, none, some, List, arith, Bool-cases, inl, inr,
}
use autoreas_mobile.Database.{Anime}
use autoreas_mobile.Mutation.Patch.{AnimeMutationProjectionFields}
use autoreas_mobile.Projection.{
  AnimeMutationProjectionEntry, AnimeMutationProjectionRecord, ProjectionStore, fields_eq,
  apply_projection, accept_projection, accept_record, accept_durable, accept_on, publish,
  record_silently, drop_projection, drop_record, drop_to, entries_before, observe_durability,
  reset_projection,
}
use autoreas_mobile.Projection.Fold.{}
use autoreas_mobile.Projection.Gestures.{shown, accept_projection-on}
use autoreas_mobile.Projection.Drops.{drop_undoes_accept}
use autoreas_mobile.Projection.Invariant.{
  IsRecordOf, IsWellFormed, set_record-IsWellFormed, drop_record-IsWellFormed,
  observe_from-IsWellFormed, conclude-IsWellFormed, IsWellFormed-next, Issued-append, Issued-next,
}

-- `INITIAL_ANIME_MUTATION_PROJECTION_STATE`
abbrev pub initial_projection_store : ProjectionStore
initial_projection_store = record { state = λ id. none; entry_id = 0; notified = 0 }

module _ (is_same_object : Anime → Anime → Bool) where
  -- The stores that a session can reach.
  pub data Session : ProjectionStore → Type 0 where
    started : Session initial_projection_store
    accepted :
        {store : ProjectionStore} (id : String)
        (build_projected : Anime → AnimeMutationProjectionFields)
        → Session store
        → Session (accept_projection id build_projected store).1
    dropped :
        {store : ProjectionStore} (id : String) (entry_id : ℕ)
        → Session store
        → Session (drop_projection id entry_id store)
    observed :
        {store : ProjectionStore} (animes : List Anime)
        → Session store
        → Session (observe_durability is_same_object animes store)
    reset : {store : ProjectionStore} → Session store → Session (reset_projection store)

accept_on-IsWellFormed :
    (id : String) (build_projected : Anime → AnimeMutationProjectionFields)
    (store : ProjectionStore) (durable : Anime) (r : AnimeMutationProjectionRecord)
    → IsWellFormed store.entry_id store.state
    → IsRecordOf store.entry_id id (some r)
    → let next = (accept_on id build_projected store durable r).1 in
      IsWellFormed next.entry_id next.state
unfolding publish
accept_on-IsWellFormed id build_projected store durable r w this =
    elim (Bool-cases (
      fields_eq (build_projected (apply_projection durable store.state))
        (shown durable store.state))) [
          | inl idle ↦ rw idle w
          | inr changed ↦ rw changed (
              set_record-IsWellFormed (store.entry_id + 1) store.state id _
                (IsWellFormed-next store.entry_id store.state w)
                (
                  this.0,
                  Issued-append (store.entry_id + 1) r.entries _
                      (Issued-next store.entry_id r.entries this.1) (omega arith),
                ))
        ]

accept_durable-IsWellFormed :
    (id : String) (build_projected : Anime → AnimeMutationProjectionFields)
    (store : ProjectionStore) (o : Option Anime) (r : AnimeMutationProjectionRecord)
    → IsWellFormed store.entry_id store.state
    → IsRecordOf store.entry_id id (some r)
    → let next = (accept_durable id build_projected store o r).1 in
      IsWellFormed next.entry_id next.state
accept_durable-IsWellFormed id build_projected store none r w this = w
accept_durable-IsWellFormed id build_projected store (some durable) r w this =
    accept_on-IsWellFormed id build_projected store durable r w this

accept_record-IsWellFormed :
    (id : String) (build_projected : Anime → AnimeMutationProjectionFields)
    (store : ProjectionStore) (o : Option AnimeMutationProjectionRecord)
    → IsWellFormed store.entry_id store.state
    → IsRecordOf store.entry_id id o
    → let next = (accept_record id build_projected store o).1 in
      IsWellFormed next.entry_id next.state
accept_record-IsWellFormed id build_projected store none w this = w
accept_record-IsWellFormed id build_projected store (some r) w this =
    accept_durable-IsWellFormed id build_projected store r.durable r w this

-- Dropping and observing issue no entry.
entry_id-drop_to :
    (id : String) (store : ProjectionStore) (r : AnimeMutationProjectionRecord)
    (o : Option (List AnimeMutationProjectionEntry))
    → (drop_to id store r o).entry_id ≡ store.entry_id
unfolding publish
entry_id-drop_to id store r none = refl
entry_id-drop_to id store r (some before) = refl

entry_id-drop_record :
    (id : String) (entry_id : ℕ) (store : ProjectionStore)
    (o : Option AnimeMutationProjectionRecord)
    → (drop_record id entry_id store o).entry_id ≡ store.entry_id
entry_id-drop_record id entry_id store none = refl
entry_id-drop_record id entry_id store (some r) =
    entry_id-drop_to id store r (entries_before entry_id r.entries)

entry_id-drop :
    (id : String) (entry_id : ℕ) (store : ProjectionStore)
    → (drop_projection id entry_id store).entry_id ≡ store.entry_id
unfolding drop_projection
entry_id-drop id entry_id store = entry_id-drop_record id entry_id store (store.state id)

module _ (is_same_object : Anime → Anime → Bool) where
  entry_id-observe :
      (animes : List Anime) (store : ProjectionStore)
      → (observe_durability is_same_object animes store).entry_id ≡ store.entry_id
  unfolding observe_durability publish record_silently
  entry_id-observe animes store = ground arith

  -- In every session, whatever the order of its calls, each record holds the durable row of its own
  -- anime, and entries that the counter has issued: no later gesture is given the id of one of them.
  pub Session-IsWellFormed :
      (store : ProjectionStore)
      → Session is_same_object store
      → IsWellFormed store.entry_id store.state
  unfolding accept_projection drop_projection observe_durability reset_projection
  Session-IsWellFormed _ started = λ id. tt
  Session-IsWellFormed _ (accepted {store} id build_projected s) =
      accept_record-IsWellFormed id build_projected store (store.state id)
        (Session-IsWellFormed store s) (Session-IsWellFormed store s id)
  Session-IsWellFormed _ (dropped {store} id entry_id s) = rw (entry_id-drop id entry_id store) (
      drop_record-IsWellFormed store.entry_id id entry_id store (store.state id)
        (Session-IsWellFormed store s) (Session-IsWellFormed store s id))
  Session-IsWellFormed _ (observed {store} animes s) = rw (entry_id-observe animes store) (
      conclude-IsWellFormed store.entry_id is_same_object _ store
        (observe_from-IsWellFormed store.entry_id is_same_object animes _
          (Session-IsWellFormed store s))
        (Session-IsWellFormed store s))
  Session-IsWellFormed _ (reset s) = λ id. tt

  failed_durable :
      (store : ProjectionStore) (id : String)
      (build_projected : Anime → AnimeMutationProjectionFields) (r : AnimeMutationProjectionRecord)
      (o : Option Anime) {n : ℕ}
      → IsRecordOf store.entry_id id (some r)
      → store.state id ≡ some r
      → r.durable ≡ o
      → (accept_durable id build_projected store o r).0 ≡ some n
      → (drop_projection id n (accept_projection id build_projected store).1).state id
        ≡ store.state id
  failed_durable store id build_projected r none w h d given = absurd (ground arith)
  failed_durable store id build_projected r (some durable) {n} w h d given =
      drop_undoes_accept id build_projected store durable r h d w.1 (
        ap (λ (p : Option ℕ × ProjectionStore). p.0)
          (accept_projection-on id build_projected store durable r h d)
        ∙ given)

  failed_record :
      (store : ProjectionStore) (id : String)
      (build_projected : Anime → AnimeMutationProjectionFields)
      (o : Option AnimeMutationProjectionRecord) {n : ℕ}
      → IsRecordOf store.entry_id id o
      → store.state id ≡ o
      → (accept_record id build_projected store o).0 ≡ some n
      → (drop_projection id n (accept_projection id build_projected store).1).state id
        ≡ store.state id
  failed_record store id build_projected none w h given = absurd (ground arith)
  failed_record store id build_projected (some r) {n} w h given =
      failed_durable store id build_projected r r.durable w h refl given

  -- In every session, a gesture that was accepted and then failed leaves no trace: dropping the
  -- entry that it was given puts back the record of its anime.
  pub failed_gesture_leaves_no_trace :
      (store : ProjectionStore) (id : String)
      (build_projected : Anime → AnimeMutationProjectionFields) {n : ℕ}
      → Session is_same_object store
      → (accept_projection id build_projected store).0 ≡ some n
      → (drop_projection id n (accept_projection id build_projected store).1).state id
        ≡ store.state id
  unfolding accept_projection
  failed_gesture_leaves_no_trace store id build_projected {n} s given =
      failed_record store id build_projected (store.state id) (Session-IsWellFormed store s id) refl
        given
