-- ===== src/Tests/Projection.antt =====
-- Witnesses of the overlay: a session that reads one anime and taps Cap+ on it.
use autoreas_mobile.Prelude.{◌≡◌, refl, Bool, ◌&&◌, ◌==◌, some, [], ◌∷◌, nat_eq, ◌+◌}
use autoreas_mobile.Database.{Anime}
use autoreas_mobile.Mutation.Patch.{AnimeMutationProjectionFields}
use autoreas_mobile.Projection.{
  ProjectionStore, accept_projection, drop_projection, apply_projection, observe_durability,
}
use autoreas_mobile.Projection.Gestures.{shown, accepted_is_shown}
use autoreas_mobile.Projection.Invariant.{IsRecordOf}
use autoreas_mobile.Projection.Session.{
  Session, started, observed, accepted, initial_projection_store, Session-IsWellFormed,
  failed_gesture_leaves_no_trace,
}
use autoreas_mobile.Projection.Observed.{observe_keeps_shown}
use autoreas_mobile.Tests.Data.{frieren}

-- Two objects are the same one where they show the same chapters.
abbrev same_object : Anime → Anime → Bool
same_object a b = (a.id == b.id) && nat_eq a.nrocapvisto b.nrocapvisto

abbrev cap_plus : Anime → AnimeMutationProjectionFields
cap_plus anime = record { nrocapvisto = anime.nrocapvisto + 2; estado = anime.estado }

abbrev read_store : ProjectionStore
read_store = observe_durability same_object (frieren ∷ []) initial_projection_store

read-Session : Session same_object read_store
read-Session = observed (frieren ∷ []) started

abbrev tapped_store : ProjectionStore
tapped_store = (accept_projection "a" cap_plus read_store).1

Session-IsWellFormed_example : IsRecordOf tapped_store.entry_id "a" (tapped_store.state "a")
Session-IsWellFormed_example =
    Session-IsWellFormed same_object tapped_store (accepted "a" cap_plus read-Session) "a"

given_1 : (accept_projection "a" cap_plus read_store).0 ≡ some 1
unfolding observe_durability accept_projection
given_1 = refl

failed_gesture_leaves_no_trace_example :
    (drop_projection "a" 1 tapped_store).state "a" ≡ read_store.state "a"
failed_gesture_leaves_no_trace_example =
    failed_gesture_leaves_no_trace same_object read_store "a" cap_plus read-Session given_1

read_record : read_store.state "a" ≡ some (record { durable = some frieren; entries = [] })
unfolding observe_durability
read_record = refl

accepted_is_shown_example :
    shown frieren tapped_store.state ≡ cap_plus (apply_projection frieren read_store.state)
accepted_is_shown_example =
    accepted_is_shown "a" cap_plus read_store frieren
      (record { durable = some frieren; entries = [] }) read_record refl refl

observe_keeps_shown_example :
    shown frieren (observe_durability same_object (frieren ∷ []) tapped_store).state
    ≡ shown frieren tapped_store.state
observe_keeps_shown_example =
    observe_keeps_shown same_object frieren (frieren ∷ []) tapped_store (λ same. refl, tt)
