-- ===== src/Projection/Observed.antt =====
-- What a durable read does to the cards (`observeAnimeMutationDurability` of
-- `anime-mutation-projection.helpers.ts`).
use autoreas_mobile.Prelude.{
  ◌≡◌, refl, sym, ap, ◌∙◌, Bool, false, Option, none, some, List, [], ◌∷◌, ◌==◌, Bool-cases, inl,
  inr, All, eq-of-==,
}
use autoreas_mobile.Database.{Anime}
use autoreas_mobile.Mutation.Patch.{AnimeMutationProjectionFields}
use autoreas_mobile.Projection.{
  AnimeMutationProjectionEntry, AnimeMutationProjectionRecord, AnimeMutationProjectionFold,
  ProjectionStore, ProjectionState, Observation, fields_of, fold_projection, set_record,
  apply_projection, overlay_record, publish, record_silently, entries_of, surviving_entries,
  is_absorbed, is_settled, observe_one, observe_from, observe_durability, conclude,
}
use autoreas_mobile.Projection.Fold.{fold_projection_idem, fields_eq-eq}
use autoreas_mobile.Projection.Gestures.{shown, overlay_shows, set_record_self}

-- The value that a record's gestures reach from a row.
abbrev reached : Anime → List AnimeMutationProjectionEntry → AnimeMutationProjectionFields
reached anime entries = (fold_projection entries (fields_of anime)).fields

shown-entries :
    (anime : Anime) (r : Option AnimeMutationProjectionRecord)
    → fields_of (overlay_record anime r) ≡ reached anime (entries_of r)
unfolding fold_projection
shown-entries anime none = refl
shown-entries anime (some r) = overlay_shows anime r.entries

shown-reached :
    (anime : Anime) (state : ProjectionState)
    → shown anime state ≡ reached anime (entries_of (state anime.id))
unfolding apply_projection
shown-reached anime state = shown-entries anime (state anime.id)

-- What a card shows depends on the record of its anime alone.
shown-cong :
    (anime : Anime) (state state' : ProjectionState)
    → state anime.id ≡ state' anime.id
    → shown anime state ≡ shown anime state'
unfolding apply_projection
shown-cong anime state state' h = ap (λ o. fields_of (overlay_record anime o)) h

-- The entries that survive a read of a row reach what all of them reached.
surviving_reach :
    (anime : Anime) (r : Option AnimeMutationProjectionRecord)
    → reached anime (surviving_entries anime r) ≡ reached anime (entries_of r)
unfolding surviving_entries
surviving_reach anime r =
    let folded = fold_projection (entries_of r) (fields_of anime) in
    elim (Bool-cases (is_absorbed anime folded)) [
      | inl absorbed ↦ rw absorbed (sym (fields_eq-eq folded.fields (fields_of anime) absorbed))
      | inr kept ↦ rw kept (
          ap (λ (f : AnimeMutationProjectionFold). f.fields)
            (fold_projection_idem (entries_of r) (fields_of anime)))
    ]

module _ (is_same_object : Anime → Anime → Bool) (anime : Anime) where
  observe_one-same :
      (o : Observation)
      → shown anime (observe_one is_same_object anime o).by_anime_id ≡ shown anime o.by_anime_id
  unfolding observe_one
  observe_one-same o =
      elim (Bool-cases (is_settled is_same_object anime (o.by_anime_id anime.id))) [
        | inl settled ↦ rw settled refl
        | inr moved ↦ rw moved (
            shown-reached anime _
            ∙ ap (λ s. reached anime (entries_of s)) (set_record_self o.by_anime_id anime.id _)
            ∙ surviving_reach anime (o.by_anime_id anime.id)
            ∙ sym (shown-reached anime o.by_anime_id))
      ]

  observe_one-other :
      (other : Anime) (o : Observation)
      → other.id == anime.id ≡ false
      → (observe_one is_same_object other o).by_anime_id anime.id ≡ o.by_anime_id anime.id
  unfolding observe_one set_record
  observe_one-other other o apart =
      elim (Bool-cases (is_settled is_same_object other (o.by_anime_id other.id))) [
        | inl settled ↦ rw settled refl
        | inr moved ↦ rw (moved, apart) refl
      ]

  observe_from-shown :
      (animes : List Anime) (o : Observation)
      → All (λ (a : Anime). a.id ≡ anime.id → a ≡ anime) animes
      → shown anime (observe_from is_same_object animes o).by_anime_id ≡ shown anime o.by_anime_id
  unfolding observe_from
  observe_from-shown [] o one = refl
  observe_from-shown (a ∷ animes) o one =
      observe_from-shown animes (observe_one is_same_object a o) one.1
      ∙ elim (Bool-cases (a.id == anime.id)) [
        | inl same ↦
            ap (λ b. shown anime (observe_one is_same_object b o).by_anime_id)
              (one.0 (eq-of-== a.id anime.id same))
            ∙ observe_one-same o
        | inr apart ↦ shown-cong anime _ _ (observe_one-other a o apart)
      ]

  conclude-shown :
      (o : Observation) (store : ProjectionStore)
      → shown anime o.by_anime_id ≡ shown anime store.state
      → shown anime (conclude is_same_object o store).state ≡ shown anime store.state
  unfolding publish record_silently
  conclude-shown o store same = elim (Bool-cases o.did_change) [
    | inl changed ↦ elim (Bool-cases o.did_retire) [
      | inl retired ↦ rw (changed, retired) same
      | inr silent ↦ rw (changed, silent) same
    ]
    | inr settled ↦ rw settled refl
  ]

  -- A read of durable rows retires entries without moving a card: where the read has no other row
  -- with the id of an anime, the card of that anime shows the same values after it as before.
  pub observe_keeps_shown :
      (animes : List Anime) (store : ProjectionStore)
      → All (λ (a : Anime). a.id ≡ anime.id → a ≡ anime) animes
      → shown anime (observe_durability is_same_object animes store).state ≡ shown anime store.state
  unfolding observe_durability
  observe_keeps_shown animes store one = conclude-shown _ store (observe_from-shown animes _ one)
