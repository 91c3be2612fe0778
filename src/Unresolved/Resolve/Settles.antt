-- ===== src/Unresolved/Resolve/Settles.antt =====
-- A choice settles its key and nothing else (`unresolved-resolution.helpers.ts`).
use autoreas_mobile.Prelude.{
  ℕ, String, ◌≡◌, refl, ap, ◌∙◌, Bool, true, false, not, ◌&&◌, Option, none, some, List, [], ◌∷◌,
  ◌==◌, any, filterb, Elem, append-Elem, map-Elem, arith, eq_iff, Bool-cases, inl, inr,
}
use autoreas_mobile.Sql.{update_where, delete_where, select_first-Elem}
use autoreas_mobile.Database.{Database, JsonText, OperationLogRow}
use autoreas_mobile.Merge.Apply.{anime_update_operation}
use autoreas_mobile.Outbox.Backlog.{is_claimed_key}
use autoreas_mobile.Reconcile.Request.{JsonObject, JsonValue}
use autoreas_mobile.Unresolved.{
  UnresolvedOperationRow, UnresolvedRatingRow, operation_key, rating_group_key,
  read_unresolved_anime_keys, read_unresolved_rating_keys, UnresolvedChoice, keep_local,
  keep_bridge, anime_key, UnresolvedKey, anime, rating, same_key, list_unresolved_keys,
}
use autoreas_mobile.Unresolved.Listed.{is_key_of, is_given_up_of}
use autoreas_mobile.Unresolved.Resolve.{
  AnimeRequest, RemoteAnimeState, unavailable, deleted, stored, fetch_remote_anime_state,
  Resolution, resolved, unresolved_because, write_unclaimed_key, requeue, requeue_anime,
  keep_local_for_anime, is_queued_edit, take_bridge_state, keep_bridge_on, keep_bridge_for_anime,
  settle_key, offered_choices, is_offered, resolve_found, resolve_unresolved_key,
}

module _ {R : Type 0} where
  any-update_where :
      (p : R → Bool) (set : R → R) (rows : List R)
      → ((r : R) → p (set r) ≡ false)
      → any p (update_where p set rows) ≡ false
  unfolding update_where
  any-update_where p set [] clears = refl
  any-update_where p set (r ∷ rows) clears =
      ground (arith, clears r, any-update_where p set rows clears)

  filterb-update_where :
      (q p : R → Bool) (set : R → R) (rows : List R)
      → ((r : R) → p r ≡ true → (q r ≡ false) × (q (set r) ≡ false))
      → filterb q (update_where p set rows) ≡ filterb q rows
  unfolding update_where
  filterb-update_where q p set [] apart = refl
  filterb-update_where q p set (r ∷ rows) apart =
      ground (arith, apart r, filterb-update_where q p set rows apart)

  any-delete_where :
      (p test : R → Bool) (rows : List R)
      → ((r : R) → p r ≡ true → test r ≡ true)
      → any p (delete_where test rows) ≡ false
  unfolding delete_where
  any-delete_where p test [] covers = refl
  any-delete_where p test (r ∷ rows) covers =
      ground (arith, covers r, any-delete_where p test rows covers)

  filterb-delete_where :
      (q test : R → Bool) (rows : List R)
      → ((r : R) → q r ≡ true → test r ≡ false)
      → filterb q (delete_where test rows) ≡ filterb q rows
  unfolding delete_where
  filterb-delete_where q test [] apart = refl
  filterb-delete_where q test (r ∷ rows) apart =
      ground (arith, apart r, filterb-delete_where q test rows apart)

-- The rows of other keys: other animes' and this anime's ratings.
abbrev pub is_of_another_key : String → OperationLogRow → Bool
is_of_another_key id row = not ((row.anime_id == id) && (row.operation == anime_update_operation))

-- The key is settled in `after`: it was free, no row of it is given up, the other keys' rows are
-- as they were.
abbrev pub IsSettledKey : ℕ → String → Database → Resolution → Type 0
IsSettledKey now id before (unresolved_because code) = Unit
IsSettledKey now id before (resolved after) =
    (is_claimed_key before.operation_log now id ≡ false)
    × (any (is_given_up_of id) after.operation_log ≡ false)
    × (filterb (is_of_another_key id) after.operation_log
        ≡ filterb (is_of_another_key id) before.operation_log)

module _ (now : ℕ) (id : String) (db : Database) where
  write-settles :
      (write : Database → Database)
      → (any (is_given_up_of id) (write db).operation_log ≡ false)
        × (filterb (is_of_another_key id) (write db).operation_log
            ≡ filterb (is_of_another_key id) db.operation_log)
      → IsSettledKey now id db (write_unclaimed_key now id write db)
  unfolding write_unclaimed_key
  write-settles write (given_up, others) =
      elim (Bool-cases (is_claimed_key db.operation_log now id)) [
        | inl claimed ↦ rw claimed tt
        | inr free ↦ rw free (free, given_up, others)
      ]

  requeued :
      (any (is_given_up_of id) (requeue_anime id db).operation_log ≡ false)
      × (filterb (is_of_another_key id) (requeue_anime id db).operation_log
          ≡ filterb (is_of_another_key id) db.operation_log)
  unfolding requeue_anime
  requeued = (
    any-update_where (is_given_up_of id) requeue db.operation_log (λ r. ground arith),
    filterb-update_where (is_of_another_key id) (is_given_up_of id) requeue db.operation_log
        (λ r h. (ground (arith, h), ground (arith, h))),
  )

  dropped :
      (json : JsonText) (remote : RemoteAnimeState)
      → (any (is_given_up_of id) (take_bridge_state json id now remote db).operation_log ≡ false)
        × (filterb (is_of_another_key id) (take_bridge_state json id now remote db).operation_log
            ≡ filterb (is_of_another_key id) db.operation_log)
  unfolding take_bridge_state
  dropped json remote = (
    any-delete_where (is_given_up_of id) (is_queued_edit id) db.operation_log
        (λ r h. ground (arith, h)),
    filterb-delete_where (is_of_another_key id) (is_queued_edit id) db.operation_log
        (λ r h. ground (arith, h)),
  )

  keep_bridge-settles :
      (json : JsonText) (remote : RemoteAnimeState)
      → IsSettledKey now id db (keep_bridge_on json now id db remote)
  keep_bridge-settles json (unavailable code) = tt
  keep_bridge-settles json deleted = write-settles _ (dropped json deleted)
  keep_bridge-settles json (stored ingested) = write-settles _ (dropped json (stored ingested))

  keep_local-settles : IsSettledKey now id db (keep_local_for_anime now id db)
  unfolding keep_local_for_anime
  keep_local-settles = write-settles (requeue_anime id) requeued

keep_bridge-offered_edit :
    (g : String × List UnresolvedOperationRow)
    → any (is_offered keep_bridge) (offered_choices (operation_key g)) ≡ true
keep_bridge-offered_edit (key, rows) = ground arith

keep_bridge-offered_rating :
    (g : (String × String) × List UnresolvedRatingRow)
    → any (is_offered keep_bridge) (offered_choices (rating_group_key g)) ≡ true
keep_bridge-offered_rating ((season, key), rows) = ground arith

module _ (parse : String → Option JsonObject) (text_of : Option JsonValue → String) where
  pub keep_bridge-offered :
      (log : List OperationLogRow) (key : UnresolvedKey)
      → Elem key (list_unresolved_keys parse text_of log)
      → any (is_offered keep_bridge) (offered_choices key) ≡ true
  unfolding list_unresolved_keys read_unresolved_anime_keys read_unresolved_rating_keys
  keep_bridge-offered log key m =
      elim (append-Elem key (read_unresolved_anime_keys log)
        (read_unresolved_rating_keys parse text_of log) m) [
          | inl l ↦
              let (g, k, e) = map-Elem operation_key key _ l in
              ap (λ x. any (is_offered keep_bridge) (offered_choices x)) e
              ∙ keep_bridge-offered_edit g
          | inr r ↦
              let (g, k, e) = map-Elem rating_group_key key _ r in
              ap (λ x. any (is_offered keep_bridge) (offered_choices x)) e
              ∙ keep_bridge-offered_rating g
        ]

  module _ (json : JsonText) (request : AnimeRequest) (now : ℕ) (db : Database) (id : String) where
    -- What the entry point does with the key that it finds.
    found-settles :
        (key : UnresolvedKey) (choice : UnresolvedChoice)
        → is_key_of id key ≡ true
        → IsSettledKey now id db (settle_key parse text_of json request now db key choice)
    unfolding same_key keep_bridge_for_anime
    found-settles (rating season other rows choices) choice same = absurd (ground (arith, same))
    found-settles (anime other rows choices) keep_local same =
        rw ((eq_iff other id).0 same) (keep_local-settles now id db)
    found-settles (anime other rows choices) keep_bridge same =
        rw ((eq_iff other id).0 same)
          (keep_bridge-settles now id db json (fetch_remote_anime_state request))

    resolve_found-settles :
        (found : Option UnresolvedKey) (choice : UnresolvedChoice)
        → ((key : UnresolvedKey) → found ≡ some key → is_key_of id key ≡ true)
        → IsSettledKey now id db (resolve_found parse text_of json request now db found choice)
    resolve_found-settles none choice names = tt
    resolve_found-settles (some key) choice names =
        elim (Bool-cases (any (is_offered choice) (offered_choices key))) [
          | inl offered ↦ rw offered (found-settles key choice (names key refl))
          | inr missing ↦ rw missing tt
        ]

    -- A choice that goes through settles its key and nothing else: the key was under no live claim,
    -- the outbox has no given-up edit of the anime afterwards, and the rows of other animes and
    -- this anime's ratings are as they were.
    pub choice_settles_its_key :
        (choice : UnresolvedChoice)
        → IsSettledKey now id db
            (resolve_unresolved_key parse text_of json request now db (anime_key id) choice)
    unfolding resolve_unresolved_key
    choice_settles_its_key choice = resolve_found-settles _ choice (λ key found.
        (select_first-Elem (is_key_of id) (list_unresolved_keys parse text_of db.operation_log)
          found).1)
