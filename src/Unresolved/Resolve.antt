-- ===== src/Unresolved/Resolve.antt =====
-- `src/features/sync/unresolved-resolution.helpers.ts` and `resolveUnresolvedKey` of
-- `unresolved-key.helpers.ts`: a person settles an unresolved key.
--
-- What the bridge answers for an anime is a parameter, as is the time `now` of each write.
pub mod Settles
pub mod Unblocks
use autoreas_mobile.Prelude.{
  ℕ, String, Bool, true, false, not, ◌&&◌, Option, none, some, List, [], ◌∷◌, ◌==◌, any, filterb,
  includes, nat_eq, if◌then◌else◌,
}
use autoreas_mobile.Sql.{update_where, delete_where, select_first}
use autoreas_mobile.Database.{
  Database, AnimeRow, JsonText, OperationLogRow, OperationStatus, pending, processing, synced,
  dead_letter, status_eq, RemoteAnimeChange, delete,
}
use autoreas_mobile.Database.Tables.{has_id, find_anime}
use autoreas_mobile.Merge.Apply.{anime_update_operation, apply_remote_changes}
use autoreas_mobile.Outbox.Backlog.{has_status, is_claimed_key}
use autoreas_mobile.Outbox.Claim.{ids_of}
use autoreas_mobile.Reconcile.Request.{JsonObject, JsonValue}
use autoreas_mobile.Season.{season_rating_operation}
use autoreas_mobile.Heal.{IngestedAnime, heal_anime_from_snapshot}
use autoreas_mobile.Unresolved.{
  UnresolvedChoice, keep_local, keep_bridge, UnresolvedKeyRef, UnresolvedKey, anime, rating,
  UnresolvedResolutionErrorCode, not_unresolved, choice_not_offered, key_claimed, not_paired,
  bridge_unreachable, remote_state_unavailable, same_key, ref_of, season_of, is_given_up_edit,
  list_unresolved_keys,
}

-- `===` on choices.
abbrev pub is_offered : UnresolvedChoice → UnresolvedChoice → Bool
is_offered keep_local keep_local = true
is_offered keep_bridge keep_bridge = true
is_offered _ _ = false

abbrev pub offered_choices : UnresolvedKey → List UnresolvedChoice
offered_choices (anime id rows choices) = choices
offered_choices (rating season id rows choices) = choices

-- What the request for an anime comes to: no pairing, no answer, or a status, its `ok` and the
-- anime where the data parses.
pub data AnimeRequest : Type 0 where
  unpaired : AnimeRequest
  unanswered : AnimeRequest
  responded : ℕ → Bool → Option IngestedAnime → AnimeRequest

pub data RemoteAnimeState : Type 0 where
  deleted : RemoteAnimeState
  stored : IngestedAnime → RemoteAnimeState
  unavailable : UnresolvedResolutionErrorCode → RemoteAnimeState

abbrev pub parsed_state : Option IngestedAnime → RemoteAnimeState
parsed_state none = unavailable remote_state_unavailable
parsed_state (some ingested) = stored ingested

-- `fetchRemoteAnimeState` with `requestAnime`
unfoldable pub fetch_remote_anime_state : AnimeRequest → RemoteAnimeState
fetch_remote_anime_state unpaired = unavailable not_paired
fetch_remote_anime_state unanswered = unavailable bridge_unreachable
fetch_remote_anime_state (responded status ok ingested) =
    if nat_eq status 404
    then deleted
    else if not ok
    then unavailable bridge_unreachable
    else parsed_state ingested

pub data Resolution : Type 0 where
  resolved : Database → Resolution
  unresolved_because : UnresolvedResolutionErrorCode → Resolution

-- `writeUnclaimedKey`, with `isKeyClaimed`
unfoldable pub write_unclaimed_key : ℕ → String → (Database → Database) → Database → Resolution
unfolding is_claimed_key
write_unclaimed_key now anime_id write db =
    if is_claimed_key db.operation_log now anime_id
    then unresolved_because key_claimed
    else resolved (write db)

abbrev pub requeue : OperationLogRow → OperationLogRow
requeue row = record row { status = pending; unresolved_reason = none; conflict_attempt_count = 0 }

-- The writes of `keepLocalForAnime`.
unfoldable pub requeue_anime : String → Database → Database
requeue_anime anime_id db = record db {
  operation_log =
      update_where (λ row. (row.anime_id == anime_id) && is_given_up_edit row) requeue
        db.operation_log;
  animes =
      update_where (has_id anime_id) (λ (row : AnimeRow). record row { bridge_modified_at = none })
        db.animes;
}

-- `keepLocalForAnime`
unfoldable pub keep_local_for_anime : ℕ → String → Database → Resolution
unfolding write_unclaimed_key requeue_anime
keep_local_for_anime now anime_id db = write_unclaimed_key now anime_id (requeue_anime anime_id) db

abbrev pub is_queued_edit : String → OperationLogRow → Bool
is_queued_edit anime_id row =
    (row.anime_id == anime_id)
    && (row.operation == anime_update_operation)
    && not (status_eq synced row.status)

abbrev pub delete_change : String → ℕ → RemoteAnimeChange
delete_change anime_id now = record {
  record_id = anime_id;
  change_type = delete;
  changed_fields = [];
  snapshot = none;
  timestamp = now;
}

module _ (json : JsonText) where
  abbrev pub apply_remote_state : String → ℕ → RemoteAnimeState → List AnimeRow → List AnimeRow
  apply_remote_state anime_id now (unavailable code) animes = animes
  apply_remote_state anime_id now deleted animes =
      (apply_remote_changes json (delete_change anime_id now ∷ [])
        (record { guard_by_record_id = λ id. none; pending_outbox_record_ids = [] }) animes).1
  apply_remote_state anime_id now (stored ingested) animes =
      (heal_anime_from_snapshot json ingested.anime ingested.bridge_modified_at
        (find_anime animes anime_id) animes).1

  -- The writes of `keepBridgeForAnime`.
  unfoldable pub take_bridge_state : String → ℕ → RemoteAnimeState → Database → Database
  unfolding delete_where apply_remote_changes heal_anime_from_snapshot find_anime
  take_bridge_state anime_id now remote db = record db {
    operation_log = delete_where (is_queued_edit anime_id) db.operation_log;
    animes = apply_remote_state anime_id now remote db.animes;
  }

  abbrev pub keep_bridge_on : ℕ → String → Database → RemoteAnimeState → Resolution
  keep_bridge_on now anime_id db (unavailable code) = unresolved_because code
  keep_bridge_on now anime_id db deleted =
      write_unclaimed_key now anime_id (take_bridge_state anime_id now deleted) db
  keep_bridge_on now anime_id db (stored ingested) =
      write_unclaimed_key now anime_id (take_bridge_state anime_id now (stored ingested)) db

  -- `keepBridgeForAnime`
  unfoldable pub keep_bridge_for_anime : ℕ → String → AnimeRequest → Database → Resolution
  unfolding write_unclaimed_key take_bridge_state fetch_remote_anime_state
  keep_bridge_for_anime now anime_id request db =
      keep_bridge_on now anime_id db (fetch_remote_anime_state request)

module _ (parse : String → Option JsonObject) (text_of : Option JsonValue → String) where
  -- `readRatingKeyRowIds`
  unfoldable pub read_rating_key_row_ids :
      String → String → List OperationStatus → List OperationLogRow → List ℕ
  unfolding season_of
  read_rating_key_row_ids season anime_id statuses log = ids_of (
      filterb
        (λ row.
          (row.anime_id == anime_id)
          && (row.operation == season_rating_operation)
          && has_status statuses row
          && (season_of parse text_of row == season))
        log)

  -- `keepLocalForRating`
  unfoldable pub keep_local_for_rating : ℕ → String → String → Database → Resolution
  unfolding write_unclaimed_key read_rating_key_row_ids
  keep_local_for_rating now season anime_id db =
      write_unclaimed_key now anime_id
        (λ d.
          let ids = read_rating_key_row_ids season anime_id (dead_letter ∷ []) d.operation_log in
          record d {
            operation_log = update_where (λ row. includes ids row.id) requeue d.operation_log;
          })
        db

  -- `keepBridgeForRating`
  unfoldable pub keep_bridge_for_rating : ℕ → String → String → Database → Resolution
  unfolding write_unclaimed_key read_rating_key_row_ids delete_where
  keep_bridge_for_rating now season anime_id db =
      write_unclaimed_key now anime_id
        (λ d.
          let ids =
            read_rating_key_row_ids season anime_id (pending ∷ processing ∷ dead_letter ∷ [])
              d.operation_log in
          record d { operation_log = delete_where (λ row. includes ids row.id) d.operation_log })
        db

  module _ (json : JsonText) (request : AnimeRequest) (now : ℕ) (db : Database) where
    abbrev pub settle_key : UnresolvedKey → UnresolvedChoice → Resolution
    settle_key (anime id rows choices) keep_local = keep_local_for_anime now id db
    settle_key (anime id rows choices) keep_bridge = keep_bridge_for_anime json now id request db
    settle_key (rating season id rows choices) keep_local = keep_local_for_rating now season id db
    settle_key (rating season id rows choices) keep_bridge = keep_bridge_for_rating now season id db

    abbrev pub resolve_found : Option UnresolvedKey → UnresolvedChoice → Resolution
    resolve_found none choice = unresolved_because not_unresolved
    resolve_found (some key) choice =
        if any (is_offered choice) (offered_choices key)
        then settle_key key choice
        else unresolved_because choice_not_offered

    -- `resolveUnresolvedKey`
    unfoldable pub resolve_unresolved_key : UnresolvedKeyRef → UnresolvedChoice → Resolution
    unfolding keep_local_for_anime keep_bridge_for_anime keep_local_for_rating
        keep_bridge_for_rating list_unresolved_keys same_key select_first
    resolve_unresolved_key key choice =
        resolve_found
          (select_first (λ k. same_key (ref_of k) key)
            (list_unresolved_keys parse text_of db.operation_log))
          choice
