-- ===== src/Season.antt =====
-- `src/features/sync/season-rating-event.helpers.ts`, the write of `season-rating-intent.helpers.ts`
-- and `resolveSupersededRatings` of `unresolved-supersede.helpers.ts`.
--
-- `JSON.parse` is the parameter `parse`, as in Reconcile/Request; `String(v)` and `Number(v)` are the
-- parameters `text_of` and `number_of`.
pub mod Answers
use autoreas_mobile.Prelude.{
  ℕ, String, ◌+◌, Bool, true, false, not, ◌&&◌, ◌||◌, Option, none, some, List, [], ◌∷◌, ◌++◌, ◌==◌,
  filterb, includes, nat_eq, ltb, get_or, if◌then◌else◌,
}
use autoreas_mobile.Sql.{delete_where}
use autoreas_mobile.Database.{
  Database, OperationLogRow, OperationStatus, pending, processing, synced, dead_letter,
  conflict_exhausted, status_eq,
}
use autoreas_mobile.Outbox.Claim.{ids_of}
use autoreas_mobile.Reconcile.Request.{
  JsonObject, JsonValue, json_number, json_text, strict_eq, property,
}

-- `SEASON_RATING_OPERATION`
abbrev pub season_rating_operation : String
season_rating_operation = "season_rating"

pub data SeasonRatingFailureKind : Type 0 where
  auth_repair conflict not_found rejected : SeasonRatingFailureKind

-- The text that the column `unresolved_reason` stores for a kind.
unfoldable pub failure_text : SeasonRatingFailureKind → String
failure_text auth_repair = "auth_repair"
failure_text conflict = "conflict"
failure_text not_found = "not_found"
failure_text rejected = "rejected"

pub data SeasonRatingFate : Type 0 where
  delivered : SeasonRatingFate
  given_up : SeasonRatingFailureKind → SeasonRatingFate
  retried : SeasonRatingFate

abbrev pub named_rejection : ℕ → SeasonRatingFailureKind
named_rejection status =
    if nat_eq status 401
    then auth_repair
    else if nat_eq status 404
    then not_found
    else if nat_eq status 409
    then conflict
    else rejected

-- `rejectionReason`
unfoldable pub rejection_reason : Option ℕ → Option SeasonRatingFailureKind
rejection_reason none = none
rejection_reason (some status) =
    if ltb status 400 || ltb 499 status then none else some (named_rejection status)

abbrev pub fate_of_reason : Option SeasonRatingFailureKind → SeasonRatingFate
fate_of_reason none = retried
fate_of_reason (some reason) = given_up reason

abbrev pub is_status : ℕ → Option ℕ → Bool
is_status status none = false
is_status status (some s) = nat_eq s status

-- `classifySeasonRatingAnswer`; the fate `pending` of the source is `retried` here.
unfoldable pub classify_season_rating_answer : Option ℕ → SeasonRatingFate
unfolding rejection_reason
classify_season_rating_answer status =
    if is_status 204 status then delivered else fate_of_reason (rejection_reason status)

-- `===` on values that may be missing.
abbrev pub opt_strict_eq : Option JsonValue → Option JsonValue → Bool
opt_strict_eq none none = true
opt_strict_eq (some v) (some w) = strict_eq v w
opt_strict_eq _ _ = false

-- `PostActiveSeasonRatingRequest`: a field that is none is left out of the JSON body.
pub record PostActiveSeasonRatingRequest : Type 0 where
  pub anime_id : String
  pub nota : Option JsonValue
  pub rated_at : Option JsonValue
  pub season_id : Option JsonValue

pub data SeasonRatingIntentStatus : Type 0 where
  intent_pending intent_syncing intent_failed : SeasonRatingIntentStatus

-- `intentStatus`
unfoldable pub intent_status : OperationStatus → Option SeasonRatingIntentStatus
intent_status pending = some intent_pending
intent_status processing = some intent_syncing
intent_status dead_letter = some intent_failed
intent_status synced = none
intent_status conflict_exhausted = none

pub record SeasonRatingIntent : Type 0 where
  pub id : ℕ
  pub anime_id : String
  pub season_id : String
  pub nota : Option ℕ
  pub rated_at : Option ℕ
  pub created_at : ℕ
  pub status : SeasonRatingIntentStatus
  pub failure_kind : Option String

abbrev pub shown_failure : SeasonRatingIntentStatus → Option String → Option String
shown_failure intent_failed reason = reason
shown_failure intent_pending reason = none
shown_failure intent_syncing reason = none

module _ (parse : String → Option JsonObject) where
  -- `parseSeasonRatingPayload`
  unfoldable pub parse_season_rating_payload : String → JsonObject
  parse_season_rating_payload payload = get_or (parse payload) []

  -- `buildSeasonRatingRequest`
  unfoldable pub build_season_rating_request : OperationLogRow → PostActiveSeasonRatingRequest
  unfolding parse_season_rating_payload property
  build_season_rating_request row =
      let payload = parse_season_rating_payload row.payload in
      record {
        anime_id = row.anime_id;
        nota = property payload "grade";
        rated_at = property payload "ratedAt";
        season_id = property payload "seasonId";
      }

  -- The season that a stored payload names.
  unfoldable pub payload_season : String → Option JsonValue
  unfolding parse_season_rating_payload property
  payload_season payload = property (parse_season_rating_payload payload) "seasonId"

  abbrev pub is_superseded_rating : OperationLogRow → OperationLogRow → Bool
  is_superseded_rating confirmed row =
      (row.anime_id == confirmed.anime_id)
      && ltb row.id confirmed.id
      && (row.operation == season_rating_operation)
      && status_eq dead_letter row.status
      && opt_strict_eq (payload_season row.payload) (payload_season confirmed.payload)

  -- `resolveSupersededRatings`, without the report that it returns for the log.
  unfoldable pub resolve_superseded_ratings :
      OperationLogRow → List OperationLogRow → List OperationLogRow
  unfolding payload_season strict_eq
  resolve_superseded_ratings confirmed log =
      let superseded = ids_of (filterb (is_superseded_rating confirmed) log) in
      delete_where (λ row. includes superseded row.id) log

  module _ (text_of : Option JsonValue → String) (number_of : Option JsonValue → Option ℕ) where
    abbrev pub intent_of : OperationLogRow → SeasonRatingIntentStatus → SeasonRatingIntent
    intent_of row status = record {
      id = row.id;
      anime_id = row.anime_id;
      season_id = text_of (payload_season row.payload);
      nota = number_of (property (parse_season_rating_payload row.payload) "grade");
      rated_at = number_of (property (parse_season_rating_payload row.payload) "ratedAt");
      created_at = row.created_at;
      status = status;
      failure_kind = shown_failure status row.unresolved_reason;
    }

    abbrev pub intents_of :
        OperationLogRow → Option SeasonRatingIntentStatus → List SeasonRatingIntent
    intents_of row none = []
    intents_of row (some status) =
        if row.operation == season_rating_operation then intent_of row status ∷ [] else []

    -- `mapSeasonRatingIntents`
    unfoldable pub map_season_rating_intents : List OperationLogRow → List SeasonRatingIntent
    unfolding intent_status payload_season
    map_season_rating_intents [] = []
    map_season_rating_intents (row ∷ rows) =
        intents_of row (intent_status row.status) ++ map_season_rating_intents rows

pub record SeasonRatingIntentInput : Type 0 where
  pub season_id : String
  pub anime_id : String
  pub nota : ℕ
  pub rated_at : ℕ

module _ (stringify : JsonObject → String) where
  unfoldable pub season_rating_row : ℕ → SeasonRatingIntentInput → ℕ → OperationLogRow
  season_rating_row id input now = record {
    id = id;
    anime_id = input.anime_id;
    operation = season_rating_operation;
    payload = stringify (
        ("seasonId", json_text input.season_id)
        ∷ ("grade", json_number input.nota)
        ∷ ("ratedAt", json_number input.rated_at)
        ∷ []);
    status = pending;
    created_at = now;
    conflict_attempt_count = 0;
    claim_owner = none;
    claimed_at = none;
    unresolved_reason = none;
  }

  -- The transaction of `enqueueSeasonRatingIntent`.
  unfoldable pub enqueue_season_rating_intent : SeasonRatingIntentInput → ℕ → Database → Database
  unfolding season_rating_row
  enqueue_season_rating_intent input now db = record db {
    operation_log = db.operation_log ++ season_rating_row db.next_operation_id input now ∷ [];
    next_operation_id = db.next_operation_id + 1;
  }
