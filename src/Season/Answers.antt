-- ===== src/Season/Answers.antt =====
-- What a rating carries to the bridge, and what an answer makes of it
-- (`season-rating-event.helpers.ts`, `season-rating-intent.helpers.ts`).
use autoreas_mobile.Prelude.{
  ℕ, String, ◌≡◌, refl, Bool, true, false, ◌&&◌, Option, some, leb, nat_eq, arith, none, [], ◌∷◌,
}
use autoreas_mobile.Database.{}
use autoreas_mobile.Reconcile.Request.{JsonObject, json_number, json_text}
use autoreas_mobile.Season.{
  SeasonRatingFate, delivered, given_up, retried, classify_season_rating_answer,
  SeasonRatingIntentInput, season_rating_row, build_season_rating_request,
  PostActiveSeasonRatingRequest,
}

abbrev pub stored_payload : SeasonRatingIntentInput → JsonObject
stored_payload input =
    ("seasonId", json_text input.season_id)
    ∷ ("grade", json_number input.nota)
    ∷ ("ratedAt", json_number input.rated_at)
    ∷ []

abbrev pub rating_request : SeasonRatingIntentInput → PostActiveSeasonRatingRequest
rating_request input = record {
  anime_id = input.anime_id;
  nota = some (json_number input.nota);
  rated_at = some (json_number input.rated_at);
  season_id = some (json_text input.season_id);
}

-- What the bridge is sent of a queued rating is what the person gave, where `JSON.parse` reads back
-- the payload that `JSON.stringify` wrote.
pub queued_rating_is_sent :
    (parse : String → Option JsonObject) (stringify : JsonObject → String) (id now : ℕ)
    (input : SeasonRatingIntentInput)
    → parse (stringify (stored_payload input)) ≡ some (stored_payload input)
    → build_season_rating_request parse (season_rating_row stringify id input now)
      ≡ rating_request input
unfolding build_season_rating_request season_rating_row
queued_rating_is_sent parse stringify id now input reads = rw reads refl

abbrev pub is_delivery : SeasonRatingFate → Bool
is_delivery delivered = true
is_delivery (given_up reason) = false
is_delivery retried = false

abbrev pub is_rejection : SeasonRatingFate → Bool
is_rejection (given_up reason) = true
is_rejection delivered = false
is_rejection retried = false

-- Of all statuses only 204 is a delivery, only those from 400 to 499 give a rating up, and a
-- request that got no answer is retried.
pub each_status_has_one_fate :
    (status : ℕ)
    → (is_delivery (classify_season_rating_answer (some status)) ≡ nat_eq status 204)
      × (is_rejection (classify_season_rating_answer (some status))
          ≡ (leb 400 status && leb status 499))
      × (classify_season_rating_answer none ≡ retried)
unfolding classify_season_rating_answer
each_status_has_one_fate status = (ground arith, ground arith, refl)
