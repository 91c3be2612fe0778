-- ===== src/Cycle.antt =====
-- One sync cycle: what it shares with the outside. The bridge, the clock, the other runtime and the
-- runtime's own services are the fields of `World`; each request has a number, the count `issued`
-- of `src/features/sync/request-id.helpers.ts`.
pub mod MissingTokens
pub mod Send
pub mod Ratings
pub mod Chain
pub mod Held
pub mod Ends
use autoreas_mobile.Prelude.{
  ℕ, ◌+◌, ◌≤◌, String, Bool, true, false, not, ◌&&◌, Option, none, some, List, nat_eq, ltb, leb,
}
use autoreas_mobile.Database.{Database, JsonText, RemoteAnimeChange}
use autoreas_mobile.Outbox.Claim.{OutboxClaim}
use autoreas_mobile.Reconcile.Request.{JsonObject, ReconcileRequestBody}
use autoreas_mobile.Reconcile.Round.{ReconcileResponse, ReconcileRoundOutcome}
use autoreas_mobile.Reconcile.Writes.Release.{IsReleased}
use autoreas_mobile.Season.{PostActiveSeasonRatingRequest}

-- What comes back from `bridgeClient.reconcile` and the parse of its data: nothing (a transport
-- failure), an answer that is not `ok`, one that does not parse, or a response with its
-- `bridge_changes` as `normalizeBridgeChange` maps them.
pub data ReconcileAnswer : Type 0 where
  unanswered : ReconcileAnswer
  refused : ℕ → ReconcileAnswer
  malformed : ReconcileAnswer
  answered : ReconcileResponse → List RemoteAnimeChange → ReconcileAnswer

-- What comes back from `bridgeClient.getAnime`: nothing, or a status, its `ok` and its data.
pub data AnimeAnswer : Type 0 where
  no_anime_answer : AnimeAnswer
  anime_answer : ℕ → Bool → Option JsonObject → AnimeAnswer

-- What a cycle throws.
pub data SyncError : Type 0 where
  not_configured : SyncError
  http_error : ℕ → SyncError
  transport_error : SyncError
  invalid_response : SyncError
  write_failed : SyncError

pub record World : Type 0 where
  pub json : JsonText
  pub parse : String → Option JsonObject
  pub device_id : Option String
  -- The answers of the bridge to each request.
  pub reconcile : ℕ → ReconcileRequestBody → ReconcileAnswer
  pub get_anime : ℕ → String → AnimeAnswer
  pub post_active_season_rating : ℕ → PostActiveSeasonRatingRequest → Option ℕ
  -- What others write to the database while a request is under way.
  pub meanwhile : ℕ → Database → Database
  -- The time when the answer to a request is written, and whether that transaction fails.
  pub clock : ℕ → ℕ
  pub is_write_failed : ℕ → Bool
  -- Whether the transaction of the tokens fails whose last fetch is a request.
  pub is_token_write_failed : ℕ → Bool

pub record CycleState : Type 0 where
  pub db : Database
  pub issued : ℕ

-- The state when the answer to the next request arrives.
unfoldable pub after_request : World → CycleState → CycleState
after_request w s = record { db = w.meanwhile (s.issued + 1) s.db; issued = s.issued + 1 }

-- `isMessageRejection`: any 4xx but 401.
unfoldable pub is_message_rejection : SyncError → Bool
is_message_rejection (http_error status) =
    leb 400 status && ltb status 500 && not (nat_eq status 401)
is_message_rejection not_configured = false
is_message_rejection transport_error = false
is_message_rejection invalid_response = false
is_message_rejection write_failed = false

-- How a round ends.
pub data RoundResult : Type 0 where
  returned : ReconcileRoundOutcome → CycleState → RoundResult
  threw : SyncError → CycleState → RoundResult

-- No one else writes under the claim: whatever they do during a request, a row that the claim does
-- not hold is not held by it afterwards.
abbrev pub IsQuiet : World → OutboxClaim → Type 0
IsQuiet w claim =
    (n k : ℕ) (db : Database)
    → IsReleased claim n db.operation_log
    → IsReleased claim n (w.meanwhile k db).operation_log

-- A request takes a millisecond or more, counted from the claim.
abbrev pub IsTimed : World → OutboxClaim → Type 0
IsTimed w claim = (k : ℕ) → claim.claimed_at + k ≤ w.clock k
