-- ===== src/Cycle/Ratings.antt =====
-- `src/features/sync/season-rating-round.helpers.ts`: the ratings of one round, one per request.
pub mod Released
use autoreas_mobile.Prelude.{
  ℕ, ◌+◌, Bool, true, false, ◌||◌, none, some, List, [], ◌∷◌, ◌++◌, is_empty, leb, if◌then◌else◌,
}
use autoreas_mobile.Sql.{update_where}
use autoreas_mobile.Database.{OperationLogRow, pending, synced, dead_letter}
use autoreas_mobile.Outbox.Claim.{
  OutboxClaim, held_operations_where, read_held_operation_ids, write_held_status,
  claim_chain_successors,
}
use autoreas_mobile.Season.{
  SeasonRatingFate, delivered, given_up, retried, SeasonRatingFailureKind, failure_text,
  classify_season_rating_answer, build_season_rating_request, resolve_superseded_ratings,
}
use autoreas_mobile.Cycle.{World, CycleState, after_request}

pub record SettledRating : Type 0 where
  pub confirmed : Bool
  pub successors : List OperationLogRow

-- `NOTHING_CONFIRMED`
abbrev pub nothing_confirmed : SettledRating
nothing_confirmed = record { confirmed = false; successors = [] }

abbrev pub give_rating_up : SeasonRatingFailureKind → OperationLogRow → OperationLogRow
give_rating_up reason row = record row {
  status = dead_letter;
  unresolved_reason = some (failure_text reason);
  claim_owner = none;
  claimed_at = none;
}

abbrev pub confirmed_with :
    List OperationLogRow × List OperationLogRow → SettledRating × List OperationLogRow
confirmed_with (successors, log) = (record { confirmed = true; successors = successors }, log)

module _ (w : World) (claim : OutboxClaim) (chain_deadline : ℕ) where
  -- The write of each fate of a rating that is still held.
  unfoldable pub settle_fate :
      OperationLogRow
      → SeasonRatingFate
      → ℕ
      → List OperationLogRow
      → SettledRating × List OperationLogRow
  unfolding held_operations_where failure_text write_held_status resolve_superseded_ratings
      claim_chain_successors
  settle_fate row (given_up reason) now log = (
    nothing_confirmed,
    update_where (held_operations_where (row.id ∷ []) claim) (give_rating_up reason) log,
  )
  settle_fate row retried now log =
      (nothing_confirmed, write_held_status (row.id ∷ []) claim pending log)
  settle_fate row delivered now log =
      let resolved =
        resolve_superseded_ratings w.parse row (write_held_status (row.id ∷ []) claim synced log) in
      let chained = claim_chain_successors (row.anime_id ∷ []) claim resolved in
      confirmed_with (if leb chain_deadline now then ([], resolved) else chained)

  -- `settleSeasonRating`
  unfoldable pub settle_season_rating :
      OperationLogRow
      → SeasonRatingFate
      → ℕ
      → List OperationLogRow
      → SettledRating × List OperationLogRow
  unfolding read_held_operation_ids settle_fate
  settle_season_rating row fate now log =
      if is_empty (read_held_operation_ids log (row.id ∷ []) claim)
      then (nothing_confirmed, log)
      else settle_fate row fate now log

-- `releaseHeldRows`: reads the rows that are held, and writes those.
unfoldable pub release_held_rows : List ℕ → OutboxClaim → CycleState → CycleState
unfolding read_held_operation_ids write_held_status
release_held_rows ids claim s =
    let held = read_held_operation_ids s.db.operation_log ids claim in
    record s {
      db = record s.db { operation_log = write_held_status held claim pending s.db.operation_log };
    }

-- `SeasonRatingRoundOutcome`, with the state that the round has reached.
pub record SeasonRatingRoundOutcome : Type 0 where
  pub confirmed_count : ℕ
  pub pending_count : ℕ
  pub attempted_count : ℕ
  pub rating_delivered : Bool
  pub successors : List OperationLogRow
  pub state : CycleState

abbrev pub is_retried : SeasonRatingFate → Bool
is_retried retried = true
is_retried delivered = false
is_retried (given_up reason) = false

abbrev pub is_delivered : SeasonRatingFate → Bool
is_delivered delivered = true
is_delivered retried = false
is_delivered (given_up reason) = false

abbrev pub count_if : Bool → ℕ
count_if true = 1
count_if false = 0

module _ (w : World) (claim : OutboxClaim) (chain_deadline : ℕ) where
  abbrev pub rating_settled :
      SeasonRatingFate
      → SeasonRatingRoundOutcome
      → CycleState
      → SettledRating × List OperationLogRow
      → SeasonRatingRoundOutcome
  rating_settled fate total s (settled, log) = record {
    confirmed_count = total.confirmed_count + count_if settled.confirmed;
    pending_count = total.pending_count + count_if (is_retried fate);
    attempted_count = total.attempted_count + 1;
    rating_delivered = total.rating_delivered || is_delivered fate;
    successors = total.successors ++ settled.successors;
    state = record s { db = record s.db { operation_log = log } };
  }

  -- The rest of the loop's body where the write of the answer fails.
  abbrev pub rating_unwritten :
      OperationLogRow
      → SeasonRatingFate
      → SeasonRatingRoundOutcome
      → CycleState
      → SeasonRatingRoundOutcome
  rating_unwritten row fate total s = record total {
    pending_count = total.pending_count + 1;
    attempted_count = total.attempted_count + 1;
    rating_delivered = total.rating_delivered || is_delivered fate;
    state = release_held_rows (row.id ∷ []) claim s;
  }

  -- The loop's body after the answer: `settleSafely` and the counts; `s` is the state then.
  unfoldable pub settle_safely :
      OperationLogRow
      → SeasonRatingFate
      → SeasonRatingRoundOutcome
      → CycleState
      → SeasonRatingRoundOutcome
  unfolding settle_season_rating release_held_rows
  settle_safely row fate total s =
      if w.is_write_failed s.issued
      then rating_unwritten row fate total s
      else rating_settled fate total s (
          settle_season_rating w claim chain_deadline row fate (w.clock s.issued)
            s.db.operation_log)

  -- `postSeasonRating`: the fate of one rating.
  unfoldable pub post_season_rating : OperationLogRow → CycleState → SeasonRatingFate
  unfolding classify_season_rating_answer build_season_rating_request
  post_season_rating row s =
      classify_season_rating_answer
        (w.post_active_season_rating s.issued (build_season_rating_request w.parse row))

  -- The body of the loop.
  unfoldable pub send_season_rating :
      OperationLogRow → SeasonRatingRoundOutcome → SeasonRatingRoundOutcome
  unfolding read_held_operation_ids after_request post_season_rating settle_safely
  send_season_rating row total =
      let s = after_request w total.state in
      if is_empty (read_held_operation_ids total.state.db.operation_log (row.id ∷ []) claim)
      then total
      else settle_safely row (post_season_rating row s) total s

  unfoldable pub send_season_ratings :
      List OperationLogRow → SeasonRatingRoundOutcome → SeasonRatingRoundOutcome
  unfolding send_season_rating
  send_season_ratings [] total = total
  send_season_ratings (row ∷ rows) total = send_season_ratings rows (send_season_rating row total)

  -- `sendSeasonRatingRound`
  unfoldable pub send_season_rating_round :
      List OperationLogRow → CycleState → SeasonRatingRoundOutcome
  unfolding send_season_ratings
  send_season_rating_round ratings s = send_season_ratings ratings (record {
    confirmed_count = 0;
    pending_count = 0;
    attempted_count = 0;
    rating_delivered = false;
    successors = [];
    state = s;
  })
