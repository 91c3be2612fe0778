-- ===== src/Cycle/Ends/Rates.antt =====
-- The rows that a rating round passes on are claimed within the budget
-- (`season-rating-round.helpers.ts`).
use autoreas_mobile.Prelude.{
  ℕ, ◌+◌, ◌<◌, ◌≡◌, refl, true, false, List, [], ◌∷◌, is_empty, leb, arith, Bool-cases, inl, inr,
}
use autoreas_mobile.Database.{OperationLogRow}
use autoreas_mobile.Outbox.Claim.{OutboxClaim, read_held_operation_ids}
use autoreas_mobile.Season.{SeasonRatingFate, delivered, given_up, retried}
use autoreas_mobile.Cycle.{World, CycleState, IsTimed, after_request}
use autoreas_mobile.Cycle.Chain.{outbox_chain_budget_ms}
use autoreas_mobile.Cycle.Ratings.{
  SettledRating, settle_fate, settle_season_rating, release_held_rows, SeasonRatingRoundOutcome,
  rating_settled, settle_safely, post_season_rating, send_season_rating, send_season_ratings,
  send_season_rating_round,
}
use autoreas_mobile.Cycle.Ends.{IsEarly, none-IsEarly, append-IsEarly}

module _ (w : World) (claim : OutboxClaim) (chain_deadline : ℕ) (timed : IsTimed w claim)
    (deadline : chain_deadline ≡ claim.claimed_at + outbox_chain_budget_ms) where
  late_fate_claims_none :
      (row : OperationLogRow) (fate : SeasonRatingFate) (now : ℕ) (log : List OperationLogRow)
      → leb chain_deadline now ≡ true
      → (settle_fate w claim chain_deadline row fate now log).0.successors ≡ []
  unfolding settle_fate
  late_fate_claims_none row delivered now log late = rw late refl
  late_fate_claims_none row retried now log late = refl
  late_fate_claims_none row (given_up reason) now log late = refl

  late_rating_claims_none :
      (row : OperationLogRow) (fate : SeasonRatingFate) (now : ℕ) (log : List OperationLogRow)
      → leb chain_deadline now ≡ true
      → (settle_season_rating w claim chain_deadline row fate now log).0.successors ≡ []
  unfolding settle_season_rating
  late_rating_claims_none row fate now log late =
      elim (Bool-cases (is_empty (read_held_operation_ids log (row.id ∷ []) claim))) [
        | inl lost ↦ rw lost refl
        | inr holds ↦ rw holds (late_fate_claims_none row fate now log late)
      ]

  release-issued :
      (ids : List ℕ) (s : CycleState) → (release_held_rows ids claim s).issued ≡ s.issued
  unfolding release_held_rows
  release-issued ids s = refl

  settled-IsEarly :
      (i : ℕ) (fate : SeasonRatingFate) (total : SeasonRatingRoundOutcome) (s : CycleState)
      (settled : SettledRating × List OperationLogRow)
      → s.issued ≡ total.state.issued + 1
      → (is_empty settled.0.successors ≡ false → s.issued < outbox_chain_budget_ms)
      → IsEarly i total.successors total.state
      → IsEarly i
          (rating_settled w claim chain_deadline fate total s settled).successors
          (rating_settled w claim chain_deadline fate total s settled).state
  settled-IsEarly i fate total s (settled, log) next inside early =
      append-IsEarly i total.successors settled.successors total.state
        (rating_settled w claim chain_deadline fate total s (settled, log)).state early
        (record {
          grows = omega (arith, next);
          sent = λ e. omega (arith, next);
          within = λ e. omega (arith, next, inside e);
        })

  settle_safely-IsEarly :
      (i : ℕ) (row : OperationLogRow) (fate : SeasonRatingFate) (total : SeasonRatingRoundOutcome)
      (s : CycleState)
      → s.issued ≡ total.state.issued + 1
      → IsEarly i total.successors total.state
      → IsEarly i
          (settle_safely w claim chain_deadline row fate total s).successors
          (settle_safely w claim chain_deadline row fate total s).state
  unfolding settle_safely
  settle_safely-IsEarly i row fate total s next early =
      elim (Bool-cases (w.is_write_failed s.issued)) [
        | inl rolled_back ↦ rw rolled_back (record {
          grows = omega (arith, next, early.grows, release-issued (row.id ∷ []) s);
          sent = λ e. omega (arith, next, early.grows, release-issued (row.id ∷ []) s);
          within = early.within;
        })
        | inr committed ↦ rw committed (
            settled-IsEarly i fate total s
              (settle_season_rating w claim chain_deadline row fate (w.clock s.issued)
                s.db.operation_log)
              next (λ e. in_time e) early)
      ]
    where
      in_time :
          is_empty
              (settle_season_rating w claim chain_deadline row fate
                (w.clock s.issued)
                s.db.operation_log).0.successors
            ≡ false
          → s.issued < outbox_chain_budget_ms
      in_time e = elim (Bool-cases (leb chain_deadline (w.clock s.issued))) [
        | inr before ↦ ground (arith, timed s.issued, deadline, before)
        | inl late ↦
            let none_claimed =
              late_rating_claims_none row fate (w.clock s.issued) s.db.operation_log late in
            absurd (ground (arith, e, none_claimed))
      ]

  send_season_rating-IsEarly :
      (i : ℕ) (row : OperationLogRow) (total : SeasonRatingRoundOutcome)
      → IsEarly i total.successors total.state
      → IsEarly i
          (send_season_rating w claim chain_deadline row total).successors
          (send_season_rating w claim chain_deadline row total).state
  unfolding send_season_rating after_request
  send_season_rating-IsEarly i row total early =
      elim (Bool-cases
        (is_empty (read_held_operation_ids total.state.db.operation_log (row.id ∷ []) claim))) [
          | inl lost ↦ rw lost early
          | inr holds ↦ rw holds (
              settle_safely-IsEarly i row
                (post_season_rating w claim chain_deadline row (after_request w total.state)) total
                (after_request w total.state) refl early)
        ]

  send_season_ratings-IsEarly :
      (i : ℕ) (rows : List OperationLogRow) (total : SeasonRatingRoundOutcome)
      → IsEarly i total.successors total.state
      → IsEarly i
          (send_season_ratings w claim chain_deadline rows total).successors
          (send_season_ratings w claim chain_deadline rows total).state
  unfolding send_season_ratings
  send_season_ratings-IsEarly i [] total early = early
  send_season_ratings-IsEarly i (row ∷ rows) total early =
      send_season_ratings-IsEarly i rows _ (send_season_rating-IsEarly i row total early)

  pub send_season_rating_round-IsEarly :
      (rows : List OperationLogRow) (s : CycleState)
      → IsEarly s.issued
          (send_season_rating_round w claim chain_deadline rows s).successors
          (send_season_rating_round w claim chain_deadline rows s).state
  unfolding send_season_rating_round
  send_season_rating_round-IsEarly rows s =
      send_season_ratings-IsEarly s.issued rows _ (none-IsEarly s.issued s (omega arith))
