-- ===== src/Cycle/Ratings/Released.antt =====
-- A rating round lets go of its ratings (`season-rating-round.helpers.ts`).
use autoreas_mobile.Prelude.{
  ℕ, String, ◌≡◌, ◌⊎◌, Option, true, false, List, [], ◌∷◌, ◌++◌, is_empty, includes, leb, arith,
  inl, inr, Bool-cases,
}
use autoreas_mobile.Database.{OperationLogRow, pending, synced}
use autoreas_mobile.Outbox.Claim.{OutboxClaim, ids_of, is_held, read_held_operation_ids}
use autoreas_mobile.Reconcile.Writes.Release.{
  IsReleased, release, still-IsReleased, write_held_status-releases,
}
use autoreas_mobile.Reconcile.Round.Settled.{unheld-IsReleased}
use autoreas_mobile.Reconcile.Request.{JsonObject}
use autoreas_mobile.Season.{
  SeasonRatingFate, delivered, given_up, retried, SeasonRatingFailureKind,
  resolve_superseded_ratings,
}
use autoreas_mobile.Cycle.{World, CycleState, IsQuiet, after_request}
use autoreas_mobile.Cycle.Held.{
  IsAccounted, append_nil-IsAccounted, includes-append, unheld_row-IsReleased,
  delete_where-IsReleased, claim_chain_successors-IsAccounted,
}
use autoreas_mobile.Cycle.MissingTokens.Released.{after_request-IsReleased}
use autoreas_mobile.Cycle.Ratings.{
  SettledRating, give_rating_up, confirmed_with, settle_fate, settle_season_rating,
  release_held_rows, SeasonRatingRoundOutcome, rating_settled, rating_unwritten, settle_safely,
  post_season_rating, send_season_rating, send_season_ratings, send_season_rating_round,
}

module _ (claim : OutboxClaim) (n : ℕ) where
  give_rating_up_is_free :
      (reason : SeasonRatingFailureKind) (r : OperationLogRow)
      → is_held claim (give_rating_up reason r) ≡ false
  unfolding is_held
  give_rating_up_is_free reason r = ground arith

  superseded-IsReleased :
      (parse : String → Option JsonObject) (row : OperationLogRow) (log : List OperationLogRow)
      → IsReleased claim n log
      → IsReleased claim n (resolve_superseded_ratings parse row log)
  unfolding resolve_superseded_ratings
  superseded-IsReleased parse row log free = delete_where-IsReleased claim n _ log free

  -- `releaseHeldRows` lets go of every row that it is given.
  pub release_held_rows-IsReleased :
      (ids : List ℕ) (s : CycleState)
      → (includes ids n ≡ true) ⊎ IsReleased claim n s.db.operation_log
      → IsReleased claim n (release_held_rows ids claim s).db.operation_log
  unfolding release_held_rows
  release_held_rows-IsReleased ids s (inr free) =
      write_held_status-releases claim n _ pending s.db.operation_log (inr free)
  release_held_rows-IsReleased ids s (inl named) =
      let held = read_held_operation_ids s.db.operation_log ids claim in
      elim (Bool-cases (includes held n)) [
        | inl reads ↦ write_held_status-releases claim n held pending s.db.operation_log (inl reads)
        | inr unheld ↦
            write_held_status-releases claim n held pending s.db.operation_log
              (inr (unheld-IsReleased claim ids n s.db.operation_log named unheld))
      ]

  confirmed_with-IsAccounted :
      (chained : List OperationLogRow × List OperationLogRow)
      → IsAccounted claim n chained.0 chained.1
      → IsAccounted claim n (confirmed_with chained).0.successors (confirmed_with chained).1
  confirmed_with-IsAccounted (successors, log) accounted = accounted

  module _ (w : World) (chain_deadline : ℕ) (row : OperationLogRow) where
    settle_fate-IsAccounted :
        (fate : SeasonRatingFate) (now : ℕ) (log : List OperationLogRow)
        → IsAccounted claim n (row ∷ []) log
        → IsAccounted claim n
            (settle_fate w claim chain_deadline row fate now log).0.successors
            (settle_fate w claim chain_deadline row fate now log).1
    unfolding settle_fate
    settle_fate-IsAccounted (given_up reason) now log (inl named) =
        inr (release claim n _ (give_rating_up_is_free reason) (row.id ∷ []) log named)
    settle_fate-IsAccounted (given_up reason) now log (inr free) =
        inr (still-IsReleased claim n _ (give_rating_up_is_free reason) _ log free)
    settle_fate-IsAccounted retried now log accounted =
        inr (write_held_status-releases claim n (row.id ∷ []) pending log accounted)
    settle_fate-IsAccounted delivered now log accounted =
        let free =
          superseded-IsReleased w.parse row _
            (write_held_status-releases claim n (row.id ∷ []) synced log accounted) in
        elim (Bool-cases (leb chain_deadline now)) [
          | inl late ↦ rw late (inr free)
          | inr early ↦ rw early (
              confirmed_with-IsAccounted _
                (claim_chain_successors-IsAccounted claim n (row.anime_id ∷ []) _ free))
        ]

    settle_season_rating-IsAccounted :
        (fate : SeasonRatingFate) (now : ℕ) (log : List OperationLogRow)
        → IsAccounted claim n (row ∷ []) log
        → IsAccounted claim n
            (settle_season_rating w claim chain_deadline row fate now log).0.successors
            (settle_season_rating w claim chain_deadline row fate now log).1
    unfolding settle_season_rating
    settle_season_rating-IsAccounted fate now log accounted =
        elim (Bool-cases (is_empty (read_held_operation_ids log (row.id ∷ []) claim))) [
          | inl lost ↦ rw lost (inr (unheld_row-IsReleased claim n row log lost accounted))
          | inr holds ↦ rw holds (settle_fate-IsAccounted fate now log accounted)
        ]

module _ (w : World) (claim : OutboxClaim) (chain_deadline n : ℕ) (quiet : IsQuiet w claim) where
  -- The state of a rating round, where the ratings of `rest` are not sent yet.
  abbrev IsRating : List OperationLogRow → SeasonRatingRoundOutcome → Type 0
  IsRating rest total = IsAccounted claim n (rest ++ total.successors) total.state.db.operation_log

  module _ (rest : List OperationLogRow) (total : SeasonRatingRoundOutcome) where
    -- What one rating leaves: its successors follow those of the ratings before it.
    rating_settled-keeps :
        (fate : SeasonRatingFate) (s : CycleState) (settled : SettledRating × List OperationLogRow)
        → (includes (ids_of (rest ++ total.successors)) n ≡ true)
          ⊎ IsAccounted claim n settled.0.successors settled.1
        → IsRating rest (rating_settled w claim chain_deadline fate total s settled)
    rating_settled-keeps fate s (settled, log) (inl named) = inl (
        ground (
          arith,
          includes-append n rest total.successors,
          includes-append n rest (total.successors ++ settled.successors),
          includes-append n total.successors settled.successors,
          named,
        ))
    rating_settled-keeps fate s (settled, log) (inr (inl named)) = inl (
        ground (
          arith,
          includes-append n rest (total.successors ++ settled.successors),
          includes-append n total.successors settled.successors,
          named,
        ))
    rating_settled-keeps fate s (settled, log) (inr (inr free)) = inr free

    rating-IsAccounted :
        (row : OperationLogRow) (s : CycleState)
        → IsAccounted claim n (row ∷ rest ++ total.successors) s.db.operation_log
        → (includes (ids_of (rest ++ total.successors)) n ≡ true)
          ⊎ IsAccounted claim n (row ∷ []) s.db.operation_log
    rating-IsAccounted row s (inr free) = inr (inr free)
    rating-IsAccounted row s (inl named) =
        elim (Bool-cases (includes (ids_of (rest ++ total.successors)) n)) [
          | inl later ↦ inl later
          | inr unnamed ↦ inr (inl (ground (arith, named, unnamed)))
        ]

    settled_safely :
        (row : OperationLogRow) (fate : SeasonRatingFate) (s : CycleState)
        → (includes (ids_of (rest ++ total.successors)) n ≡ true)
          ⊎ IsAccounted claim n (row ∷ []) s.db.operation_log
        → (includes (ids_of (rest ++ total.successors)) n ≡ true)
          ⊎ IsAccounted claim n
              (settle_season_rating w claim chain_deadline row fate
                (w.clock s.issued)
                s.db.operation_log).0.successors
              (settle_season_rating w claim chain_deadline row fate
                (w.clock s.issued)
                s.db.operation_log).1
    settled_safely row fate s (inl named) = inl named
    settled_safely row fate s (inr accounted) = inr (
        settle_season_rating-IsAccounted claim n w chain_deadline row fate (w.clock s.issued)
          s.db.operation_log accounted)

    unwritten-keeps :
        (row : OperationLogRow) (fate : SeasonRatingFate) (s : CycleState)
        → (includes (ids_of (rest ++ total.successors)) n ≡ true)
          ⊎ IsAccounted claim n (row ∷ []) s.db.operation_log
        → IsRating rest (rating_unwritten w claim chain_deadline row fate total s)
    unwritten-keeps row fate s (inl named) = inl named
    unwritten-keeps row fate s (inr accounted) =
        inr (release_held_rows-IsReleased claim n (row.id ∷ []) s accounted)

    settle_safely-keeps :
        (row : OperationLogRow) (fate : SeasonRatingFate) (s : CycleState)
        → (includes (ids_of (rest ++ total.successors)) n ≡ true)
          ⊎ IsAccounted claim n (row ∷ []) s.db.operation_log
        → IsRating rest (settle_safely w claim chain_deadline row fate total s)
    unfolding settle_safely
    settle_safely-keeps row fate s accounted = elim (Bool-cases (w.is_write_failed s.issued)) [
      | inl rolled_back ↦ rw rolled_back (unwritten-keeps row fate s accounted)
      | inr committed ↦ rw committed (
          rating_settled-keeps fate s
            (settle_season_rating w claim chain_deadline row fate (w.clock s.issued)
              s.db.operation_log)
            (settled_safely row fate s accounted))
    ]

    during_request :
        (row : OperationLogRow)
        → (includes (ids_of (rest ++ total.successors)) n ≡ true)
          ⊎ IsAccounted claim n (row ∷ []) total.state.db.operation_log
        → (includes (ids_of (rest ++ total.successors)) n ≡ true)
          ⊎ IsAccounted claim n (row ∷ []) (after_request w total.state).db.operation_log
    during_request row (inl later) = inl later
    during_request row (inr (inl named)) = inr (inl named)
    during_request row (inr (inr free)) =
        inr (inr (after_request-IsReleased w claim n quiet total.state free))

    skipped-keeps :
        (row : OperationLogRow)
        → is_empty (read_held_operation_ids total.state.db.operation_log (row.id ∷ []) claim) ≡ true
        → (includes (ids_of (rest ++ total.successors)) n ≡ true)
          ⊎ IsAccounted claim n (row ∷ []) total.state.db.operation_log
        → IsRating rest total
    skipped-keeps row lost (inl later) = inl later
    skipped-keeps row lost (inr accounted) =
        inr (unheld_row-IsReleased claim n row total.state.db.operation_log lost accounted)

    send_season_rating-keeps :
        (row : OperationLogRow)
        → IsRating (row ∷ rest) total
        → IsRating rest (send_season_rating w claim chain_deadline row total)
    unfolding send_season_rating
    send_season_rating-keeps row accounted =
        let s = after_request w total.state in
        let split = rating-IsAccounted row total.state accounted in
        elim (Bool-cases
          (is_empty (read_held_operation_ids total.state.db.operation_log (row.id ∷ []) claim))) [
            | inl lost ↦ rw lost (skipped-keeps row lost split)
            | inr holds ↦ rw holds (
                settle_safely-keeps row (post_season_rating w claim chain_deadline row s) s
                  (during_request row split))
          ]

  send_season_ratings-keeps :
      (rows : List OperationLogRow) (total : SeasonRatingRoundOutcome)
      → IsRating rows total
      → IsRating [] (send_season_ratings w claim chain_deadline rows total)
  unfolding send_season_ratings
  send_season_ratings-keeps [] total inv = inv
  send_season_ratings-keeps (row ∷ rows) total inv =
      send_season_ratings-keeps rows _ (send_season_rating-keeps rows total row inv)

  pub send_season_rating_round-IsAccounted :
      (rows : List OperationLogRow) (s : CycleState)
      → IsAccounted claim n rows s.db.operation_log
      → IsAccounted claim n
          (send_season_rating_round w claim chain_deadline rows s).successors
          (send_season_rating_round w claim chain_deadline rows s).state.db.operation_log
  unfolding send_season_rating_round
  send_season_rating_round-IsAccounted rows s accounted =
      send_season_ratings-keeps rows _ (append_nil-IsAccounted claim n rows _ accounted)
