-- ===== src/Cycle/Chain/Released.antt =====
-- Nothing is left claimed by a cycle that is over (`reconcile.helpers.ts`).
use autoreas_mobile.Prelude.{
  ℕ, zero, suc, ◌≡◌, ◌⊎◌, refl, Bool, true, false, not, List, [], ◌∷◌, ◌++◌, is_empty, includes,
  arith, inl, inr, Bool-cases, filterb-Elem, Elem-filterb,
}
use autoreas_mobile.Database.{OperationLogRow}
use autoreas_mobile.Outbox.Claim.{OutboxClaim, ids_of}
use autoreas_mobile.Reconcile.Writes.Release.{IsReleased}
use autoreas_mobile.Reconcile.Round.{ReconcileRoundContext}
use autoreas_mobile.Cycle.{World, CycleState, IsQuiet, RoundResult, returned, threw}
use autoreas_mobile.Cycle.Held.{IsAccounted, includes-append, named_row, includes-row}
use autoreas_mobile.Cycle.Send.{}
use autoreas_mobile.Cycle.Send.Released.{IsSettledResult}
use autoreas_mobile.Cycle.Send.Isolated.{send_reconcile_round-settles}
use autoreas_mobile.Cycle.Ratings.{send_season_rating_round}
use autoreas_mobile.Cycle.Ratings.Released.{
  release_held_rows-IsReleased, send_season_rating_round-IsAccounted,
}
use autoreas_mobile.Cycle.Chain.{
  SplitResult, split_returned, split_threw, ratings_of, edits_of, is_rating, rate_split, send_edits,
  send_split_round, ChainState, after_round, ChainResult, finished, failed, out_of_fuel, chain_next,
  run_chain,
}

-- The rows of a round are its ratings and its edits.
split-IsAccounted :
    (claim : OutboxClaim) (n : ℕ) (round log : List OperationLogRow)
    → IsAccounted claim n round log
    → (includes (ids_of (ratings_of round)) n ≡ true) ⊎ IsAccounted claim n (edits_of round) log
split-IsAccounted claim n round log (inr free) = inr (inr free)
split-IsAccounted claim n round log (inl named) =
    let (r, m, e) = named_row n round named in
    elim (Bool-cases (is_rating r)) [
      | inl rating ↦ inl (includes-row n r _ (Elem-filterb is_rating r round m rating) e)
      | inr edit ↦ inr (
          inl (
            includes-row n r _
              (Elem-filterb (λ row. not (is_rating row)) r round m (ground (arith, edit))) e))
    ]

-- What a split round leaves held: its successors, or, where it throws, no more than its rows.
abbrev IsSplitSettled : ReconcileRoundContext → ℕ → List OperationLogRow → SplitResult → Type 0
IsSplitSettled context n round (split_returned outcome s) =
    IsAccounted context.claim n outcome.round.successors s.db.operation_log
IsSplitSettled context n round (split_threw error s) =
    (includes (ids_of round) n ≡ true) ⊎ IsReleased context.claim n s.db.operation_log

module _ (w : World) (n : ℕ) where
  module _ (context : ReconcileRoundContext) (quiet : IsQuiet w context.claim) where
    send_edits-settles :
        (edits : List OperationLogRow) (first_round : Bool) (s : CycleState)
        → IsAccounted context.claim n edits s.db.operation_log
        → IsSettledResult context.claim n
            (includes (ids_of edits) n ≡ true)
            (send_edits w context edits first_round s)
    unfolding send_edits
    send_edits-settles [] false s accounted = accounted
    send_edits-settles [] true s accounted =
        send_reconcile_round-settles w context n _ quiet [] s (λ named. named) accounted
    send_edits-settles (edit ∷ edits) false s accounted =
        send_reconcile_round-settles w context n _ quiet (edit ∷ edits) s (λ named. named) accounted
    send_edits-settles (edit ∷ edits) true s accounted =
        send_reconcile_round-settles w context n _ quiet (edit ∷ edits) s (λ named. named) accounted

    rating-includes :
        (round : List OperationLogRow)
        → includes (ids_of (ratings_of round)) n ≡ true
        → includes (ids_of round) n ≡ true
    rating-includes round named =
        let (r, m, e) = named_row n (ratings_of round) named in
        includes-row n r round (filterb-Elem is_rating r round m).0 e

    edit-includes :
        (round : List OperationLogRow)
        → includes (ids_of (edits_of round)) n ≡ true
        → includes (ids_of round) n ≡ true
    edit-includes round named =
        let (r, m, e) = named_row n (edits_of round) named in
        includes-row n r round (filterb-Elem (λ row. not (is_rating row)) r round m).0 e

    joined-IsAccounted :
        (applied rated log : List OperationLogRow)
        → IsAccounted context.claim n rated log
        → IsAccounted context.claim n (applied ++ rated) log
    joined-IsAccounted applied rated log (inl named) =
        inl (ground (arith, includes-append n applied rated, named))
    joined-IsAccounted applied rated log (inr free) = inr free

    rate_split-settles :
        (round : List OperationLogRow) (result : RoundResult)
        → (includes (ids_of (ratings_of round)) n ≡ true)
          ⊎ IsSettledResult context.claim n (includes (ids_of (edits_of round)) n ≡ true) result
        → IsSplitSettled context n round (rate_split w context (ratings_of round) result)
    rate_split-settles round (threw error s) (inl named) = inl (rating-includes round named)
    rate_split-settles round (threw error s) (inr (rejected, inl named)) =
        inl (edit-includes round named)
    rate_split-settles round (threw error s) (inr (rejected, inr free)) = inr free
    rate_split-settles round (returned applied s) (inl named) =
        joined-IsAccounted applied.successors _ _ (
          send_season_rating_round-IsAccounted w context.claim context.chain_deadline n quiet
            (ratings_of round) s (inl named))
    rate_split-settles round (returned applied s) (inr (inl named)) = inl (
        ground (
          arith,
          includes-append n applied.successors
              (send_season_rating_round w context.claim context.chain_deadline (ratings_of round)
                s).successors,
          named,
        ))
    rate_split-settles round (returned applied s) (inr (inr free)) =
        joined-IsAccounted applied.successors _ _ (
          send_season_rating_round-IsAccounted w context.claim context.chain_deadline n quiet
            (ratings_of round) s (inr free))

    edits-IsSettled :
        (round : List OperationLogRow) (first_round : Bool) (s : CycleState)
        → (includes (ids_of (ratings_of round)) n ≡ true)
          ⊎ IsAccounted context.claim n (edits_of round) s.db.operation_log
        → (includes (ids_of (ratings_of round)) n ≡ true)
          ⊎ IsSettledResult context.claim n
              (includes (ids_of (edits_of round)) n ≡ true)
              (send_edits w context (edits_of round) first_round s)
    edits-IsSettled round first_round s (inl named) = inl named
    edits-IsSettled round first_round s (inr accounted) =
        inr (send_edits-settles (edits_of round) first_round s accounted)

    send_split_round-settles :
        (round : List OperationLogRow) (first_round : Bool) (s : CycleState)
        → IsAccounted context.claim n round s.db.operation_log
        → IsSplitSettled context n round (send_split_round w context round first_round s)
    unfolding send_split_round
    send_split_round-settles round first_round s accounted =
        rate_split-settles round (send_edits w context (edits_of round) first_round s) (
          edits-IsSettled round first_round s
            (split-IsAccounted context.claim n round s.db.operation_log accounted))

  -- Nothing is held once the chain ends.
  abbrev pub IsChainReleased : OutboxClaim → ChainResult → Type 0
  IsChainReleased claim (finished c) = IsReleased claim n c.state.db.operation_log
  IsChainReleased claim (failed error s) = IsReleased claim n s.db.operation_log
  IsChainReleased claim (out_of_fuel c) = Unit

  includes-right : (xs ys : List ℕ) → includes ys n ≡ true → includes (xs ++ ys) n ≡ true
  includes-right [] ys h = h
  includes-right (x ∷ xs) ys h = ground (arith, includes-right xs ys h)

  -- The state of the chain: its claim holds no more than its round, all of it noted.
  pub record IsChaining (c : ChainState) : Type 0 where
    pub accounted : IsAccounted c.context.claim n c.round c.state.db.operation_log
    pub noted : includes (ids_of c.round) n ≡ true → includes c.claimed_ids n ≡ true

  none_left :
      (claim : OutboxClaim) (rows log : List OperationLogRow)
      → is_empty rows ≡ true
      → IsAccounted claim n rows log
      → IsReleased claim n log
  none_left claim rows log empty (inr free) = free
  none_left claim [] log empty (inl named) = absurd (ground (arith, named))
  none_left claim (row ∷ rows) log empty (inl named) = absurd (ground (arith, empty))

  chain_next-released :
      (continue : ChainState → ChainResult) (c : ChainState) (result : SplitResult)
      → IsChaining c
      → IsSplitSettled c.context n c.round result
      → ((next : ChainState)
          → next.context.claim ≡ c.context.claim
          → IsChaining next
          → IsChainReleased c.context.claim (continue next))
      → IsChainReleased c.context.claim (chain_next w continue c result)
  chain_next-released continue c (split_threw error s) inv (inl named) continues =
      release_held_rows-IsReleased c.context.claim n c.claimed_ids s (inl (inv.noted named))
  chain_next-released continue c (split_threw error s) inv (inr free) continues =
      release_held_rows-IsReleased c.context.claim n c.claimed_ids s (inr free)
  chain_next-released continue c (split_returned outcome s) inv accounted continues =
      elim (Bool-cases (is_empty outcome.round.successors)) [
        | inl over ↦ rw over (none_left c.context.claim outcome.round.successors _ over accounted)
        | inr more ↦ rw more (
            continues (after_round w c outcome s) refl (record {
              accounted = accounted;
              noted = λ named. includes-right c.claimed_ids _ named;
            }))
      ]

  pub run_chain-released :
      (fuel : ℕ) (claim : OutboxClaim) (quiet : IsQuiet w claim) (c : ChainState)
      → c.context.claim ≡ claim
      → IsChaining c
      → IsChainReleased claim (run_chain w fuel c)
  unfolding run_chain
  run_chain-released zero claim quiet c same inv = tt
  run_chain-released (suc fuel) claim quiet c same inv =
      let quiet' : IsQuiet w c.context.claim = rw same quiet in
      let released =
        chain_next-released (run_chain w fuel) c
          (send_split_round w c.context c.round c.first_round c.state) inv
          (send_split_round-settles c.context quiet' c.round c.first_round c.state inv.accounted)
          (λ next kept inv'. run_chain-released fuel c.context.claim quiet' next kept inv') in
      rw (← same) released
