-- ===== src/Cycle/MissingTokens/Released.antt =====
-- What the fetches of missing tokens leave held (`missing-token.helpers.ts`).
use autoreas_mobile.Prelude.{
  ℕ, String, ◌≡◌, Bool, true, false, includes, filterb-Elem, List, [], ◌∷◌, is_empty, arith, inl,
  inr, Option, Bool-cases,
}
use autoreas_mobile.Database.{Database, OperationLogRow, pending}
use autoreas_mobile.Outbox.Claim.{OutboxClaim, ids_of, is_held}
use autoreas_mobile.Reconcile.Writes.Release.{
  IsReleased, still-IsReleased, write_held_status-releases,
}
use autoreas_mobile.Cycle.{World, CycleState, IsQuiet, after_request}
use autoreas_mobile.Cycle.Held.{IsAccounted, still_held_rows-IsAccounted, named_row, includes-row}
use autoreas_mobile.Cycle.MissingTokens.{
  MissingTokenOutcome, token_found, unresolved, unreachable, UnresolvedReason, give_up, give_key_up,
  apply_missing_token_outcome, apply_outcomes, rows_of_anime, fetch_all, missing_tokens,
  ResolvedTokens, still_held_rows, resolve_missing_tokens, resolve_fetched,
}

module _ (claim : OutboxClaim) (n : ℕ) where
  pub give_up_is_free :
      (reason : UnresolvedReason) (r : OperationLogRow) → is_held claim (give_up reason r) ≡ false
  unfolding is_held
  give_up_is_free reason r = ground arith

  give_key_up-IsReleased :
      (anime_id : String) (ids : List ℕ) (reason : UnresolvedReason) (log : List OperationLogRow)
      → IsReleased claim n log
      → IsReleased claim n (give_key_up anime_id ids claim reason log)
  unfolding give_key_up
  give_key_up-IsReleased anime_id ids reason log free =
      still-IsReleased claim n _ (give_up_is_free reason) _ _
        (still-IsReleased claim n _ (give_up_is_free reason) _ log free)

  outcome-IsReleased :
      (anime_id : String) (ids : List ℕ) (outcome : MissingTokenOutcome) (db : Database)
      → IsReleased claim n db.operation_log
      → IsReleased claim n (apply_missing_token_outcome anime_id ids claim outcome db).operation_log
  unfolding apply_missing_token_outcome
  outcome-IsReleased anime_id ids (token_found token) db free = free
  outcome-IsReleased anime_id ids unreachable db free =
      write_held_status-releases claim n ids pending db.operation_log (inr free)
  outcome-IsReleased anime_id ids (unresolved reason) db free =
      give_key_up-IsReleased anime_id ids reason db.operation_log free

  pub outcomes-IsReleased :
      (held_ops : List OperationLogRow) (outcomes : List (String × MissingTokenOutcome))
      (db : Database)
      → IsReleased claim n db.operation_log
      → IsReleased claim n (apply_outcomes held_ops claim outcomes db).operation_log
  unfolding apply_outcomes
  outcomes-IsReleased held_ops [] db free = free
  outcomes-IsReleased held_ops ((anime_id, outcome) ∷ outcomes) db free =
      outcomes-IsReleased held_ops outcomes _
        (outcome-IsReleased anime_id (ids_of (rows_of_anime anime_id held_ops)) outcome db free)

module _ (w : World) (claim : OutboxClaim) (n : ℕ) (quiet : IsQuiet w claim) where
  pub after_request-IsReleased :
      (s : CycleState)
      → IsReleased claim n s.db.operation_log
      → IsReleased claim n (after_request w s).db.operation_log
  unfolding after_request
  after_request-IsReleased s free = quiet n _ s.db free

  fetch_all-IsReleased :
      (missing : List String) (s : CycleState)
      → IsReleased claim n s.db.operation_log
      → IsReleased claim n (fetch_all w missing s).1.db.operation_log
  unfolding fetch_all
  fetch_all-IsReleased [] s free = free
  fetch_all-IsReleased (anime_id ∷ missing) s free =
      fetch_all-IsReleased missing (after_request w s) (after_request-IsReleased s free)

  -- What is accounted for once the tokens are resolved: the rows that can be sent, which are among
  -- the round's, or, where nothing is written, the round's.
  abbrev pub AccountedBy : List OperationLogRow → ResolvedTokens → Bool → Type 0
  AccountedBy held_ops resolved true = IsAccounted claim n held_ops resolved.state.db.operation_log
  AccountedBy held_ops resolved false =
      IsAccounted claim n resolved.pending_ops resolved.state.db.operation_log
      × (includes (ids_of resolved.pending_ops) n ≡ true → includes (ids_of held_ops) n ≡ true)

  abbrev pub IsAccountedResult : List OperationLogRow → ResolvedTokens → Type 0
  IsAccountedResult held_ops resolved = AccountedBy held_ops resolved resolved.is_rolled_back

  pub still-named :
      (rows log : List OperationLogRow)
      → includes (ids_of (still_held_rows claim log rows)) n ≡ true
      → includes (ids_of rows) n ≡ true
  unfolding still_held_rows
  still-named rows log named =
      let (r, m, e) = named_row n _ named in includes-row n r rows (filterb-Elem _ r rows m).0 e

  fetched-IsAccounted :
      (held_ops : List OperationLogRow) (tokens : String → Option ℕ) (rolled_back : Bool)
      (fetched : List (String × MissingTokenOutcome) × CycleState)
      → IsAccounted claim n held_ops fetched.1.db.operation_log
      → IsAccountedResult held_ops (resolve_fetched claim held_ops tokens rolled_back fetched)
  fetched-IsAccounted held_ops tokens true (outcomes, s) accounted = accounted
  fetched-IsAccounted held_ops tokens false (outcomes, s) (inl named) =
      (still_held_rows-IsAccounted claim n held_ops _ (inl named), still-named held_ops _)
  fetched-IsAccounted held_ops tokens false (outcomes, s) (inr free) = (
    still_held_rows-IsAccounted claim n held_ops _
        (inr (outcomes-IsReleased claim n held_ops outcomes s.db free)),
    still-named held_ops _,
  )

  fetch_all-IsAccounted :
      (held_ops : List OperationLogRow) (missing : List String) (s : CycleState)
      → IsAccounted claim n held_ops s.db.operation_log
      → IsAccounted claim n held_ops (fetch_all w missing s).1.db.operation_log
  fetch_all-IsAccounted held_ops missing s (inl named) = inl named
  fetch_all-IsAccounted held_ops missing s (inr free) = inr (fetch_all-IsReleased missing s free)

  -- The rows that can be sent are all that the claim still holds of the round's rows.
  pub resolve_missing_tokens-IsAccounted :
      (held_ops : List OperationLogRow) (tokens : String → Option ℕ) (s : CycleState)
      → IsAccounted claim n held_ops s.db.operation_log
      → IsAccountedResult held_ops (resolve_missing_tokens w claim held_ops tokens s)
  unfolding resolve_missing_tokens
  resolve_missing_tokens-IsAccounted held_ops tokens s accounted =
      elim (Bool-cases (is_empty (missing_tokens held_ops tokens))) [
        | inl complete ↦ rw complete (accounted, λ named. named)
        | inr incomplete ↦ rw incomplete (
            fetched-IsAccounted held_ops tokens
              (w.is_token_write_failed (fetch_all w (missing_tokens held_ops tokens) s).1.issued)
              (fetch_all w (missing_tokens held_ops tokens) s)
              (fetch_all-IsAccounted held_ops (missing_tokens held_ops tokens) s accounted))
      ]
