-- ===== src/Cycle/Ends/Sends.antt =====
-- The rows that a reconcile round passes on are claimed within the budget
-- (`reconcile-round.helpers.ts`).
use autoreas_mobile.Prelude.{
  ℕ, ◌+◌, ◌≤◌, ◌<◌, String, ◌≡◌, refl, Bool, true, false, ◌&&◌, Option, List, [], ◌∷◌, is_empty,
  length, ltb, leb, arith, Bool-cases, inl, inr,
}
use autoreas_mobile.Database.{
  Database, JsonText, OperationLogRow, OperationStatus, RemoteAnimeChange,
}
use autoreas_mobile.Outbox.Claim.{OutboxClaim}
use autoreas_mobile.Reconcile.Request.{JsonObject, build_reconcile_request_body}
use autoreas_mobile.Reconcile.Round.{
  ReconcileRoundContext, ReconcileResponse, settle_reconcile_round,
}
use autoreas_mobile.Cycle.{
  World, CycleState, IsTimed, after_request, SyncError, http_error, transport_error,
  invalid_response, write_failed, RoundResult, returned, threw, is_message_rejection,
  ReconcileAnswer, unanswered, refused, malformed, answered,
}
use autoreas_mobile.Cycle.Chain.{outbox_chain_budget_ms}
use autoreas_mobile.Cycle.MissingTokens.{
  ResolvedTokens, read_anime_bridge_tokens, still_held_rows, fetch_all, missing_tokens,
  resolve_fetched, resolve_missing_tokens, MissingTokenOutcome,
}
use autoreas_mobile.Cycle.Send.{
  Isolate, release_held_operations, revert_pending_operations_on_failure, round_failed,
  round_answered, round_written, post_round, send_round_with,
}
use autoreas_mobile.Cycle.Ends.{IsEarly, later-IsEarly}

-- A round that returns passes its rows on early; one that throws has not lost a request.
abbrev pub IsEarlyResult : ℕ → RoundResult → Type 0
IsEarlyResult i (returned outcome s) = IsEarly i outcome.successors s
IsEarlyResult i (threw error s) = i ≤ s.issued

pub later-IsEarlyResult :
    (i j : ℕ) (result : RoundResult) → i ≤ j → IsEarlyResult j result → IsEarlyResult i result
later-IsEarlyResult i j (returned outcome s) le early =
    later-IsEarly i j outcome.successors s le early
later-IsEarlyResult i j (threw error s) le grows = omega (arith, le, grows)

-- After its deadline a round claims no successor.
late_round_claims_none :
    (parse : String → Option JsonObject) (context : ReconcileRoundContext)
    (response : ReconcileResponse) (tokens : String → Option ℕ) (rows : List OperationLogRow)
    (json : JsonText) (changes : List RemoteAnimeChange) (now : ℕ) (db : Database)
    → leb context.chain_deadline now ≡ true
    → (settle_reconcile_round parse context response tokens rows json changes now db).0.successors
      ≡ []
unfolding settle_reconcile_round
late_round_claims_none parse context response tokens rows json changes now db late = rw late refl

fetch_all_grows :
    (w : World) (missing : List String) (s : CycleState)
    → s.issued ≤ (fetch_all w missing s).1.issued
unfolding fetch_all after_request
fetch_all_grows w [] s = omega arith
fetch_all_grows w (anime_id ∷ missing) s =
    omega (arith, fetch_all_grows w missing (after_request w s))

fetched_grows :
    (claim : OutboxClaim) (rows : List OperationLogRow) (tokens : String → Option ℕ)
    (rolled_back : Bool) (fetched : List (String × MissingTokenOutcome) × CycleState)
    → (resolve_fetched claim rows tokens rolled_back fetched).state.issued ≡ fetched.1.issued
fetched_grows claim rows tokens true (outcomes, s) = refl
fetched_grows claim rows tokens false (outcomes, s) = refl

resolve_missing_tokens_grows :
    (w : World) (claim : OutboxClaim) (rows : List OperationLogRow) (tokens : String → Option ℕ)
    (s : CycleState)
    → s.issued ≤ (resolve_missing_tokens w claim rows tokens s).state.issued
unfolding resolve_missing_tokens
resolve_missing_tokens_grows w claim rows tokens s =
    elim (Bool-cases (is_empty (missing_tokens rows tokens))) [
      | inl complete ↦ rw complete (omega arith)
      | inr incomplete ↦ rw incomplete (
          omega (
            arith,
            fetch_all_grows w (missing_tokens rows tokens) s,
            fetched_grows claim rows tokens
                (w.is_token_write_failed (fetch_all w (missing_tokens rows tokens) s).1.issued)
                (fetch_all w (missing_tokens rows tokens) s),
          ))
    ]

-- What a rejected batch comes to, where it is isolated.
abbrev pub IsEarlyIsolation : ReconcileRoundContext → Isolate → Type 0
IsEarlyIsolation context isolate =
    (rows : List OperationLogRow) (error : SyncError) (s : CycleState)
    → IsEarlyResult s.issued (isolate context rows error s)

pub release-issued :
    (rows : List OperationLogRow) (claim : OutboxClaim) (status : OperationStatus) (s : CycleState)
    → (release_held_operations rows claim status s).issued ≡ s.issued
unfolding release_held_operations
release-issued rows claim status s = refl

pub revert-issued :
    (rows : List OperationLogRow) (claim : OutboxClaim) (error : SyncError) (s : CycleState)
    → (revert_pending_operations_on_failure rows claim error s).issued ≡ s.issued
unfolding revert_pending_operations_on_failure
revert-issued rows claim error s = refl

module _ (w : World) (isolate : Isolate) (context : ReconcileRoundContext)
    (timed : IsTimed w context.claim)
    (deadline : context.chain_deadline ≡ context.claim.claimed_at + outbox_chain_budget_ms)
    (isolates : IsEarlyIsolation context isolate) where
  early_clock :
      (k : ℕ) → leb context.chain_deadline (w.clock k) ≡ false → k < outbox_chain_budget_ms
  early_clock k early = ground (arith, timed k, deadline, early)

  round_failed-IsEarly :
      (rows : List OperationLogRow) (error : SyncError) (s : CycleState)
      → IsEarlyResult s.issued (round_failed w isolate context rows error s)
  unfolding round_failed
  round_failed-IsEarly rows error s =
      elim (Bool-cases (is_message_rejection error && ltb 1 (length rows))) [
        | inl isolated ↦ rw isolated (isolates rows error s)
        | inr alone ↦ rw alone (omega (arith, revert-issued rows context.claim error s))
      ]

  -- The transaction of the request that brought the count to `i + 1`.
  written-IsEarly :
      (i : ℕ) (s : CycleState) (response : ReconcileResponse) (tokens : String → Option ℕ)
      (rows : List OperationLogRow) (changes : List RemoteAnimeChange)
      → s.issued ≡ i + 1
      → IsEarlyResult i (
          round_written w isolate context s (
            settle_reconcile_round w.parse context response tokens rows w.json changes
              (w.clock s.issued)
              s.db))
  written-IsEarly i s response tokens rows changes next =
      let settled =
        settle_reconcile_round w.parse context response tokens rows w.json changes
          (w.clock s.issued) s.db in
      elim (Bool-cases (leb context.chain_deadline (w.clock s.issued))) [
        | inl late ↦
            let none_claimed : settled.0.successors ≡ [] =
              late_round_claims_none w.parse context response tokens rows w.json changes
                (w.clock s.issued) s.db late in
            record {
              grows = omega (arith, next);
              sent = λ e. omega (arith, next);
              within = λ e. absurd (ground (arith, e, none_claimed));
            }
        | inr early ↦ record {
          grows = omega (arith, next);
          sent = λ e. omega (arith, next);
          within = λ e. omega (arith, next, early_clock s.issued early);
        }
      ]

  round_answered-IsEarly :
      (i : ℕ) (tokens : String → Option ℕ) (rows : List OperationLogRow) (s : CycleState)
      (answer : ReconcileAnswer)
      → s.issued ≡ i + 1
      → IsEarlyResult i (round_answered w isolate context tokens rows s answer)
  unfolding round_answered
  round_answered-IsEarly i tokens rows s unanswered next =
      later-IsEarlyResult i s.issued (round_failed w isolate context rows transport_error s)
        (omega (arith, next)) (round_failed-IsEarly rows transport_error s)
  round_answered-IsEarly i tokens rows s (refused status) next =
      later-IsEarlyResult i s.issued (round_failed w isolate context rows (http_error status) s)
        (omega (arith, next)) (round_failed-IsEarly rows (http_error status) s)
  round_answered-IsEarly i tokens rows s malformed next =
      later-IsEarlyResult i s.issued (round_failed w isolate context rows invalid_response s)
        (omega (arith, next)) (round_failed-IsEarly rows invalid_response s)
  round_answered-IsEarly i tokens rows s (answered response changes) next =
      elim (Bool-cases (w.is_write_failed s.issued)) [
        | inl rolled_back ↦ rw rolled_back (
            later-IsEarlyResult i s.issued (round_failed w isolate context rows write_failed s)
              (omega (arith, next)) (round_failed-IsEarly rows write_failed s))
        | inr committed ↦ rw committed (written-IsEarly i s response tokens rows changes next)
      ]

  post_round-IsEarly :
      (resolved : ResolvedTokens)
      → IsEarlyResult resolved.state.issued (post_round w isolate context resolved)
  unfolding post_round after_request
  post_round-IsEarly resolved = elim (Bool-cases resolved.is_rolled_back) [
    | inl rolled_back ↦ rw rolled_back (omega arith)
    | inr committed ↦ rw committed (
        round_answered-IsEarly resolved.state.issued resolved.tokens resolved.pending_ops
          (after_request w resolved.state)
          (w.reconcile (after_request w resolved.state).issued (
            build_reconcile_request_body w.parse w.device_id context.last_changelog_id
              resolved.pending_ops resolved.tokens))
          refl)
  ]

  pub send_round_with-IsEarly :
      (rows : List OperationLogRow) (s : CycleState)
      → IsEarlyResult s.issued (send_round_with w isolate context rows s)
  unfolding send_round_with
  send_round_with-IsEarly rows s =
      let resolved =
        resolve_missing_tokens w context.claim
          (still_held_rows context.claim s.db.operation_log rows)
          (read_anime_bridge_tokens s.db.animes) s in
      later-IsEarlyResult s.issued resolved.state.issued (post_round w isolate context resolved)
        (resolve_missing_tokens_grows w context.claim
          (still_held_rows context.claim s.db.operation_log rows)
          (read_anime_bridge_tokens s.db.animes) s)
        (post_round-IsEarly resolved)
