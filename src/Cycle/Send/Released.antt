-- ===== src/Cycle/Send/Released.antt =====
-- A round that is sent lets go of its rows, however it ends (`reconcile-round.helpers.ts`).
use autoreas_mobile.Prelude.{
  ℕ, String, ◌≡◌, ◌⊎◌, true, false, includes, arith, if◌then◌else◌, sym, ◌∙◌, ◌&&◌, List, [], ◌∷◌,
  inl, inr, Option, Bool-cases, length, ltb, leb,
}
use autoreas_mobile.Database.{
  Database, JsonText, OperationLogRow, OperationStatus, RemoteAnimeChange,
}
use autoreas_mobile.Sql.{}
use autoreas_mobile.Outbox.Claim.{OutboxClaim, ids_of}
use autoreas_mobile.Reconcile.Writes.Release.{
  IsReleased, write_held_status-releases, free_operation_stays_free,
}
use autoreas_mobile.Reconcile.Writes.{apply_reconcile_response_writes}
use autoreas_mobile.Reconcile.Round.{
  ReconcileRoundContext, ReconcileRoundOutcome, ReconcileResponse, settle_reconcile_round,
  response_writes, resolve_superseded_operations,
}
use autoreas_mobile.Reconcile.Round.Settled.{answered_batch_is_released}
use autoreas_mobile.Reconcile.Request.{JsonObject, build_reconcile_request_body}
use autoreas_mobile.Cycle.{
  World, CycleState, IsQuiet, after_request, SyncError, RoundResult, returned, threw, http_error,
  transport_error, invalid_response, write_failed, is_message_rejection, ReconcileAnswer,
  unanswered, refused, malformed, answered,
}
use autoreas_mobile.Cycle.Held.{
  IsAccounted, still_held_rows-IsAccounted, named_row, delete_where-IsReleased,
  claim_chain_successors-IsAccounted,
}
use autoreas_mobile.Cycle.MissingTokens.{ResolvedTokens, read_anime_bridge_tokens, still_held_rows}
use autoreas_mobile.Cycle.MissingTokens.Released.{
  after_request-IsReleased, resolve_missing_tokens-IsAccounted, IsAccountedResult, AccountedBy,
  still-named,
}
use autoreas_mobile.Cycle.Send.{
  Isolate, release_held_operations, revert_pending_operations_on_failure, round_failed,
  round_answered, round_written, post_round, send_round_with,
}

-- What a round leaves held: its successors where it returns. Where it throws, nothing but what its
-- caller knows of (`Known`), and nothing at all where the bridge rejected its message.
abbrev pub IsSettledResult : OutboxClaim → ℕ → Type 0 → RoundResult → Type 0
IsSettledResult claim n Known (returned outcome s) =
    IsAccounted claim n outcome.successors s.db.operation_log
IsSettledResult claim n Known (threw error s) =
    (is_message_rejection error ≡ true → IsReleased claim n s.db.operation_log)
    × (Known ⊎ IsReleased claim n s.db.operation_log)

module _ (claim : OutboxClaim) (n : ℕ) where
  superseded-IsReleased :
      (operations log : List OperationLogRow)
      → IsReleased claim n log
      → IsReleased claim n (resolve_superseded_operations operations log)
  unfolding resolve_superseded_operations
  superseded-IsReleased [] log free = free
  superseded-IsReleased (operation ∷ operations) log free =
      superseded-IsReleased operations _ (delete_where-IsReleased claim n _ log free)

  pub release-IsReleased :
      (rows : List OperationLogRow) (status : OperationStatus) (s : CycleState)
      → IsAccounted claim n rows s.db.operation_log
      → IsReleased claim n (release_held_operations rows claim status s).db.operation_log
  unfolding release_held_operations
  release-IsReleased rows status s accounted =
      write_held_status-releases claim n (ids_of rows) status s.db.operation_log accounted

  pub revert-IsReleased :
      (rows : List OperationLogRow) (error : SyncError) (s : CycleState)
      → IsAccounted claim n rows s.db.operation_log
      → IsReleased claim n
          (revert_pending_operations_on_failure rows claim error s).db.operation_log
  unfolding revert_pending_operations_on_failure
  revert-IsReleased rows error s accounted = release-IsReleased rows _ s accounted

-- The transaction of an answered round.
module _ (parse : String → Option JsonObject) (context : ReconcileRoundContext)
    (response : ReconcileResponse) (tokens : String → Option ℕ) (pending_ops : List OperationLogRow)
    (json : JsonText) (changes : List RemoteAnimeChange) (now n : ℕ) (db : Database) where
  abbrev settled : ReconcileRoundOutcome × Database
  settled = settle_reconcile_round parse context response tokens pending_ops json changes now db

  written-IsReleased :
      IsAccounted context.claim n pending_ops db.operation_log
      → IsReleased context.claim n
          (apply_reconcile_response_writes json
            (response_writes parse context response tokens pending_ops changes db.operation_log)
            now
            db).operation_log
  unfolding response_writes
  written-IsReleased (inr free) r m same = free_operation_stays_free _ n json now db free r m same
  written-IsReleased (inl named) r m same =
      let (row, sent, e) = named_row n pending_ops named in
      answered_batch_is_released parse context response tokens pending_ops json changes now db row
        sent r m (same ∙ sym e)

  pub settle_reconcile_round-IsAccounted :
      IsAccounted context.claim n pending_ops db.operation_log
      → IsAccounted context.claim n settled.0.successors settled.1.operation_log
  unfolding settle_reconcile_round
  settle_reconcile_round-IsAccounted accounted =
      let free = superseded-IsReleased context.claim n _ _ (written-IsReleased accounted) in
      elim (Bool-cases (leb context.chain_deadline now)) [
        | inl late ↦ rw late (inr free)
        | inr early ↦ rw early (claim_chain_successors-IsAccounted context.claim n _ _ free)
      ]

-- What a batch that the bridge rejects comes to, where it is isolated.
abbrev pub SettlesRejected : ReconcileRoundContext → ℕ → Type 0 → Isolate → Type 0
SettlesRejected context n Known isolate =
    (rows : List OperationLogRow) (error : SyncError) (s : CycleState)
    → (includes (ids_of rows) n ≡ true → Known)
    → IsAccounted context.claim n rows s.db.operation_log
    → IsSettledResult context.claim n Known (isolate context rows error s)

module _ (w : World) (n : ℕ) (Known : Type 0) (isolate : Isolate)
    (context : ReconcileRoundContext) where
  round_written-settles :
      (s : CycleState) (written : ReconcileRoundOutcome × Database)
      → IsAccounted context.claim n written.0.successors written.1.operation_log
      → IsSettledResult context.claim n Known (round_written w isolate context s written)
  round_written-settles s (outcome, db) accounted = accounted

  module _ (settles : SettlesRejected context n Known isolate) where
    round_failed-settles :
        (rows : List OperationLogRow) (error : SyncError) (s : CycleState)
        → (includes (ids_of rows) n ≡ true → Known)
        → IsAccounted context.claim n rows s.db.operation_log
        → IsSettledResult context.claim n Known (round_failed w isolate context rows error s)
    unfolding round_failed
    round_failed-settles rows error s covers accounted =
        let free = revert-IsReleased context.claim n rows error s accounted in
        elim (Bool-cases (is_message_rejection error && ltb 1 (length rows))) [
          | inl isolated ↦ rw isolated (settles rows error s covers accounted)
          | inr alone ↦ rw alone (λ rejected. free, inr free)
        ]

    round_answered-settles :
        (tokens : String → Option ℕ) (rows : List OperationLogRow) (s : CycleState)
        (answer : ReconcileAnswer)
        → (includes (ids_of rows) n ≡ true → Known)
        → IsAccounted context.claim n rows s.db.operation_log
        → IsSettledResult context.claim n Known
            (round_answered w isolate context tokens rows s answer)
    unfolding round_answered
    round_answered-settles tokens rows s unanswered covers accounted =
        round_failed-settles rows transport_error s covers accounted
    round_answered-settles tokens rows s (refused status) covers accounted =
        round_failed-settles rows (http_error status) s covers accounted
    round_answered-settles tokens rows s malformed covers accounted =
        round_failed-settles rows invalid_response s covers accounted
    round_answered-settles tokens rows s (answered response changes) covers accounted =
        elim (Bool-cases (w.is_write_failed s.issued)) [
          | inl rolled_back ↦
              rw rolled_back (round_failed-settles rows write_failed s covers accounted)
          | inr committed ↦ rw committed (
              round_written-settles s
                (settle_reconcile_round w.parse context response tokens rows w.json changes
                  (w.clock s.issued) s.db)
                (settle_reconcile_round-IsAccounted w.parse context response tokens rows w.json
                  changes (w.clock s.issued) n s.db accounted))
        ]

    module _ (quiet : IsQuiet w context.claim) where
      after_request-IsAccounted :
          (rows : List OperationLogRow) (s : CycleState)
          → IsAccounted context.claim n rows s.db.operation_log
          → IsAccounted context.claim n rows (after_request w s).db.operation_log
      after_request-IsAccounted rows s (inl named) = inl named
      after_request-IsAccounted rows s (inr free) =
          inr (after_request-IsReleased w context.claim n quiet s free)

      -- The fetched tokens could not be written.
      rolled_back-settles :
          (held_ops : List OperationLogRow) (resolved : ResolvedTokens)
          → (includes (ids_of held_ops) n ≡ true → Known)
          → IsAccounted context.claim n held_ops resolved.state.db.operation_log
          → IsSettledResult context.claim n Known (threw write_failed resolved.state)
      unfolding is_message_rejection
      rolled_back-settles held_ops resolved covers (inl named) =
          (λ rejected. absurd (ground (arith, rejected)), inl (covers named))
      rolled_back-settles held_ops resolved covers (inr free) = (λ rejected. free, inr free)

      -- A round from its fetches on, whose rows are `held_ops`.
      post_round-settles :
          (held_ops : List OperationLogRow) (resolved : ResolvedTokens)
          → (includes (ids_of held_ops) n ≡ true → Known)
          → IsAccountedResult w context.claim n quiet held_ops resolved
          → IsSettledResult context.claim n Known (post_round w isolate context resolved)
      unfolding post_round
      post_round-settles held_ops resolved covers accounted =
          elim resolved.is_rolled_back
              as (λ b.
                AccountedBy w context.claim n quiet held_ops resolved b
                → IsSettledResult context.claim n Known (
                    if b
                    then threw write_failed resolved.state
                    else round_answered w isolate context resolved.tokens resolved.pending_ops
                        (after_request w resolved.state)
                        (w.reconcile (after_request w resolved.state).issued (
                          build_reconcile_request_body w.parse w.device_id context.last_changelog_id
                            resolved.pending_ops resolved.tokens)))) [
                              | true ↦ λ held. rolled_back-settles held_ops resolved covers held
                              | false ↦ λ sent.
                                  round_answered-settles resolved.tokens resolved.pending_ops
                                    (after_request w resolved.state)
                                    (w.reconcile (after_request w resolved.state).issued (
                                      build_reconcile_request_body w.parse w.device_id
                                        context.last_changelog_id resolved.pending_ops
                                        resolved.tokens))
                                    (λ named. covers (sent.1 named))
                                    (after_request-IsAccounted resolved.pending_ops resolved.state
                                      sent.0)
                            ]
            accounted

      pub send_round_with-settles :
          (rows : List OperationLogRow) (s : CycleState)
          → (includes (ids_of rows) n ≡ true → Known)
          → IsAccounted context.claim n rows s.db.operation_log
          → IsSettledResult context.claim n Known (send_round_with w isolate context rows s)
      unfolding send_round_with
      send_round_with-settles rows s covers accounted =
          let held_ops = still_held_rows context.claim s.db.operation_log rows in
          post_round-settles held_ops _
            (λ named. covers (still-named w context.claim n quiet rows s.db.operation_log named))
            (resolve_missing_tokens-IsAccounted w context.claim n quiet held_ops
              (read_anime_bridge_tokens s.db.animes) s
              (still_held_rows-IsAccounted context.claim n rows s.db.operation_log accounted))
