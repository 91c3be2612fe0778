-- ===== src/Cycle/Chain/Complete.antt =====
-- Every cycle ends, and holds nothing then (`syncPendingOperations` of `reconcile.helpers.ts`).
use autoreas_mobile.Prelude.{
  ℕ, ◌+◌, ◌≤◌, ◌<◌, ◌≡◌, refl, Bool, true, false, List, inl, inr, arith, Elem,
}
use autoreas_mobile.Database.{Database, OperationLogRow}
use autoreas_mobile.Outbox.Claim.{OutboxClaim, is_held, claim_operation_log_batch}
use autoreas_mobile.Reconcile.Writes.Release.{}
use autoreas_mobile.Cycle.{World, CycleState, IsQuiet, IsTimed}
use autoreas_mobile.Cycle.Held.{IsAccounted, claim_operation_log_batch-IsAccounted}
use autoreas_mobile.Cycle.Chain.{
  outbox_chain_budget_ms, reconcile_backlog_batch_limit, ChainResult, finished, failed, out_of_fuel,
  run_chain, SyncResult, synced_pending, sync_failed, sync_out_of_fuel, sync_result, js_claim,
  claimed_chain, total_backlog_row_count, sync_pending_operations,
}
use autoreas_mobile.Cycle.Chain.Released.{IsChaining, IsChainReleased, run_chain-released}
use autoreas_mobile.Cycle.Ends.Rounds.{IsOver, chain_ends}

-- A cycle is over: it returned or threw, and no row of the outbox is held under the claim.
abbrev pub IsOverAndFree : OutboxClaim → SyncResult → Type 0
IsOverAndFree claim (synced_pending result s) =
    (r : OperationLogRow) → Elem r s.db.operation_log → is_held claim r ≡ false
IsOverAndFree claim (sync_failed error s) =
    (r : OperationLogRow) → Elem r s.db.operation_log → is_held claim r ≡ false
IsOverAndFree claim sync_out_of_fuel = ⊥

module _ (w : World) (fuel now diagnostics : ℕ) (s : CycleState) (quiet : IsQuiet w (js_claim now))
    (fresh : (r : OperationLogRow)
      → Elem r s.db.operation_log
      → is_held (js_claim now) r ≡ false) where
  meanwhile-IsAccounted :
      (n k : ℕ) (rows : List OperationLogRow) (db : Database)
      → IsAccounted (js_claim now) n rows db.operation_log
      → IsAccounted (js_claim now) n rows (w.meanwhile k db).operation_log
  meanwhile-IsAccounted n k rows db (inl named) = inl named
  meanwhile-IsAccounted n k rows db (inr free) = inr (quiet n k db free)

  claimed-IsChaining : (n : ℕ) → IsChaining w n (claimed_chain w now diagnostics s)
  unfolding claimed_chain
  claimed-IsChaining n =
      let batch =
        claim_operation_log_batch (js_claim now) reconcile_backlog_batch_limit s.db.operation_log in
      let claimed =
        claim_operation_log_batch-IsAccounted (js_claim now) n reconcile_backlog_batch_limit
          s.db.operation_log (λ r m same. fresh r m) in
      record {
        accounted =
            meanwhile-IsAccounted n s.issued batch.0 (record s.db { operation_log = batch.1 })
              claimed;
        noted = λ h. h;
      }

  claimed_chain-claim : (claimed_chain w now diagnostics s).context.claim ≡ js_claim now
  unfolding claimed_chain
  claimed_chain-claim = refl

  chain-IsOver :
      IsTimed w (js_claim now)
      → outbox_chain_budget_ms < s.issued + diagnostics + fuel
      → 1 ≤ fuel
      → IsOver (run_chain w fuel (claimed_chain w now diagnostics s))
  unfolding claimed_chain
  chain-IsOver timed enough some_fuel =
      chain_ends w fuel (js_claim now) (claimed_chain w now diagnostics s) timed refl refl some_fuel
        enough

  result-IsOverAndFree :
      (total : ℕ) (result : ChainResult)
      → IsOver result
      → ((n : ℕ) → IsChainReleased w n (js_claim now) result)
      → IsOverAndFree (js_claim now) (sync_result w total result)
  result-IsOverAndFree total (finished c) over released = λ r m. released r.id r m refl
  result-IsOverAndFree total (failed error t) over released = λ r m. released r.id r m refl
  result-IsOverAndFree total (out_of_fuel c) over released = absurd over

  -- A cycle returns or throws, whatever the bridge answers and whichever transactions fail that write
  -- its answers, its rating answers and its fetched tokens, and no row of the outbox is held under its
  -- claim then, where the releases after a failure go through. The fuel is one round more than the
  -- chain budget has milliseconds; nothing holds the claim before, no one else writes under it, and
  -- every request takes a millisecond or more.
  pub nothing_stays_claimed :
      (is_paired : Bool)
      → IsTimed w (js_claim now)
      → outbox_chain_budget_ms < fuel
      → IsOverAndFree (js_claim now) (sync_pending_operations w fuel is_paired now diagnostics s)
  unfolding sync_pending_operations
  nothing_stays_claimed false timed enough = fresh
  nothing_stays_claimed true timed enough =
      let chain = claimed_chain w now diagnostics s in
      result-IsOverAndFree (total_backlog_row_count w now s) (run_chain w fuel chain)
        (chain-IsOver timed (omega (arith, enough)) (omega (arith, enough)))
        (λ n.
          run_chain-released w n fuel (js_claim now) quiet chain claimed_chain-claim
            (claimed-IsChaining n))
