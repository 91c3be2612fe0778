-- ===== src/Cycle/Held.antt =====
-- What a claim still holds: for each id, either a given list of rows names it, or no row with it is
-- held. The writes of a cycle keep this, each with the rows that it passes on.
use autoreas_mobile.Prelude.{
  ℕ, String, ◌≡◌, ◌⊎◌, refl, ap, sym, ◌∙◌, Bool, true, false, List, [], ◌∷◌, ◌++◌, includes, arith,
  Elem, nat_eq, inl, inr, Bool-cases, filterb, filterb-Elem, Elem-filterb, Elem-map, Elem-any,
  map-Elem, any-Elem, ◌&&◌, ◌||◌, nat_eq_refl, is_empty,
}
use autoreas_mobile.Sql.{update_where, update_where-Elem, delete_where}
use autoreas_mobile.Database.{OperationLogRow}
use autoreas_mobile.Outbox.Claim.{
  OutboxClaim, ids_of, is_held, is_claimable, claim_candidates, claim_operation_log_batch,
  read_held_operation_ids, claim_chain_successors, won_rows, under_claim, as_processing,
  successor_candidates, is_free_successor,
}
use autoreas_mobile.Reconcile.Writes.Release.{IsReleased}
use autoreas_mobile.Reconcile.Round.Settled.{unheld-IsReleased, held-Elem, includes-id}
use autoreas_mobile.Cycle.MissingTokens.{still_held_rows}

-- The rows name the id, or no row with it is held.
abbrev pub IsAccounted : OutboxClaim → ℕ → List OperationLogRow → List OperationLogRow → Type 0
IsAccounted claim n rows log = (includes (ids_of rows) n ≡ true) ⊎ IsReleased claim n log

pub includes-append :
    (n : ℕ) (xs ys : List OperationLogRow)
    → includes (ids_of (xs ++ ys)) n ≡ (includes (ids_of xs) n || includes (ids_of ys) n)
includes-append n [] ys = refl
includes-append n (x ∷ xs) ys = ground (arith, includes-append n xs ys)

-- A row with an id that the list names.
pub named_row :
    (n : ℕ) (rows : List OperationLogRow)
    → includes (ids_of rows) n ≡ true
    → (r : OperationLogRow) × Elem r rows × (r.id ≡ n)
named_row n rows h =
    let (id, m, hit) = any-Elem (λ x. nat_eq x n) (ids_of rows) h in
    let (r, k, e) = map-Elem (λ (row : OperationLogRow). row.id) id rows m in
    (r, k, ground (arith, e, hit))

pub includes-row :
    (n : ℕ) (r : OperationLogRow) (rows : List OperationLogRow)
    → Elem r rows
    → r.id ≡ n
    → includes (ids_of rows) n ≡ true
includes-row n r rows m e = ap (includes (ids_of rows)) (sym e) ∙ includes-id r rows m

module _ (claim : OutboxClaim) (n : ℕ) where
  pub filterb-IsReleased :
      (p : OperationLogRow → Bool) (log : List OperationLogRow)
      → IsReleased claim n log
      → IsReleased claim n (filterb p log)
  filterb-IsReleased p log free r m same = free r (filterb-Elem p r log m).0 same

  pub delete_where-IsReleased :
      (p : OperationLogRow → Bool) (log : List OperationLogRow)
      → IsReleased claim n log
      → IsReleased claim n (delete_where p log)
  unfolding delete_where
  delete_where-IsReleased p log free = filterb-IsReleased _ log free

  -- A row that the update of the successors claims, and that is held then, is one of those that it
  -- returns.
  claimed-includes :
      (candidates log : List OperationLogRow) (r : OperationLogRow)
      → Elem r log
      → r.id ≡ n
      → includes (ids_of candidates) r.id ≡ true
      → is_held claim r ≡ true
      → includes (ids_of (won_rows claim candidates log)) n ≡ true
  unfolding won_rows
  claimed-includes candidates log r m same among held =
      let held_ids = read_held_operation_ids log (ids_of candidates) claim in
      let (c, k, e) = named_row r.id candidates among in
      let reads : includes held_ids c.id ≡ true =
        ap (includes held_ids) e
        ∙ Elem-any _ r.id held_ids (held-Elem claim (ids_of candidates) r log m among held)
            (nat_eq_refl r.id) in
      includes-row n (as_processing c) (won_rows claim candidates log)
        (Elem-map as_processing c _ (Elem-filterb _ c candidates k reads)) (e ∙ same)

  claimed-IsReleased :
      (candidates log : List OperationLogRow) (test : OperationLogRow → Bool)
      → ((r : OperationLogRow) → test r ≡ true → includes (ids_of candidates) r.id ≡ true)
      → IsReleased claim n log
      → includes (ids_of (won_rows claim candidates (update_where test (under_claim claim) log))) n
        ≡ false
      → IsReleased claim n (update_where test (under_claim claim) log)
  claimed-IsReleased candidates log test tests free unnamed r m same =
      elim (update_where-Elem test (under_claim claim) r log m) [
        | inl (old, miss) ↦ free r old same
        | inr (s, old, hit, e) ↦ elim (Bool-cases (is_held claim r)) [
          | inr unheld ↦ unheld
          | inl held ↦
              let named =
                claimed-includes candidates (update_where test (under_claim claim) log) r m same
                  (ap (λ (x : OperationLogRow). includes (ids_of candidates) x.id) e ∙ tests s hit)
                  held in
              absurd (ground (arith, named, unnamed))
        ]
      ]

  -- Chain successors: what the update claims is what it returns.
  pub claim_chain_successors-IsAccounted :
      (anime_ids : List String) (log : List OperationLogRow)
      → IsReleased claim n log
      → IsAccounted claim n
          (claim_chain_successors anime_ids claim log).0
          (claim_chain_successors anime_ids claim log).1
  unfolding claim_chain_successors
  claim_chain_successors-IsAccounted anime_ids log free =
      let candidates = successor_candidates anime_ids log in
      let test : OperationLogRow → Bool =
        λ row. includes (ids_of candidates) row.id && is_free_successor row in
      let log' = update_where test (under_claim claim) log in
      elim (Bool-cases (includes (ids_of (won_rows claim candidates log')) n)) [
        | inl named ↦ inl named
        | inr unnamed ↦
            inr (claimed-IsReleased candidates log test (λ r h. ground (arith, h)) free unnamed)
      ]

  -- A batch: what it claims is what it returns.
  pub claim_operation_log_batch-IsAccounted :
      (limit : ℕ) (log : List OperationLogRow)
      → IsReleased claim n log
      → IsAccounted claim n
          (claim_operation_log_batch claim limit log).0
          (claim_operation_log_batch claim limit log).1
  unfolding claim_operation_log_batch is_claimable
  claim_operation_log_batch-IsAccounted limit log free =
      let candidates = claim_candidates claim.claimed_at limit log in
      let test : OperationLogRow → Bool = is_claimable (ids_of candidates) claim.claimed_at in
      let log' = update_where test (under_claim claim) log in
      elim (Bool-cases (includes (ids_of (won_rows claim candidates log')) n)) [
        | inl named ↦ inl named
        | inr unnamed ↦
            inr (claimed-IsReleased candidates log test (λ r h. ground (arith, h)) free unnamed)
      ]

  -- The holder's check of its claim drops only what it does not hold.
  pub still_held_rows-IsAccounted :
      (rows log : List OperationLogRow)
      → IsAccounted claim n rows log
      → IsAccounted claim n (still_held_rows claim log rows) log
  unfolding still_held_rows
  still_held_rows-IsAccounted rows log (inr free) = inr free
  still_held_rows-IsAccounted rows log (inl named) =
      let held = read_held_operation_ids log (ids_of rows) claim in
      elim (Bool-cases (includes held n)) [
        | inr unheld ↦ inr (unheld-IsReleased claim (ids_of rows) n log named unheld)
        | inl reads ↦
            let (r, m, e) = named_row n rows named in
            inl (includes-row n r _ (Elem-filterb _ r rows m (ap (includes held) e ∙ reads)) e)
      ]

  is_empty-includes : (ids : List ℕ) → is_empty ids ≡ true → includes ids n ≡ false
  is_empty-includes [] h = refl
  is_empty-includes (x ∷ ids) h = absurd (ground arith)

  -- The same for the check of one row, before a request of one message.
  pub unheld_row-IsReleased :
      (row : OperationLogRow) (log : List OperationLogRow)
      → is_empty (read_held_operation_ids log (row.id ∷ []) claim) ≡ true
      → IsAccounted claim n (row ∷ []) log
      → IsReleased claim n log
  unheld_row-IsReleased row log none_held (inr free) = free
  unheld_row-IsReleased row log none_held (inl named) =
      unheld-IsReleased claim (row.id ∷ []) n log named (is_empty-includes _ none_held)

  pub append_nil-IsAccounted :
      (rows log : List OperationLogRow)
      → IsAccounted claim n rows log
      → IsAccounted claim n (rows ++ []) log
  append_nil-IsAccounted rows log (inr free) = inr free
  append_nil-IsAccounted rows log (inl named) =
      inl (ground (arith, includes-append n rows [], named))
