-- ===== src/Cycle/Ends.antt =====
-- A chain ends: no row is claimed for it once its time is over (`OUTBOX_CHAIN_BUDGET_MS`).
pub mod Sends
pub mod Rates
pub mod Rounds
use autoreas_mobile.Prelude.{
  ℕ, ◌+◌, ◌≤◌, ◌<◌, ◌≡◌, refl, Bool, true, false, List, [], ◌∷◌, ◌++◌, is_empty, leb, arith,
  Bool-cases, inl, inr, ◌⊎◌,
}
use autoreas_mobile.Database.{OperationLogRow}
use autoreas_mobile.Cycle.{World, CycleState, IsTimed, after_request}
use autoreas_mobile.Cycle.Chain.{outbox_chain_budget_ms}

-- From the count `i` on: the count of requests does not fall, and rows are passed on only after a
-- request, and only while the count is below the budget.
pub record IsEarly (i : ℕ) (rows : List OperationLogRow) (s : CycleState) : Type 0 where
  pub grows : i ≤ s.issued
  pub sent : is_empty rows ≡ false → i < s.issued
  pub within : is_empty rows ≡ false → i < outbox_chain_budget_ms

pub none-IsEarly : (i : ℕ) (s : CycleState) → i ≤ s.issued → IsEarly i [] s
none-IsEarly i s h = record {
  grows = h;
  sent = λ e. absurd (ground (arith, e));
  within = λ e. absurd (ground (arith, e));
}

is_empty-append :
    (xs ys : List OperationLogRow)
    → is_empty (xs ++ ys) ≡ false
    → (is_empty xs ≡ false) ⊎ (is_empty ys ≡ false)
is_empty-append [] ys h = inr h
is_empty-append (x ∷ xs) ys h = inl refl

-- One step after another.
pub append-IsEarly :
    (i : ℕ) (xs ys : List OperationLogRow) (s t : CycleState)
    → IsEarly i xs s
    → IsEarly s.issued ys t
    → IsEarly i (xs ++ ys) t
append-IsEarly i xs ys s t first then_next = record {
  grows = grown;
  sent = λ e. passed e;
  within = λ e. inside e;
}
  where
    grown : i ≤ t.issued
    grown = omega (arith, first.grows, then_next.grows)

    passed : is_empty (xs ++ ys) ≡ false → i < t.issued
    passed e = elim (is_empty-append xs ys e) [
      | inl a ↦ omega (arith, first.sent a, then_next.grows)
      | inr b ↦ omega (arith, first.grows, then_next.sent b)
    ]

    inside : is_empty (xs ++ ys) ≡ false → i < outbox_chain_budget_ms
    inside e = elim (is_empty-append xs ys e) [
      | inl a ↦ first.within a
      | inr b ↦ omega (arith, first.grows, then_next.within b)
    ]

-- A step that begins later.
pub later-IsEarly :
    (i j : ℕ) (rows : List OperationLogRow) (s : CycleState)
    → i ≤ j
    → IsEarly j rows s
    → IsEarly i rows s
later-IsEarly i j rows s le early = record {
  grows = omega (arith, le, early.grows);
  sent = λ e. omega (arith, le, early.sent e);
  within = λ e. omega (arith, le, early.within e);
}
