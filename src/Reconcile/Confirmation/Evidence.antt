-- ===== src/Reconcile/Confirmation/Evidence.antt =====
-- Nothing is confirmed without evidence (`reconcile-confirmation.helpers.ts`).
use autoreas_mobile.Prelude.{
  ℕ, String, ◌≡◌, ◌≢◌, ◌⊎◌, refl, ap, sym, true, false, Option, none, some, List, [], ◌∷◌, ◌==◌,
  every, Elem, arith, Bool-cases, inl, inr, any-Elem, is_empty,
}
use autoreas_mobile.Sql.{select_first, select_first-Elem}
use autoreas_mobile.Database.{OperationLogRow}
use autoreas_mobile.Reconcile.Conflict.{ReconcileAppliedOperation}
use autoreas_mobile.Reconcile.Request.{JsonValue, JsonObject, normalize_pending_operation_payload}
use autoreas_mobile.Reconcile.Confirmation.{
  ReconcileAnimeChange, is_ack_of, is_deletion, is_field_evidenced, is_change_evidence,
  is_confirmed_by, is_operation_confirmed, get_confirmed_operation_ids,
}

-- The bridge says that it applied the operation.
abbrev pub IsAcknowledged : OperationLogRow → List ReconcileAppliedOperation → Type 0
IsAcknowledged row applied =
    (entry : ReconcileAppliedOperation) × Elem entry applied
    × (is_ack_of row entry ≡ true)
    × (entry.applied ≡ true)

-- The bridge says nothing of the operation, and one change that it pulled, to the same anime and no
-- deletion, has every field of the payload, which has at least one.
abbrev pub IsInferred :
    OperationLogRow
    → JsonObject
    → List ReconcileAppliedOperation
    → List ReconcileAnimeChange
    → Type 0
IsInferred row payload applied changes =
    (change : ReconcileAnimeChange) × Elem change changes
    × (select_first (is_ack_of row) applied ≡ none)
    × (payload ≢ [])
    × (change.record_id == row.anime_id ≡ true)
    × (is_deletion change.change_type ≡ false)
    × (every (is_field_evidenced change) payload ≡ true)

not_empty : (field : String × JsonValue) (o : JsonObject) → field ∷ o ≢ []
not_empty field o e = absurd (ground (arith, ap is_empty e))

module _ (parse : String → Option JsonObject) (applied : List ReconcileAppliedOperation)
    (changes : List ReconcileAnimeChange) where
  abbrev payload_of : OperationLogRow → JsonObject
  payload_of row = normalize_pending_operation_payload parse row.operation row.payload

  change_is_evidence :
      (row : OperationLogRow) (payload : JsonObject) (change : ReconcileAnimeChange)
      → is_change_evidence row payload change ≡ true
      → (change.record_id == row.anime_id ≡ true)
        × (is_deletion change.change_type ≡ false)
        × (every (is_field_evidenced change) payload ≡ true)
  unfolding is_change_evidence
  change_is_evidence row payload change h = (ground arith, ground arith, ground arith)

  inferred :
      (row : OperationLogRow) (payload : JsonObject)
      → select_first (is_ack_of row) applied ≡ none
      → is_confirmed_by row payload changes none ≡ true
      → IsInferred row payload applied changes
  inferred row [] e h = absurd (ground arith)
  inferred row (field ∷ payload) e h =
      let (change, m, fits) = any-Elem (is_change_evidence row (field ∷ payload)) changes h in
      let known = change_is_evidence row (field ∷ payload) change fits in
      (change, m, e, λ empty. absurd (not_empty field payload empty), known.0, known.1, known.2)

  confirmed_by :
      (row : OperationLogRow) (o : Option ReconcileAppliedOperation)
      → select_first (is_ack_of row) applied ≡ o
      → is_confirmed_by row (payload_of row) changes o ≡ true
      → IsAcknowledged row applied ⊎ IsInferred row (payload_of row) applied changes
  confirmed_by row (some entry) e h =
      let found = select_first-Elem (is_ack_of row) applied e in inl (entry, found.0, found.1, h)
  confirmed_by row none e h = inr (inferred row (payload_of row) e h)

  evidence_of :
      (row : OperationLogRow)
      → is_operation_confirmed parse applied changes row ≡ true
      → IsAcknowledged row applied ⊎ IsInferred row (payload_of row) applied changes
  unfolding is_operation_confirmed
  evidence_of row h = confirmed_by row (select_first (is_ack_of row) applied) refl h

  abbrev IsEvidenced : List OperationLogRow → ℕ → Type 0
  IsEvidenced rows n =
      (row : OperationLogRow) × Elem row rows
      × (row.id ≡ n)
      × (IsAcknowledged row applied ⊎ IsInferred row (payload_of row) applied changes)

  in_rest :
      (row : OperationLogRow) (rows : List OperationLogRow) (n : ℕ)
      → IsEvidenced rows n
      → IsEvidenced (row ∷ rows) n
  in_rest row rows n (r, m, same, evidence) = (r, inr m, same, evidence)

  -- Only an operation of the batch is confirmed, and only with evidence: the bridge says that it
  -- applied the operation; or it says nothing of it, the payload has a field, and one pulled change
  -- to the same anime, no deletion, has every field of it.
  pub confirmed_operation_has_evidence :
      (rows : List OperationLogRow) (n : ℕ)
      → Elem n (get_confirmed_operation_ids parse rows applied changes)
      → (row : OperationLogRow) × Elem row rows
        × (row.id ≡ n)
        × (IsAcknowledged row applied ⊎ IsInferred row (payload_of row) applied changes)
  unfolding get_confirmed_operation_ids
  confirmed_operation_has_evidence [] n m = absurd m
  confirmed_operation_has_evidence (row ∷ rows) n m =
      elim (Bool-cases (is_operation_confirmed parse applied changes row)) [
        | inl evidenced ↦ elim (rw evidenced at m) [
          | inl same ↦ (row, inl refl, sym same, evidence_of row evidenced)
          | inr later ↦ in_rest row rows n (confirmed_operation_has_evidence rows n later)
        ]
        | inr no_evidence ↦
            in_rest row rows n (confirmed_operation_has_evidence rows n (rw no_evidence at m))
      ]
