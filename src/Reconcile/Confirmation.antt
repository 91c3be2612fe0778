-- ===== src/Reconcile/Confirmation.antt =====
-- `src/features/sync/reconcile-confirmation.helpers.ts`: which operations an answer confirms.
pub mod Evidence
use autoreas_mobile.Prelude.{
  ℕ, String, Bool, true, false, not, ◌&&◌, ◌||◌, Option, none, some, List, [], ◌∷◌, ◌==◌, map, any,
  every, contains, is_empty, if◌then◌else◌,
}
use autoreas_mobile.Sql.{select_first}
use autoreas_mobile.Database.{OperationLogRow, ChangeType, create, update, delete}
use autoreas_mobile.Reconcile.Conflict.{ReconcileAppliedOperation}
use autoreas_mobile.Reconcile.Request.{
  JsonValue, JsonObject, strict_eq, property, normalize_pending_operation_payload,
}

-- One `bridge_changes` entry of the response.
pub record ReconcileAnimeChange : Type 0 where
  pub record_id : String
  pub change_type : ChangeType
  pub changed_fields : List String
  pub snapshot : Option JsonObject
  pub timestamp : ℕ

abbrev pub is_ack_of : OperationLogRow → ReconcileAppliedOperation → Bool
is_ack_of row candidate =
    (candidate.anime_id == row.anime_id) && (candidate.operation == row.operation)

abbrev pub is_deletion : ChangeType → Bool
is_deletion delete = true
is_deletion _ = false

abbrev pub is_value : Option JsonValue → JsonValue → Bool
is_value none v = false
is_value (some w) v = strict_eq w v

abbrev pub snapshot_has : Option JsonObject → String → JsonValue → Bool
snapshot_has none field v = false
snapshot_has (some o) field v = is_value (property o field) v

-- One field of the payload, in one change.
abbrev pub is_field_evidenced : ReconcileAnimeChange → String × JsonValue → Bool
is_field_evidenced change (field, v) =
    contains change.changed_fields field || snapshot_has change.snapshot field v

unfoldable pub is_change_evidence : OperationLogRow → JsonObject → ReconcileAnimeChange → Bool
unfolding strict_eq property
is_change_evidence row payload change =
    if not (change.record_id == row.anime_id) || is_deletion change.change_type
    then false
    else every (is_field_evidenced change) payload

abbrev pub is_confirmed_by :
    OperationLogRow
    → JsonObject
    → List ReconcileAnimeChange
    → Option ReconcileAppliedOperation
    → Bool
is_confirmed_by row payload changes (some entry) = entry.applied
is_confirmed_by row payload changes none =
    if is_empty payload then false else any (is_change_evidence row payload) changes

module _ (parse : String → Option JsonObject) where
  -- `isOperationConfirmed`
  unfoldable pub is_operation_confirmed :
      List ReconcileAppliedOperation → List ReconcileAnimeChange → OperationLogRow → Bool
  unfolding select_first
  is_operation_confirmed applied_operations bridge_changes row =
      is_confirmed_by row (normalize_pending_operation_payload parse row.operation row.payload)
        bridge_changes (select_first (is_ack_of row) applied_operations)

  -- `getConfirmedOperationIds`
  unfoldable pub get_confirmed_operation_ids :
      List OperationLogRow → List ReconcileAppliedOperation → List ReconcileAnimeChange → List ℕ
  get_confirmed_operation_ids [] applied_operations bridge_changes = []
  get_confirmed_operation_ids (row ∷ rows) applied_operations bridge_changes =
      let rest = get_confirmed_operation_ids rows applied_operations bridge_changes in
      if is_operation_confirmed applied_operations bridge_changes row then row.id ∷ rest else rest
