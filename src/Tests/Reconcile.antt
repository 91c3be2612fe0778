-- ===== src/Tests/Reconcile.antt =====
-- Witnesses of the reconcile: a round of two operations, one confirmed and one in conflict.
use autoreas_mobile.Prelude.{
  ℕ, String, ◌+◌, ◌≤◌, ◌≡◌, refl, true, false, Option, none, some, List, [], ◌∷◌, Elem, inl, inr,
  arith, max, ◌⊎◌,
}
use autoreas_mobile.Sql.{select_first, update_where}
use autoreas_mobile.Database.{OperationLogRow, Database}
use autoreas_mobile.Drain.{apply_staged_and_incoming}
use autoreas_mobile.Database.Tables.{find_anime}
use autoreas_mobile.Outbox.Claim.{read_held_operation_ids, is_held, under_claim}
use autoreas_mobile.Reconcile.Conflict.{
  ReconcileAppliedOperation, exhausted, conflict_attempt_cap, classify_rejected_operation,
  classify_unconfirmed_operations,
}
use autoreas_mobile.Reconcile.Conflict.Attempts.{
  is_given_up_within, losing_race_ends, given_up_at_the_cap,
}
use autoreas_mobile.Reconcile.Conflict.Buckets.{count_buckets, each_operation_has_one_fate}
use autoreas_mobile.Reconcile.Tokens.{
  persist_confirmed_anime_tokens, collect_confirmed_anime_tokens,
}
use autoreas_mobile.Reconcile.Tokens.Last.{with_token, last_confirmed_token_is_stored}
use autoreas_mobile.Reconcile.Request.{
  json_number, JsonObject, property, normalize_legacy_aliases, normalize_pending_operation_payload,
}
use autoreas_mobile.Reconcile.Request.Aliases.{wire_value, wire_payload_is_english}
use autoreas_mobile.Reconcile.Confirmation.{get_confirmed_operation_ids, is_operation_confirmed}
use autoreas_mobile.Reconcile.Confirmation.Evidence.{
  IsAcknowledged, IsInferred, confirmed_operation_has_evidence,
}
use autoreas_mobile.Reconcile.Writes.{
  ApplyReconcileResponseWritesParams, apply_reconcile_response_writes,
}
use autoreas_mobile.Reconcile.Writes.Cursor.{cursor, cursor_moves_forward}
use autoreas_mobile.Reconcile.Round.{ReconcileRoundContext, ReconcileResponse, response_writes}
use autoreas_mobile.Reconcile.Round.Settled.{answered_batch_is_released}
use autoreas_mobile.Tests.Data.{
  json, animes, row_a, operation_1, operation_2, operation_3, database, claim_js,
}

-- The bridge applied the operation of the first anime, and refused that of the second.
abbrev ack : ReconcileAppliedOperation
ack = record {
  anime_id = "a";
  operation = "update";
  applied = true;
  modified_at = some 0;
  reason = none;
}

abbrev conflict : ReconcileAppliedOperation
conflict = record {
  anime_id = "b";
  operation = "update";
  applied = false;
  modified_at = some 6;
  reason = some "conflict";
}

abbrev answers : List ReconcileAppliedOperation
answers = ack ∷ conflict ∷ []

abbrev tokens : String → Option ℕ
tokens id = none

losing_race_ends_example : is_given_up_within (conflict_attempt_cap + 1) conflict (none, 0) ≡ true
losing_race_ends_example = losing_race_ends conflict 6 (refl, refl) none 0

third_refusal : classify_rejected_operation conflict (some 6) 2 ≡ exhausted 6 3
unfolding classify_rejected_operation
third_refusal = refl

given_up_at_the_cap_example :
    (conflict.modified_at ≡ some 6) × (3 ≡ 2 + 1) × (conflict_attempt_cap ≤ 3)
given_up_at_the_cap_example = given_up_at_the_cap conflict 6 (refl, refl) (some 6) 2 third_refusal

abbrev batch : List OperationLogRow
batch = operation_1 ∷ operation_3 ∷ []

each_operation_has_one_fate_example :
    count_buckets 3 (classify_unconfirmed_operations batch answers tokens (3 ∷ [])) ≡ 1
each_operation_has_one_fate_example = each_operation_has_one_fate batch answers tokens 3 (3 ∷ [])

found_a : find_anime animes "a" ≡ some row_a
unfolding find_anime select_first
found_a = refl

last_confirmed_token_is_stored_example :
    find_anime (persist_confirmed_anime_tokens (collect_confirmed_anime_tokens answers) animes) "a"
    ≡ some (with_token (some 0) row_a)
last_confirmed_token_is_stored_example =
    last_confirmed_token_is_stored "a" answers animes row_a found_a

-- The payload of a Cap+ in the legacy spelling.
abbrev payload : JsonObject
payload = ("nrocapvisto", json_number 3) ∷ []

abbrev parse : String → Option JsonObject
parse text = some payload

wire_payload_is_english_example :
    property (normalize_legacy_aliases payload) "episodesWatched"
    ≡ wire_value payload "episodesWatched"
wire_payload_is_english_example = wire_payload_is_english payload "episodesWatched"

confirmed_1 : Elem 1 (get_confirmed_operation_ids parse batch answers [])
unfolding get_confirmed_operation_ids is_operation_confirmed
confirmed_1 = inl refl

confirmed_operation_has_evidence_example :
    (row : OperationLogRow) × Elem row batch
    × (row.id ≡ 1)
    × (IsAcknowledged row answers
        ⊎ IsInferred row
            (normalize_pending_operation_payload parse row.operation row.payload)
            answers
            [])
confirmed_operation_has_evidence_example =
    confirmed_operation_has_evidence parse answers [] batch 1 confirmed_1

abbrev context : ReconcileRoundContext
context = record { last_changelog_id = 30; claim = claim_js; chain_deadline = 200 }

abbrev response : ReconcileResponse
response = record {
  applied_operations = answers;
  bridge_changes = [];
  last_changelog_id = some 35;
  season_mode = none;
}

abbrev writes : ApplyReconcileResponseWritesParams
writes = response_writes parse context response tokens batch [] database.operation_log

-- The native runtime is at 40 already.
cursor_moves_forward_example :
    cursor (apply_reconcile_response_writes json writes 150 database).bridge_config ≡ max 40 35
unfolding response_writes
cursor_moves_forward_example = cursor_moves_forward json writes 150 database (omega arith)

-- The two operations of the batch are held; the second is back in the queue after its answer.
abbrev held_database : Database
held_database = record database {
  operation_log =
      under_claim claim_js operation_1 ∷ operation_2 ∷ under_claim claim_js operation_3 ∷ [];
}

abbrev held_writes : ApplyReconcileResponseWritesParams
held_writes = response_writes parse context response tokens batch [] held_database.operation_log

requeued_3 :
    Elem operation_3
      (apply_reconcile_response_writes json held_writes 150 held_database).operation_log
unfolding apply_reconcile_response_writes update_where response_writes
    classify_unconfirmed_operations get_confirmed_operation_ids is_operation_confirmed
    read_held_operation_ids apply_staged_and_incoming
requeued_3 = inr (inr (inl refl))

answered_batch_is_released_example : is_held claim_js operation_3 ≡ false
answered_batch_is_released_example =
    answered_batch_is_released parse context response tokens batch json [] 150 held_database
      operation_3 (inr (inl refl)) operation_3 requeued_3 refl
