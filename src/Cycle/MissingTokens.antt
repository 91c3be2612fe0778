-- ===== src/Cycle/MissingTokens.antt =====
-- `src/features/sync/missing-token.helpers.ts`: no operation is sent without a base.
pub mod Released
pub mod Based
use autoreas_mobile.Prelude.{
  ℕ, String, Bool, true, false, not, ◌&&◌, Option, none, some, List, [], ◌∷◌, ◌==◌, map, any,
  filterb, includes, contains, nat_eq, is_empty, get_or, if◌then◌else◌,
}
use autoreas_mobile.Sql.{update_where}
use autoreas_mobile.Database.{Database, AnimeRow, OperationLogRow, pending, dead_letter, status_eq}
use autoreas_mobile.Database.Tables.{find_anime}
use autoreas_mobile.Merge.Apply.{anime_update_operation}
use autoreas_mobile.Outbox.Claim.{
  OutboxClaim, ids_of, is_held, held_operations_where, read_held_operation_ids, write_held_status,
}
use autoreas_mobile.Reconcile.Request.{JsonObject, JsonValue, json_number, property}
use autoreas_mobile.Cycle.{
  World, CycleState, after_request, AnimeAnswer, no_anime_answer, anime_answer,
}

pub data UnresolvedReason : Type 0 where
  bridge_not_found token_missing : UnresolvedReason

-- `UNRESOLVED_REASON`
unfoldable pub reason_text : UnresolvedReason → String
reason_text bridge_not_found = "bridge_404"
reason_text token_missing = "token_missing"

pub data MissingTokenOutcome : Type 0 where
  token_found : ℕ → MissingTokenOutcome
  unresolved : UnresolvedReason → MissingTokenOutcome
  unreachable : MissingTokenOutcome

abbrev pub integer_of : Option JsonValue → Option ℕ
integer_of (some (json_number token)) = some token
integer_of _ = none

-- `readFetchedToken`
unfoldable pub read_fetched_token : Option JsonObject → Option ℕ
unfolding property
read_fetched_token none = none
read_fetched_token (some anime) = integer_of (property anime "modified_at")

abbrev pub outcome_of_token : Option ℕ → MissingTokenOutcome
outcome_of_token none = unresolved token_missing
outcome_of_token (some token) = token_found token

-- `fetchMissingTokenOutcome` on what came back.
unfoldable pub fetch_missing_token_outcome : AnimeAnswer → MissingTokenOutcome
unfolding read_fetched_token
fetch_missing_token_outcome no_anime_answer = unreachable
fetch_missing_token_outcome (anime_answer status ok anime) =
    if nat_eq status 404
    then unresolved bridge_not_found
    else if not ok
    then unreachable
    else outcome_of_token (read_fetched_token anime)

abbrev pub give_up : UnresolvedReason → OperationLogRow → OperationLogRow
give_up reason row = record row {
  status = dead_letter;
  unresolved_reason = some (reason_text reason);
  claim_owner = none;
  claimed_at = none;
}

abbrev pub is_none : {A : Type 0} → Option A → Bool
is_none none = true
is_none (some a) = false

abbrev pub is_unclaimed_edit : String → OperationLogRow → Bool
is_unclaimed_edit anime_id row =
    (row.anime_id == anime_id)
    && (row.operation == anime_update_operation)
    && status_eq pending row.status
    && is_none row.claimed_at

-- `giveKeyUp`
unfoldable pub give_key_up :
    String → List ℕ → OutboxClaim → UnresolvedReason → List OperationLogRow → List OperationLogRow
unfolding held_operations_where reason_text
give_key_up anime_id held_ids claim reason log =
    update_where (is_unclaimed_edit anime_id) (give_up reason)
      (update_where (held_operations_where held_ids claim) (give_up reason) log)

-- `claimHoldsAnimeRow`
unfoldable pub claim_holds_anime_row : List OperationLogRow → OutboxClaim → AnimeRow → Bool
unfolding is_held
claim_holds_anime_row log claim anime =
    any (λ (row : OperationLogRow). (row.anime_id == anime.id) && is_held claim row) log

-- `applyMissingTokenOutcome`
unfoldable pub apply_missing_token_outcome :
    String → List ℕ → OutboxClaim → MissingTokenOutcome → Database → Database
unfolding give_key_up write_held_status claim_holds_anime_row
apply_missing_token_outcome anime_id held_ids claim (token_found token) db = record db {
  animes =
      update_where
        (λ (row : AnimeRow).
          (row.id == anime_id)
          && is_none row.bridge_modified_at
          && claim_holds_anime_row db.operation_log claim row)
        (λ (row : AnimeRow). record row { bridge_modified_at = some token }) db.animes;
}
apply_missing_token_outcome anime_id held_ids claim unreachable db = record db {
  operation_log = write_held_status held_ids claim pending db.operation_log;
}
apply_missing_token_outcome anime_id held_ids claim (unresolved reason) db = record db {
  operation_log = give_key_up anime_id held_ids claim reason db.operation_log;
}

abbrev pub token_of : Option AnimeRow → Option ℕ
token_of none = none
token_of (some row) = row.bridge_modified_at

-- `readAnimeBridgeTokens`
unfoldable pub read_anime_bridge_tokens : List AnimeRow → String → Option ℕ
unfolding find_anime
read_anime_bridge_tokens animes anime_id = token_of (find_anime animes anime_id)

-- `[...new Set(ids)]`
unfoldable pub distinct : List String → List String
distinct [] = []
distinct (id ∷ ids) = id ∷ filterb (λ other. not (other == id)) (distinct ids)

-- The animes that are fetched.
unfoldable pub missing_tokens : List OperationLogRow → (String → Option ℕ) → List String
unfolding distinct
missing_tokens held_ops tokens =
    filterb (λ anime_id. is_none (tokens anime_id))
      (distinct (map (λ (row : OperationLogRow). row.anime_id) held_ops))

-- The loop of fetches, one request each.
unfoldable pub fetch_all :
    World → List String → CycleState → List (String × MissingTokenOutcome) × CycleState
unfolding fetch_missing_token_outcome after_request
fetch_all w [] s = ([], s)
fetch_all w (anime_id ∷ missing) s =
    let here = after_request w s in
    let rest = fetch_all w missing here in
    ((anime_id, fetch_missing_token_outcome (w.get_anime here.issued anime_id)) ∷ rest.0, rest.1)

abbrev pub rows_of_anime : String → List OperationLogRow → List OperationLogRow
rows_of_anime anime_id rows = filterb (λ (row : OperationLogRow). row.anime_id == anime_id) rows

-- The writes of the outcomes, in one transaction.
unfoldable pub apply_outcomes :
    List OperationLogRow → OutboxClaim → List (String × MissingTokenOutcome) → Database → Database
unfolding apply_missing_token_outcome
apply_outcomes held_ops claim [] db = db
apply_outcomes held_ops claim ((anime_id, outcome) ∷ outcomes) db =
    apply_outcomes held_ops claim outcomes (
      apply_missing_token_outcome anime_id (ids_of (rows_of_anime anime_id held_ops)) claim outcome
        db)

abbrev pub with_outcome : MissingTokenOutcome → Option ℕ → Option ℕ
with_outcome (token_found token) stored = some token
with_outcome unreachable stored = stored
with_outcome (unresolved reason) stored = stored

-- `tokensByAnimeId` after the fetches.
unfoldable pub with_fetched_tokens :
    List (String × MissingTokenOutcome) → (String → Option ℕ) → String → Option ℕ
with_fetched_tokens [] tokens id = tokens id
with_fetched_tokens ((anime_id, outcome) ∷ outcomes) tokens id =
    if anime_id == id
    then with_outcome outcome (with_fetched_tokens outcomes tokens id)
    else with_fetched_tokens outcomes tokens id

-- The rows that the claim still holds.
unfoldable pub still_held_rows :
    OutboxClaim → List OperationLogRow → List OperationLogRow → List OperationLogRow
unfolding read_held_operation_ids
still_held_rows claim log rows =
    filterb (λ row. includes (read_held_operation_ids log (ids_of rows) claim) row.id) rows

-- The rows that can be sent, and the tokens. Where the transaction is rolled back, the function throws:
-- there is no row to send, and nothing is written.
pub record ResolvedTokens : Type 0 where
  pub is_rolled_back : Bool
  pub pending_ops : List OperationLogRow
  pub tokens : String → Option ℕ
  pub state : CycleState

abbrev pub resolve_fetched :
    OutboxClaim
    → List OperationLogRow
    → (String → Option ℕ)
    → Bool
    → List (String × MissingTokenOutcome) × CycleState
    → ResolvedTokens
resolve_fetched claim held_ops tokens true (outcomes, s) = record {
  is_rolled_back = true;
  pending_ops = [];
  tokens = tokens;
  state = s;
}
resolve_fetched claim held_ops tokens false (outcomes, s) =
    let db = apply_outcomes held_ops claim outcomes s.db in
    record {
      is_rolled_back = false;
      pending_ops = still_held_rows claim db.operation_log held_ops;
      tokens = with_fetched_tokens outcomes tokens;
      state = record s { db = db };
    }

-- `resolveMissingTokens`
unfoldable pub resolve_missing_tokens :
    World → OutboxClaim → List OperationLogRow → (String → Option ℕ) → CycleState → ResolvedTokens
unfolding missing_tokens fetch_all apply_outcomes with_fetched_tokens still_held_rows
resolve_missing_tokens w claim held_ops tokens s =
    if is_empty (missing_tokens held_ops tokens)
    then record { is_rolled_back = false; pending_ops = held_ops; tokens = tokens; state = s }
    else let fetched = fetch_all w (missing_tokens held_ops tokens) s in
      resolve_fetched claim held_ops tokens (w.is_token_write_failed fetched.1.issued) fetched
