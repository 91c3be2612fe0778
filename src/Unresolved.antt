-- ===== src/Unresolved.antt =====
-- `src/features/sync/unresolved-key.helpers.ts` and `unresolved-resolution.helpers.ts`: the keys whose
-- operations were given up, and how a person settles one.
--
-- `JSON.parse` and `String(v)` are the parameters `parse` and `text_of`; what the bridge answers for an
-- anime is a parameter. Times are those of the write.
pub mod Listed
pub mod Resolve
use autoreas_mobile.Prelude.{
  ℕ, String, Bool, true, false, ◌&&◌, Option, none, some, List, [], ◌∷◌, ◌++◌, ◌==◌, map, any,
  filterb, contains, length, leb, get_or, if◌then◌else◌,
}
use autoreas_mobile.Sql.Order.{sort_by}
use autoreas_mobile.Database.{OperationLogRow, OperationStatus, dead_letter, status_eq}
use autoreas_mobile.Merge.Apply.{anime_update_operation}
use autoreas_mobile.Outbox.Backlog.{has_status}
use autoreas_mobile.Reconcile.Round.{given_up_operation_statuses}
use autoreas_mobile.Reconcile.Request.{JsonObject, JsonValue}
use autoreas_mobile.Season.{season_rating_operation, payload_season}

pub data UnresolvedChoice : Type 0 where
  keep_local keep_bridge : UnresolvedChoice

pub data UnresolvedKeyRef : Type 0 where
  anime_key : String → UnresolvedKeyRef
  rating_key : String → String → UnresolvedKeyRef

pub record UnresolvedOperationRow : Type 0 where
  pub id : ℕ
  pub status : OperationStatus
  pub unresolved_reason : Option String

pub record UnresolvedRatingRow : Type 0 where
  pub id : ℕ
  pub unresolved_reason : Option String

pub data UnresolvedKey : Type 0 where
  anime : String → List UnresolvedOperationRow → List UnresolvedChoice → UnresolvedKey
  rating : String → String → List UnresolvedRatingRow → List UnresolvedChoice → UnresolvedKey

pub data UnresolvedResolutionErrorCode : Type 0 where
  not_unresolved choice_not_offered key_claimed : UnresolvedResolutionErrorCode
  not_paired bridge_unreachable remote_state_unavailable : UnresolvedResolutionErrorCode

-- `KEEP_BRIDGE_ONLY_OPERATION_REASONS`
abbrev pub keep_bridge_only_operation_reasons : List String
keep_bridge_only_operation_reasons = "bridge_404" ∷ "token_missing" ∷ []

-- `KEEP_BRIDGE_ONLY_RATING_REASON`
abbrev pub keep_bridge_only_rating_reason : String
keep_bridge_only_rating_reason = "not_found"

abbrev pub both_choices : List UnresolvedChoice
both_choices = keep_local ∷ keep_bridge ∷ []

abbrev pub keep_bridge_only_choices : List UnresolvedChoice
keep_bridge_only_choices = keep_bridge ∷ []

-- Two refs with one `keyIdentity`.
unfoldable pub same_key : UnresolvedKeyRef → UnresolvedKeyRef → Bool
same_key (anime_key a) (anime_key b) = a == b
same_key (rating_key s a) (rating_key t b) = (s == t) && (a == b)
same_key _ _ = false

-- `refOf`
abbrev pub ref_of : UnresolvedKey → UnresolvedKeyRef
ref_of (anime id rows choices) = anime_key id
ref_of (rating season id rows choices) = rating_key season id

-- `addToGroup`, on the groups in the order in which they were opened.
unfoldable pub add_to_group :
    {K R : Type 0} → (K → K → Bool) → K → R → List (K × List R) → List (K × List R)
add_to_group same key row [] = (key, row ∷ []) ∷ []
add_to_group same key row ((other, rows) ∷ groups) =
    if same other key
    then (other, rows ++ row ∷ []) ∷ groups
    else (other, rows) ∷ add_to_group same key row groups

unfoldable pub group_by :
    {K R : Type 0}
    → (K → K → Bool)
    → (OperationLogRow → K)
    → (OperationLogRow → R)
    → List OperationLogRow
    → List (K × List R)
    → List (K × List R)
unfolding add_to_group
group_by same key entry [] groups = groups
group_by same key entry (row ∷ rows) groups =
    group_by same key entry rows (add_to_group same (key row) (entry row) groups)

unfoldable pub by_id : List OperationLogRow → List OperationLogRow
by_id rows = sort_by (λ a b. leb a.id b.id) rows

abbrev pub operation_row : OperationLogRow → UnresolvedOperationRow
operation_row row = record {
  id = row.id;
  status = row.status;
  unresolved_reason = row.unresolved_reason;
}

abbrev pub rating_row : OperationLogRow → UnresolvedRatingRow
rating_row row = record { id = row.id; unresolved_reason = row.unresolved_reason }

abbrev pub is_given_up_edit : OperationLogRow → Bool
is_given_up_edit row =
    (row.operation == anime_update_operation) && has_status given_up_operation_statuses row

abbrev pub is_given_up_rating : OperationLogRow → Bool
is_given_up_rating row =
    (row.operation == season_rating_operation) && status_eq dead_letter row.status

abbrev pub operation_choices : List UnresolvedOperationRow → List UnresolvedChoice
operation_choices rows =
    if any
      (λ (row : UnresolvedOperationRow).
        contains keep_bridge_only_operation_reasons (get_or row.unresolved_reason ""))
      rows
    then keep_bridge_only_choices
    else both_choices

abbrev pub reason_is : String → Option String → Bool
reason_is reason none = false
reason_is reason (some r) = r == reason

abbrev pub rating_choices : List UnresolvedRatingRow → List UnresolvedChoice
rating_choices rows =
    if any
      (λ (row : UnresolvedRatingRow).
        reason_is keep_bridge_only_rating_reason row.unresolved_reason)
      rows
    then keep_bridge_only_choices
    else both_choices

abbrev pub operation_key : String × List UnresolvedOperationRow → UnresolvedKey
operation_key (id, rows) = anime id rows (operation_choices rows)

-- `readUnresolvedAnimeKeys`
unfoldable pub read_unresolved_anime_keys : List OperationLogRow → List UnresolvedKey
unfolding by_id group_by
read_unresolved_anime_keys log = map operation_key (
    group_by (λ a b. a == b) (λ row. row.anime_id) operation_row
      (by_id (filterb is_given_up_edit log)) [])

abbrev pub same_rating : String × String → String × String → Bool
same_rating (s, a) (t, b) = (s == t) && (a == b)

abbrev pub rating_group_key : (String × String) × List UnresolvedRatingRow → UnresolvedKey
rating_group_key ((season, id), rows) = rating season id rows (rating_choices rows)

module _ (parse : String → Option JsonObject) (text_of : Option JsonValue → String) where
  -- The season of a stored rating, as text.
  unfoldable pub season_of : OperationLogRow → String
  unfolding payload_season
  season_of row = text_of (payload_season parse row.payload)

  -- `readUnresolvedRatingKeys`
  unfoldable pub read_unresolved_rating_keys : List OperationLogRow → List UnresolvedKey
  unfolding by_id group_by season_of
  read_unresolved_rating_keys log = map rating_group_key (
      group_by same_rating (λ row. (season_of row, row.anime_id)) rating_row
        (by_id (filterb is_given_up_rating log)) [])

  -- `listUnresolvedKeys`
  unfoldable pub list_unresolved_keys : List OperationLogRow → List UnresolvedKey
  unfolding read_unresolved_anime_keys read_unresolved_rating_keys
  list_unresolved_keys log = read_unresolved_anime_keys log ++ read_unresolved_rating_keys log

  -- `readUnresolvedKeyCount`
  unfoldable pub read_unresolved_key_count : List OperationLogRow → ℕ
  unfolding list_unresolved_keys
  read_unresolved_key_count log = length (list_unresolved_keys log)
