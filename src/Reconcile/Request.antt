-- ===== src/Reconcile/Request.antt =====
-- `src/features/sync/reconcile-request.helpers.ts` and `reconcile-base-token.helpers.ts`: the body
-- that a reconcile sends.
--
-- `JSON.parse` is the parameter `parse`: the object that a text encodes, or none where the text is
-- no JSON or encodes another kind of value.
pub mod Aliases
use autoreas_mobile.Prelude.{
  ℕ, String, Bool, true, false, not, ◌&&◌, Option, none, some, List, [], ◌∷◌, ◌==◌, map, filterb,
  get_or, nat_eq, if◌then◌else◌,
}
use autoreas_mobile.Database.{OperationLogRow}

-- A parsed JSON value. An array or an object is a reference of its own, which `===` finds equal to
-- no other value.
pub data JsonValue : Type 0 where
  json_null : JsonValue
  json_number : ℕ → JsonValue
  json_text : String → JsonValue
  json_bool : Bool → JsonValue
  json_reference : String → JsonValue

abbrev pub JsonObject : Type 0
JsonObject = List (String × JsonValue)

abbrev pub bool_eq : Bool → Bool → Bool
bool_eq true b = b
bool_eq false b = not b

-- `===`
unfoldable pub strict_eq : JsonValue → JsonValue → Bool
strict_eq json_null json_null = true
strict_eq (json_number a) (json_number b) = nat_eq a b
strict_eq (json_text a) (json_text b) = a == b
strict_eq (json_bool a) (json_bool b) = bool_eq a b
strict_eq _ _ = false

unfoldable pub property : JsonObject → String → Option JsonValue
property [] k = none
property ((j, v) ∷ o) k = if j == k then some v else property o k

-- `k in o`
abbrev pub is_present : Option JsonValue → Bool
is_present none = false
is_present (some v) = true

-- `o[k] = v`
unfoldable pub set_property : JsonObject → String → JsonValue → JsonObject
set_property [] k v = (k, v) ∷ []
set_property ((j, w) ∷ o) k v = if j == k then (k, v) ∷ o else (j, w) ∷ set_property o k v

-- `delete o[k]`
unfoldable pub delete_property : JsonObject → String → JsonObject
delete_property [] k = []
delete_property ((j, w) ∷ o) k =
    let rest = delete_property o k in if j == k then rest else (j, w) ∷ rest

abbrev pub copy_alias : JsonObject → String → Option JsonValue → Option JsonValue → JsonObject
copy_alias o english none (some v) = set_property o english v
copy_alias o english _ _ = o

-- The body of the loop of `normalizeLegacyAnimeUpdatePayloadAliases`.
unfoldable pub translate_alias : JsonObject → String → String → JsonObject → JsonObject
unfolding property set_property delete_property
translate_alias payload alias english normalized =
    delete_property
      (copy_alias normalized english (property normalized english) (property payload alias)) alias

-- `normalizeLegacyAnimeUpdatePayloadAliases`
unfoldable pub normalize_legacy_aliases : JsonObject → JsonObject
unfolding translate_alias
normalize_legacy_aliases payload = translate_alias payload "dias" "days" (
    translate_alias payload "fechaUltCapVisto" "lastWatchedAt" (
      translate_alias payload "nrocapvisto" "episodesWatched"
        (translate_alias payload "estado" "status" payload)))

module _ (parse : String → Option JsonObject) where
  -- `normalizePendingOperationPayload` with `parseOperationPayload`
  unfoldable pub normalize_pending_operation_payload : String → String → JsonObject
  unfolding normalize_legacy_aliases
  normalize_pending_operation_payload operation payload =
      let parsed = get_or (parse payload) [] in
      if not (operation == "update") then parsed else normalize_legacy_aliases parsed

-- One entry of `pending_operations`. `base` is left out where it is none.
pub record ReconcileRequestOperation : Type 0 where
  pub anime_id : String
  pub operation : String
  pub payload : JsonObject
  pub created_at : ℕ
  pub base : Option ℕ

pub record ReconcileRequestBody : Type 0 where
  pub device_id : Option String
  pub last_changelog_id : ℕ
  pub pending_operations : List ReconcileRequestOperation

module _ (parse : String → Option JsonObject) where
  abbrev pub request_operation : (String → Option ℕ) → OperationLogRow → ReconcileRequestOperation
  request_operation tokens row = record {
    anime_id = row.anime_id;
    operation = row.operation;
    payload = normalize_pending_operation_payload parse row.operation row.payload;
    created_at = row.created_at;
    base = tokens row.anime_id;
  }

  -- `buildReconcileRequestBody`, whose `base` comes from `buildOptimisticBaseKey`.
  unfoldable pub build_reconcile_request_body :
      Option String → ℕ → List OperationLogRow → (String → Option ℕ) → ReconcileRequestBody
  build_reconcile_request_body device_id last_changelog_id rows tokens = record {
    device_id = device_id;
    last_changelog_id = last_changelog_id;
    pending_operations = map (request_operation tokens) rows;
  }
