-- ===== src/Tests/Unresolved.antt =====
-- Witnesses of the unresolved keys: an anime with one edit that was given up, which the bridge has no
-- more.
use autoreas_mobile.Prelude.{String, ◌≡◌, refl, false, Option, none, some, [], ◌∷◌, any, filterb}
use autoreas_mobile.Database.{Database, OperationLogRow, dead_letter}
use autoreas_mobile.Outbox.Backlog.{is_claimed_key, is_live_claim}
use autoreas_mobile.Reconcile.Request.{JsonObject, JsonValue}
use autoreas_mobile.Unresolved.{keep_bridge, anime_key, list_unresolved_keys}
use autoreas_mobile.Unresolved.Listed.{is_key_of, is_given_up_of, key_is_listed}
use autoreas_mobile.Unresolved.Resolve.{
  responded, AnimeRequest, fetch_remote_anime_state, resolve_unresolved_key, resolved,
}
use autoreas_mobile.Unresolved.Resolve.Settles.{
  IsSettledKey, is_of_another_key, choice_settles_its_key,
}
use autoreas_mobile.Unresolved.Resolve.Unblocks.{keep_bridge_unblocks}
use autoreas_mobile.Tests.Data.{json, database, operation_1, operation_2, operation_3}

abbrev parse : String → Option JsonObject
parse payload = none

abbrev text_of : Option JsonValue → String
text_of value = "undefined"

abbrev given_up_1 : OperationLogRow
given_up_1 = record operation_1 { status = dead_letter; unresolved_reason = some "bridge_404" }

abbrev blocked : Database
blocked = record database { operation_log = given_up_1 ∷ operation_2 ∷ operation_3 ∷ [] }

abbrev gone : AnimeRequest
gone = responded 404 false none

key_is_listed_example :
    any (is_key_of "a") (list_unresolved_keys parse text_of blocked.operation_log)
    ≡ any (is_given_up_of "a") blocked.operation_log
key_is_listed_example = key_is_listed "a" parse text_of blocked.operation_log

choice_settles_its_key_example :
    IsSettledKey 200 "a" blocked
      (resolve_unresolved_key parse text_of json gone 200 blocked (anime_key "a") keep_bridge)
choice_settles_its_key_example =
    choice_settles_its_key parse text_of json gone 200 blocked "a" keep_bridge

a_is_free : is_claimed_key blocked.operation_log 200 "a" ≡ false
unfolding is_claimed_key is_live_claim
a_is_free = refl

keep_bridge_unblocks_example :
    (after : Database) × (resolve_unresolved_key parse text_of json gone 200 blocked
        (anime_key "a")
        keep_bridge
      ≡ resolved after)
    × (any (is_key_of "a") (list_unresolved_keys parse text_of after.operation_log) ≡ false)
    × (filterb (is_of_another_key "a") after.operation_log
        ≡ filterb (is_of_another_key "a") blocked.operation_log)
unfolding fetch_remote_anime_state
keep_bridge_unblocks_example =
    keep_bridge_unblocks parse text_of json gone 200 blocked "a" tt a_is_free refl
