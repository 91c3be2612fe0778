-- ===== src/Unresolved/Resolve/Unblocks.antt =====
-- The bridge's state is always a way out of an unresolved key (`unresolved-resolution.helpers.ts`).
use autoreas_mobile.Prelude.{
  ℕ, String, ◌≡◌, refl, ◌∙◌, true, false, Option, any, filterb, arith, eq_iff,
}
use autoreas_mobile.Sql.{select_first-Elem, select_first-any}
use autoreas_mobile.Database.{Database, JsonText}
use autoreas_mobile.Outbox.Backlog.{is_claimed_key}
use autoreas_mobile.Reconcile.Request.{JsonObject, JsonValue}
use autoreas_mobile.Unresolved.{
  keep_bridge, UnresolvedKey, anime_key, anime, rating, same_key, list_unresolved_keys,
}
use autoreas_mobile.Unresolved.Listed.{is_key_of, is_given_up_of, key_is_listed}
use autoreas_mobile.Unresolved.Resolve.{
  AnimeRequest, RemoteAnimeState, unavailable, deleted, stored, fetch_remote_anime_state,
  Resolution, resolved, unresolved_because, write_unclaimed_key, keep_bridge_on,
  keep_bridge_for_anime, settle_key, resolve_unresolved_key,
}
use autoreas_mobile.Unresolved.Resolve.Settles.{
  is_of_another_key, IsSettledKey, keep_bridge-offered, choice_settles_its_key,
}

abbrev IsResolved : Resolution → Type 0
IsResolved (resolved after) = Unit
IsResolved (unresolved_because code) = ⊥

-- The bridge answered for the anime.
abbrev pub IsAnswered : RemoteAnimeState → Type 0
IsAnswered (unavailable code) = ⊥
IsAnswered deleted = Unit
IsAnswered (stored ingested) = Unit

module _ (parse : String → Option JsonObject) (text_of : Option JsonValue → String)
    (json : JsonText) (request : AnimeRequest) (now : ℕ) (db : Database) (id : String)
    (answered : IsAnswered (fetch_remote_anime_state request))
    (free : is_claimed_key db.operation_log now id ≡ false) where
  write-IsResolved :
      (write : Database → Database) → IsResolved (write_unclaimed_key now id write db)
  unfolding write_unclaimed_key
  write-IsResolved write = rw free tt

  keep_bridge_on-IsResolved :
      (remote : RemoteAnimeState)
      → IsAnswered remote
      → IsResolved (keep_bridge_on json now id db remote)
  keep_bridge_on-IsResolved (unavailable code) known = absurd known
  keep_bridge_on-IsResolved deleted known = write-IsResolved _
  keep_bridge_on-IsResolved (stored ingested) known = write-IsResolved _

  found-IsResolved :
      (key : UnresolvedKey)
      → is_key_of id key ≡ true
      → IsResolved (settle_key parse text_of json request now db key keep_bridge)
  unfolding same_key keep_bridge_for_anime
  found-IsResolved (rating season other rows choices) same = absurd (ground (arith, same))
  found-IsResolved (anime other rows choices) same =
      rw ((eq_iff other id).0 same)
        (keep_bridge_on-IsResolved (fetch_remote_anime_state request) answered)

  choice-IsResolved :
      any (is_given_up_of id) db.operation_log ≡ true
      → IsResolved
          (resolve_unresolved_key parse text_of json request now db (anime_key id) keep_bridge)
  unfolding resolve_unresolved_key
  choice-IsResolved given_up =
      let keys = list_unresolved_keys parse text_of db.operation_log in
      let (key, found) =
        select_first-any (is_key_of id) keys
          (key_is_listed id parse text_of db.operation_log ∙ given_up) in
      let (m, same) = select_first-Elem (is_key_of id) keys found in
      rw (found, keep_bridge-offered parse text_of db.operation_log key m)
        (found-IsResolved key same)

  result_is_settled :
      (result : Resolution)
      → IsResolved result
      → IsSettledKey now id db result
      → (after : Database) × (result ≡ resolved after)
        × (any (is_key_of id) (list_unresolved_keys parse text_of after.operation_log) ≡ false)
        × (filterb (is_of_another_key id) after.operation_log
            ≡ filterb (is_of_another_key id) db.operation_log)
  result_is_settled (resolved after) through (unclaimed, given_up, others) =
      (after, refl, key_is_listed id parse text_of after.operation_log ∙ given_up, others)
  result_is_settled (unresolved_because code) through settles = absurd through

  -- An anime with a given-up edit, under no live claim, of which the bridge answers that it has it
  -- or that it has it no more: choosing the bridge's state goes through, the key is listed no more,
  -- and the rows of every other key are as they were.
  pub keep_bridge_unblocks :
      any (is_given_up_of id) db.operation_log ≡ true
      → (after : Database) × (resolve_unresolved_key parse text_of json request now db
            (anime_key id)
            keep_bridge
          ≡ resolved after)
        × (any (is_key_of id) (list_unresolved_keys parse text_of after.operation_log) ≡ false)
        × (filterb (is_of_another_key id) after.operation_log
            ≡ filterb (is_of_another_key id) db.operation_log)
  keep_bridge_unblocks given_up =
      result_is_settled _ (choice-IsResolved given_up)
        (choice_settles_its_key parse text_of json request now db id keep_bridge)
