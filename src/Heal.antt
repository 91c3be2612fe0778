-- ===== src/Heal.antt =====
-- `src/features/sync/full-resync.helpers.ts`: the heal of the library from the bridge's snapshot.
--
-- The snapshot that `fetchInitialSyncSnapshot` returns is a parameter. `normalizeFetchedAnime` gives
-- back what it is given.
pub mod Kept
pub mod Stored
pub mod Synced
use autoreas_mobile.Prelude.{
  ℕ, ◌+◌, String, Bool, true, false, not, Option, none, some, List, [], ◌∷◌, contains, is_empty,
  nat_opt_eq, get_or, if◌then◌else◌,
}
use autoreas_mobile.Database.{Database, Anime, AnimeRow, JsonText}
use autoreas_mobile.Database.Tables.{find_anime, apply_anime_partial, apply_anime_bridge_token}
use autoreas_mobile.Database.Upsert.{upsert_anime}
use autoreas_mobile.Merge.Fields.{derive_changed_fields, build_partial_update}
use autoreas_mobile.Merge.Apply.{load_pending_outbox_record_ids}

pub record IngestedAnime : Type 0 where
  pub anime : Anime
  pub bridge_modified_at : ℕ

module _ (json : JsonText) where
  -- The token write, where it differs.
  unfoldable pub heal_token : Anime → ℕ → AnimeRow → List AnimeRow → List AnimeRow
  unfolding apply_anime_bridge_token
  heal_token anime token row animes =
      if nat_opt_eq row.bridge_modified_at (some token)
      then animes
      else apply_anime_bridge_token anime.id token animes

  abbrev pub heal_row : Anime → ℕ → Option AnimeRow → List AnimeRow → Bool × List AnimeRow
  heal_row anime token none animes = (true, upsert_anime json anime none (some token) animes)
  heal_row anime token (some row) animes =
      let changed = derive_changed_fields json anime row.cell in
      let tokened = heal_token anime token row animes in
      if is_empty changed then (false, tokened) else (
        true,
        apply_anime_partial anime.id (build_partial_update json changed anime).columns
            (get_or row.last_applied_change_ms 0) tokened,
      )

  -- `healAnimeFromSnapshot`
  unfoldable pub heal_anime_from_snapshot :
      Anime → ℕ → Option AnimeRow → List AnimeRow → Bool × List AnimeRow
  unfolding heal_token upsert_anime apply_anime_partial derive_changed_fields build_partial_update
  heal_anime_from_snapshot anime token local animes = heal_row anime token local animes

  abbrev pub count_healed : Bool → ℕ → ℕ
  count_healed true healed = healed + 1
  count_healed false healed = healed

  -- The loop of `resyncFromBridgeSnapshot`; `local` are the rows that it read before it.
  unfoldable pub heal_each :
      List IngestedAnime → List String → List AnimeRow → ℕ → List AnimeRow → ℕ × List AnimeRow
  unfolding heal_anime_from_snapshot find_anime
  heal_each [] pending local healed animes = (healed, animes)
  heal_each (entry ∷ entries) pending local healed animes =
      let kept = heal_each entries pending local healed animes in
      let write =
        heal_anime_from_snapshot entry.anime entry.bridge_modified_at
          (find_anime local entry.anime.id) animes in
      let written = heal_each entries pending local (count_healed write.0 healed) write.1 in
      if contains pending entry.anime.id then kept else written

  -- `resyncFromBridgeSnapshot` on a fetched snapshot: the count of healed animes.
  unfoldable pub resync_from_bridge_snapshot : Bool → List IngestedAnime → Database → ℕ × Database
  unfolding heal_each load_pending_outbox_record_ids
  resync_from_bridge_snapshot is_paired remote db =
      let pending = load_pending_outbox_record_ids db.operation_log in
      let healed = heal_each remote pending db.animes 0 db.animes in
      if not is_paired then (0, db) else (healed.0, record db { animes = healed.1 })
