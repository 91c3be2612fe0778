-- ===== src/Heal/Kept.antt =====
-- A resync leaves every anime with an unconfirmed edit alone (`full-resync.helpers.ts`).
use autoreas_mobile.Prelude.{
  ℕ, String, ◌≡◌, ◌≢◌, refl, ap, ◌∙◌, Bool, true, false, Option, none, some, List, [], ◌∷◌,
  contains, is_empty, nat_opt_eq, get_or, arith, Bool-cases, inl, inr,
}
use autoreas_mobile.Database.{Database, Anime, AnimeRow, JsonText}
use autoreas_mobile.Database.Tables.{find_anime}
use autoreas_mobile.Database.Laws.{
  find-update_other, find-apply_anime_partial_other, find-upsert_anime_other,
}
use autoreas_mobile.Merge.Fields.{derive_changed_fields, build_partial_update}
use autoreas_mobile.Merge.Apply.{load_pending_outbox_record_ids}
use autoreas_mobile.Heal.{
  IngestedAnime, heal_token, heal_row, heal_anime_from_snapshot, heal_each,
  resync_from_bridge_snapshot,
}

module _ (json : JsonText) (id : String) where
  find-heal_token_other :
      (anime : Anime) (token : ℕ) (row : AnimeRow) (animes : List AnimeRow)
      → anime.id ≢ id
      → find_anime (heal_token json anime token row animes) id ≡ find_anime animes id
  unfolding heal_token
  find-heal_token_other anime token row animes ne =
      elim (Bool-cases (nat_opt_eq row.bridge_modified_at (some token))) [
        | inl same ↦ rw same refl
        | inr differs ↦ rw differs (find-update_other animes id anime.id _ ne (λ r. refl))
      ]

  find-heal_row_other :
      (anime : Anime) (token : ℕ) (local : Option AnimeRow) (animes : List AnimeRow)
      → anime.id ≢ id
      → find_anime (heal_row json anime token local animes).1 id ≡ find_anime animes id
  find-heal_row_other anime token none animes ne =
      find-upsert_anime_other animes id json anime none (some token) ne
  find-heal_row_other anime token (some row) animes ne =
      elim (Bool-cases (is_empty (derive_changed_fields json anime row.cell))) [
        | inl same ↦ rw same (find-heal_token_other anime token row animes ne)
        | inr differs ↦ rw differs (
            find-apply_anime_partial_other (heal_token json anime token row animes) id anime.id
              (build_partial_update json (derive_changed_fields json anime row.cell) anime).columns
              (get_or row.last_applied_change_ms 0) ne
            ∙ find-heal_token_other anime token row animes ne)
      ]

  pub find-heal_other :
      (anime : Anime) (token : ℕ) (local : Option AnimeRow) (animes : List AnimeRow)
      → anime.id ≢ id
      → find_anime (heal_anime_from_snapshot json anime token local animes).1 id
        ≡ find_anime animes id
  unfolding heal_anime_from_snapshot
  find-heal_other anime token local animes ne = find-heal_row_other anime token local animes ne

  other_of_pending :
      (pending : List String) (i : String)
      → contains pending id ≡ true
      → contains pending i ≡ false
      → i ≢ id
  other_of_pending pending i among missed same =
      let hit : contains pending i ≡ true = ap (contains pending) same ∙ among in
      absurd (ground (arith, hit, missed))

  find-heal_each_pending :
      (entries : List IngestedAnime) (pending : List String) (local : List AnimeRow) (healed : ℕ)
      (animes : List AnimeRow)
      → contains pending id ≡ true
      → find_anime (heal_each json entries pending local healed animes).1 id ≡ find_anime animes id
  unfolding heal_each
  find-heal_each_pending [] pending local healed animes among = refl
  find-heal_each_pending (entry ∷ entries) pending local healed animes among =
      elim (Bool-cases (contains pending entry.anime.id)) [
        | inl skipped ↦
            rw skipped (find-heal_each_pending entries pending local healed animes among)
        | inr written ↦ rw written (
            find-heal_each_pending entries pending local _ _ among
            ∙ find-heal_other entry.anime entry.bridge_modified_at (find_anime local entry.anime.id)
                animes (other_of_pending pending entry.anime.id among written))
      ]

  -- A resync leaves the row of an anime with an unconfirmed edit, and the outbox, as they are,
  -- whatever the bridge's snapshot says.
  pub resync_leaves_local_edits :
      (is_paired : Bool) (remote : List IngestedAnime) (db : Database)
      → contains (load_pending_outbox_record_ids db.operation_log) id ≡ true
      → (find_anime (resync_from_bridge_snapshot json is_paired remote db).1.animes id
          ≡ find_anime db.animes id)
        × ((resync_from_bridge_snapshot json is_paired remote db).1.operation_log
            ≡ db.operation_log)
  unfolding resync_from_bridge_snapshot
  resync_leaves_local_edits false remote db among = (refl, refl)
  resync_leaves_local_edits true remote db among =
      (find-heal_each_pending remote _ db.animes 0 db.animes among, refl)
