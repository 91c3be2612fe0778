-- ===== src/Heal/Stored.antt =====
-- The row that the heal of one anime leaves (`healAnimeFromSnapshot` of `full-resync.helpers.ts`).
use mathlib.Core.Path.{subst}
use autoreas_mobile.Prelude.{
  ℕ, String, ◌≡◌, refl, ap, sym, ◌∙◌, true, Option, none, some, List, [], ◌∷◌, map, ◌==◌, contains,
  is_empty, nat_opt_eq, get_or, arith, eq_iff, Bool-cases, inl, inr, eq-of-==,
}
use autoreas_mobile.Database.{Anime, AnimeRow, JsonText, Value}
use autoreas_mobile.Database.Tables.{
  find_anime, column, or_cell, set_columns, apply_anime_bridge_token,
}
use autoreas_mobile.Database.Laws.{
  find-update_self, find-apply_anime_partial_self, find-upsert_anime_self, base_row,
}
use autoreas_mobile.Database.Upsert.{
  opt_text, mapped_fields, set_optional_sync_columns, write_anime,
}
use autoreas_mobile.Merge.Fields.{derive_changed_fields, build_partial_update}
use autoreas_mobile.Merge.Resync.{resync_row, resync_values, resync_folder}
use autoreas_mobile.Merge.Snapshot.{
  lookup, snapshot_values, map_known_field-lookup, episodes-value, season-value,
}
use autoreas_mobile.Merge.Apply.{}
use autoreas_mobile.Heal.{IngestedAnime, heal_token, heal_row}
use autoreas_mobile.Heal.Kept.{}

-- The columns hold the values of a snapshot.
abbrev pub HoldsSnapshot : JsonText → Anime → (String → Value) → Type 0
HoldsSnapshot json anime cell =
    ((k : String) (v : Value) → lookup (snapshot_values json anime) k ≡ some v → cell k ≡ v)
    × (cell "folderRelative" ≡ opt_text anime.folder_relative)

-- The row that was found holds the snapshot of an anime, and its token.
abbrev pub IsSynced : JsonText → IngestedAnime → Option AnimeRow → Type 0
IsSynced json entry found =
    (row : AnimeRow) × (found ≡ some row)
    × HoldsSnapshot json entry.anime row.cell
    × (row.bridge_modified_at ≡ some entry.bridge_modified_at)

lookup-contains :
    (entries : List (String × Value)) (k : String) (v : Value)
    → lookup entries k ≡ some v
    → contains (map (λ (e : String × Value). e.0) entries) k ≡ true
lookup-contains [] k v h = ground (arith, h)
lookup-contains ((j, w) ∷ entries) k v h =
    ground (arith, eq_iff k j, eq_iff j k, h, lookup-contains entries k v)

column-lookup : (entries : List (String × Value)) (k : String) → column entries k ≡ lookup entries k
unfolding column
column-lookup [] k = refl
column-lookup ((j, w) ∷ entries) k = ground (arith, eq_iff k j, eq_iff j k, column-lookup entries k)

same_token :
    (stored : Option ℕ) (token : ℕ) → nat_opt_eq stored (some token) ≡ true → stored ≡ some token
same_token none token h = absurd (ground (arith, h))
same_token (some t) token h = ap some (ground (arith, h))

is_empty-eq : (fields : List String) → is_empty fields ≡ true → fields ≡ []
is_empty-eq [] h = refl
is_empty-eq (field ∷ fields) h = absurd (ground (arith, h))

module _ (json : JsonText) (anime : Anime) where
  resync_row-HoldsSnapshot :
      (row : AnimeRow) → HoldsSnapshot json anime (resync_row json anime row).cell
  resync_row-HoldsSnapshot row = (
    λ k v h.
        resync_values json anime row k v (lookup-contains (snapshot_values json anime) k v h)
          (map_known_field-lookup json anime k ∙ h),
    resync_folder json anime row,
  )

  mapped-lookup :
      (k : String) (v : Value)
      → lookup (snapshot_values json anime) k ≡ some v
      → lookup (mapped_fields json anime) k ≡ some v
  unfolding mapped_fields
  mapped-lookup k v h = elim (Bool-cases (k == "folderRelative")) [
    | inl folder ↦
        let e = eq-of-== k "folderRelative" folder in
        let unlisted : none ≡ some v = ap (lookup (snapshot_values json anime)) (sym e) ∙ h in
        absurd (ground (arith, unlisted))
    | inr other ↦ rw (other, episodes-value json anime.episodes, season-value json anime.season) h
  ]

  mapped_folder :
      column (mapped_fields json anime) "folderRelative" ≡ some (opt_text anime.folder_relative)
  unfolding mapped_fields column
  mapped_folder = refl

  write_anime-HoldsSnapshot :
      (guard_ms token : Option ℕ) (row : AnimeRow)
      → HoldsSnapshot json anime (write_anime json anime guard_ms token row).cell
  unfolding set_columns set_optional_sync_columns
  write_anime-HoldsSnapshot guard_ms token row = (
    λ k v h.
        ap (λ o. or_cell o (row.cell k))
          (column-lookup (mapped_fields json anime) k ∙ mapped-lookup k v h),
    ap (λ o. or_cell o (row.cell "folderRelative")) mapped_folder,
  )

  -- The row with the token, which the heal of a stored anime begins with.
  tokened : ℕ → AnimeRow → AnimeRow
  tokened token row = record row { bridge_modified_at = some token }

  find-heal_token :
      (token : ℕ) (row : AnimeRow) (animes : List AnimeRow)
      → find_anime animes anime.id ≡ some row
      → find_anime (heal_token json anime token row animes) anime.id ≡ some (tokened token row)
  unfolding heal_token tokened apply_anime_bridge_token
  find-heal_token token row animes found =
      elim (Bool-cases (nat_opt_eq row.bridge_modified_at (some token))) [
        | inl same ↦ rw same (
            found
            ∙ ap (λ stored. some (record row { bridge_modified_at = stored }))
                (same_token row.bridge_modified_at token same))
        | inr differs ↦ rw differs (find-update_self animes anime.id _ (λ r. refl) found)
      ]

  -- A row that differs from the snapshot nowhere is left as the resync would write it.
  unchanged-cell :
      (row : AnimeRow)
      → is_empty (derive_changed_fields json anime row.cell) ≡ true
      → (resync_row json anime row).cell ≡ row.cell
  unfolding set_columns column build_partial_update
  unchanged-cell row same =
      ap (λ fields. (set_columns (build_partial_update json fields anime).columns row).cell)
        (is_empty-eq _ same)

  -- What the heal of a stored anime leaves.
  find-heal_row_stored :
      (token : ℕ) (row : AnimeRow) (animes : List AnimeRow)
      → find_anime animes anime.id ≡ some row
      → IsSynced json
          (record { anime = anime; bridge_modified_at = token })
          (find_anime (heal_row json anime token (some row) animes).1 anime.id)
  unfolding set_columns tokened
  find-heal_row_stored token row animes found =
      let held = find-heal_token token row animes found in
      let synced = resync_row-HoldsSnapshot row in
      elim (Bool-cases (is_empty (derive_changed_fields json anime row.cell))) [
        | inl same ↦ rw same (
          tokened token row,
          held,
          subst (λ cell. HoldsSnapshot json anime cell) (unchanged-cell row same) synced,
          refl,
        )
        | inr differs ↦ rw differs (
          _,
          find-apply_anime_partial_self _ anime.id
              (build_partial_update json (derive_changed_fields json anime row.cell) anime).columns
              (get_or row.last_applied_change_ms 0) held,
          synced,
          refl,
        )
      ]

  pub find-heal_row :
      (token : ℕ) (local : Option AnimeRow) (animes : List AnimeRow)
      → find_anime animes anime.id ≡ local
      → IsSynced json
          (record { anime = anime; bridge_modified_at = token })
          (find_anime (heal_row json anime token local animes).1 anime.id)
  unfolding set_optional_sync_columns
  find-heal_row token none animes found = (
    _,
    find-upsert_anime_self json anime none (some token) animes,
    write_anime-HoldsSnapshot none (some token)
        (base_row json anime none (some token) animes (find_anime animes anime.id)),
    refl,
  )
  find-heal_row token (some row) animes found = find-heal_row_stored token row animes found
