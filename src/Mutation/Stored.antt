-- ===== src/Mutation/Stored.antt =====
-- The row that the UPDATE of a patch leaves, column by column (`buildAnimeUpdateSql` and
-- `toLocalAnimeUpdate` of `anime-mutation.helpers.ts`).
use autoreas_mobile.Prelude.{
  ℕ, String, ◌≡◌, refl, ap, ◌∙◌, Bool, true, false, Option, none, some, [], ◌∷◌, contains, arith,
}
use autoreas_mobile.Database.{AnimeRow, Value, num}
use autoreas_mobile.Database.Tables.{set_columns, column, or_cell}
use autoreas_mobile.Mutation.Patch.{
  AnimeMutationSyncPatch, to_local_anime_update, update_assignments,
}

-- The row that a patch leaves.
abbrev pub patched_row : AnimeMutationSyncPatch → AnimeRow → AnimeRow
patched_row patch row = set_columns (update_assignments (to_local_anime_update patch)) row

-- A value that a patch gives, or the value that the column has.
abbrev given_or : Option ℕ → Value → Value
given_or none stored = stored
given_or (some n) stored = num n

abbrev one_or_zero : Option Bool → Option ℕ
one_or_zero none = none
one_or_zero (some true) = some 1
one_or_zero (some false) = some 0

-- The row after a patch, column by column.
pub HoldsPatch : AnimeMutationSyncPatch → AnimeRow → AnimeRow → Type 0
HoldsPatch patch row after =
    (after.cell "nrocapvisto" ≡ given_or patch.episodes_watched (row.cell "nrocapvisto"))
    × (after.cell "fechaUltCapVisto" ≡ given_or patch.last_watched_at (row.cell "fechaUltCapVisto"))
    × (after.cell "estado" ≡ given_or patch.status (row.cell "estado"))
    × (after.cell "fechaEstreno" ≡ given_or patch.premiered_at (row.cell "fechaEstreno"))
    × (after.cell "primeravez" ≡ given_or (one_or_zero patch.first_cycle) (row.cell "primeravez"))
    × ((k : String)
        → contains
            ("nrocapvisto" ∷ "fechaUltCapVisto" ∷ "estado" ∷ "fechaEstreno" ∷ "primeravez" ∷ []) k
          ≡ false
        → after.cell k ≡ row.cell k)
    × (after.last_applied_change_ms ≡ row.last_applied_change_ms)
    × (after.bridge_modified_at ≡ row.bridge_modified_at)

module _ (nrocapvisto fecha_ult_cap_visto estado fecha_estreno primeravez : Option ℕ)
    (cell : String → Value) where
  abbrev updated : String → Value
  updated k =
      or_cell
        (column
          (update_assignments (record {
            nrocapvisto = nrocapvisto;
            fecha_ult_cap_visto = fecha_ult_cap_visto;
            estado = estado;
            fecha_estreno = fecha_estreno;
            primeravez = primeravez;
          }))
          k)
        (cell k)

  updated_columns :
      (updated "nrocapvisto" ≡ given_or nrocapvisto (cell "nrocapvisto"))
      × (updated "fechaUltCapVisto" ≡ given_or fecha_ult_cap_visto (cell "fechaUltCapVisto"))
      × (updated "estado" ≡ given_or estado (cell "estado"))
      × (updated "fechaEstreno" ≡ given_or fecha_estreno (cell "fechaEstreno"))
      × (updated "primeravez" ≡ given_or primeravez (cell "primeravez"))
  unfolding update_assignments column
  updated_columns = (ground arith, ground arith, ground arith, ground arith, ground arith)

  other_columns :
      (k : String)
      → contains
          ("nrocapvisto" ∷ "fechaUltCapVisto" ∷ "estado" ∷ "fechaEstreno" ∷ "primeravez" ∷ [])
          k
        ≡ false
      → updated k ≡ cell k
  unfolding update_assignments column
  other_columns k other = ground arith

first_cycle_value :
    (patch : AnimeMutationSyncPatch)
    → (to_local_anime_update patch).primeravez ≡ one_or_zero patch.first_cycle
unfolding to_local_anime_update
first_cycle_value patch = ground arith

pub patched_row-HoldsPatch :
    (patch : AnimeMutationSyncPatch) (row : AnimeRow) → HoldsPatch patch row (patched_row patch row)
unfolding HoldsPatch to_local_anime_update set_columns
patched_row-HoldsPatch patch row =
    let first_cycle = (to_local_anime_update patch).primeravez in
    let columns =
      updated_columns patch.episodes_watched patch.last_watched_at patch.status patch.premiered_at
        first_cycle row.cell in
    (
      columns.0,
      columns.1,
      columns.2,
      columns.3,
      columns.4 ∙ ap (λ o. given_or o (row.cell "primeravez")) (first_cycle_value patch),
      other_columns patch.episodes_watched patch.last_watched_at patch.status patch.premiered_at
          first_cycle row.cell,
      refl,
      refl,
    )
