-- ===== src/Merge/Columns.antt =====
-- Exactly which columns `buildPartialUpdate` (`field-merge.helpers.ts`) writes, and with what.
use autoreas_mobile.Prelude.{
  String, ◌≡◌, refl, Option, none, some, List, [], ◌∷◌, ◌==◌, contains, if◌then◌else◌, arith,
  eq_iff, Option-cases, inl, inr, ap, ◌∙◌,
}
use autoreas_mobile.Database.{Anime, JsonText, Value}
use autoreas_mobile.Database.Tables.{assign, column, column-assign}
use autoreas_mobile.Database.Upsert.{opt_text}
use autoreas_mobile.Merge.Fields.{
  FieldMergeResult, map_coupled_columns, assign_all, map_known_field, merge_field, merge_fields,
  build_partial_update,
}

abbrev or_else : Option Value → Option Value → Option Value
or_else none o = o
or_else (some v) o = some v

or_else-none : (o : Option Value) → or_else o none ≡ o
or_else-none none = refl
or_else-none (some v) = refl

-- What a list of changed fields says of one column.
abbrev pub mapped : JsonText → List String → Anime → String → Option Value
mapped json fields snapshot k =
    if k == "folderRelative"
    then (if contains fields "carpeta" then some (opt_text snapshot.folder_relative) else none)
    else if contains fields k
    then map_known_field json k snapshot
    else none

module _ (json : JsonText) (snapshot : Anime) where
  known_folder_relative : map_known_field json "folderRelative" snapshot ≡ none
  unfolding map_known_field
  known_folder_relative = refl

  known_carpeta : map_known_field json "carpeta" snapshot ≡ some (opt_text snapshot.carpeta)
  unfolding map_known_field
  known_carpeta = refl

  column-coupled :
      (columns : List (String × Value)) (field k : String)
      → column (assign_all columns (map_coupled_columns field snapshot)) k ≡ (
          if (field == "carpeta")
          then (if "folderRelative" == k
              then some (opt_text snapshot.folder_relative)
              else column columns k)
          else column columns k)
  unfolding map_coupled_columns assign_all
  column-coupled columns field k =
      ground (arith, column-assign columns "folderRelative" k (opt_text snapshot.folder_relative))

  -- One round of the loop, by what the field maps to.
  column-merge_none :
      (result : FieldMergeResult) (field k : String)
      → map_known_field json field snapshot ≡ none
      → column (merge_field json result field snapshot none).columns k
        ≡ or_else (mapped json (field ∷ []) snapshot k) (column result.columns k)
  column-merge_none result field k unknown =
      ground
        (arith, eq_iff field k, eq_iff k "folderRelative", eq_iff field "carpeta", known_carpeta)

  column-merge_some :
      (result : FieldMergeResult) (field k : String) (value : Value)
      → map_known_field json field snapshot ≡ some value
      → column (merge_field json result field snapshot (some value)).columns k
        ≡ or_else (mapped json (field ∷ []) snapshot k) (column result.columns k)
  column-merge_some result field k value known =
      rw (column-coupled (assign result.columns field value) field k) (
        ground (
          arith,
          eq_iff field k,
          eq_iff k "folderRelative",
          eq_iff "folderRelative" k,
          eq_iff field "carpeta",
          known_folder_relative,
          column-assign result.columns field k value,
        ))

  column-merge_field :
      (result : FieldMergeResult) (field k : String)
      → column
          (merge_field json result field snapshot (map_known_field json field snapshot)).columns
          k
        ≡ or_else (mapped json (field ∷ []) snapshot k) (column result.columns k)
  column-merge_field result field k = elim (Option-cases (map_known_field json field snapshot)) [
    | inl unknown ↦ rw unknown (column-merge_none result field k unknown)
    | inr (value, known) ↦ rw known (column-merge_some result field k value known)
  ]

  mapped-cons :
      (field k : String) (fields : List String) (base : Option Value)
      → or_else (mapped json fields snapshot k) (or_else (mapped json (field ∷ []) snapshot k) base)
        ≡ or_else (mapped json (field ∷ fields) snapshot k) base
  mapped-cons field k fields base = ground (arith, eq_iff field k)

  column-merge_fields :
      (result : FieldMergeResult) (fields : List String) (k : String)
      → column (merge_fields json result fields snapshot).columns k
        ≡ or_else (mapped json fields snapshot k) (column result.columns k)
  unfolding merge_fields
  column-merge_fields result [] k = ground arith
  column-merge_fields result (field ∷ fields) k =
      column-merge_fields
        (merge_field json result field snapshot (map_known_field json field snapshot)) fields k
      ∙ ap (or_else (mapped json fields snapshot k)) (column-merge_field result field k)
      ∙ mapped-cons field k fields (column result.columns k)

  -- The column map of a partial update is exactly what the changed fields name: a known field has
  -- the snapshot's value, `folderRelative` comes along with `carpeta` alone, and no other column
  -- is written.
  pub column-mapped :
      (changed_fields : List String) (k : String)
      → column (build_partial_update json changed_fields snapshot).columns k
        ≡ mapped json changed_fields snapshot k
  unfolding build_partial_update
  column-mapped changed_fields k =
      column-merge_fields (record { columns = []; skipped_fields = [] }) changed_fields k
      ∙ unfold column in or_else-none (mapped json changed_fields snapshot k)
