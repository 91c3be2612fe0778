-- ===== src/Merge/Fields.antt =====
-- `field-merge.helpers.ts` and `field-merge.constants.ts`: which columns a remote change may write.
use autoreas_mobile.Prelude.{
  ℕ, String, Bool, false, not, ◌||◌, Option, none, some, List, [], ◌∷◌, ◌++◌, any, ◌==◌,
  if◌then◌else◌, leb,
}
use autoreas_mobile.Database.{Anime, JsonText, Value, num, text, value_eq}
use autoreas_mobile.Database.Tables.{assign}
use autoreas_mobile.Database.Upsert.{
  opt_num, opt_text, opt_json, serialize_episode_lengths, serialize_anime_season,
}

-- `MERGEABLE_FIELDS`
abbrev pub mergeable_fields : List String
mergeable_fields =
    "nombre" ∷ "estado" ∷ "nrocapvisto" ∷ "totalcap" ∷ "activo" ∷ "primeravez" ∷ "dias" ∷ "generos"
    ∷ "tipo" ∷ "fechaUltCapVisto" ∷ "fechaEstreno" ∷ "fechaCreacion" ∷ "fechaEliminacion"
    ∷ "portada" ∷ "pagina" ∷ "carpeta" ∷ "estudios" ∷ "origen" ∷ "duracion" ∷ "episodes" ∷ "season"
    ∷ []

pub record FieldMergeResult : Type 0 where
  pub columns : List (String × Value)
  pub skipped_fields : List String

-- `mapCoupledColumns`: a folder change also replaces the stored relative path.
unfoldable pub map_coupled_columns : String → Anime → List (String × Value)
map_coupled_columns field snapshot =
    if field == "carpeta" then ("folderRelative", opt_text snapshot.folder_relative) ∷ [] else []

-- `Object.assign(columns, extra)`
unfoldable pub assign_all : List (String × Value) → List (String × Value) → List (String × Value)
assign_all columns [] = columns
assign_all columns ((k, v) ∷ extra) = assign_all (assign columns k v) extra

module _ (json : JsonText) where
  -- `mapKnownField`: the `switch` over the whitelist.
  unfoldable pub map_known_field : String → Anime → Option Value
  unfolding serialize_episode_lengths serialize_anime_season
  map_known_field field snapshot =
      if field == "nombre"
      then some (text snapshot.nombre)
      else if field == "estado"
      then some (num snapshot.estado)
      else if field == "nrocapvisto"
      then some (num snapshot.nrocapvisto)
      else if field == "totalcap"
      then some (opt_num snapshot.totalcap)
      else if field == "activo"
      then some (num snapshot.activo)
      else if field == "primeravez"
      then some (num snapshot.primeravez)
      else if field == "dias"
      then some (opt_json json.days snapshot.dias)
      else if field == "generos"
      then some (opt_json json.strings snapshot.generos)
      else if field == "tipo"
      then some (opt_num snapshot.tipo)
      else if field == "fechaUltCapVisto"
      then some (opt_num snapshot.fecha_ult_cap_visto)
      else if field == "fechaEstreno"
      then some (opt_num snapshot.fecha_estreno)
      else if field == "fechaCreacion"
      then some (opt_num snapshot.fecha_creacion)
      else if field == "fechaEliminacion"
      then some (opt_num snapshot.fecha_eliminacion)
      else if field == "portada"
      then some (opt_text snapshot.portada)
      else if field == "pagina"
      then some (opt_text snapshot.pagina)
      else if field == "carpeta"
      then some (opt_text snapshot.carpeta)
      else if field == "estudios"
      then some (opt_text snapshot.estudios)
      else if field == "origen"
      then some (opt_text snapshot.origen)
      else if field == "duracion"
      then some (opt_num snapshot.duracion)
      else if field == "episodes"
      then some (serialize_episode_lengths json snapshot.episodes)
      else if field == "season"
      then some (serialize_anime_season json snapshot.season)
      else none

  -- The body of the loop of `buildPartialUpdate`.
  abbrev pub merge_field : FieldMergeResult → String → Anime → Option Value → FieldMergeResult
  merge_field result field snapshot none = record result {
    skipped_fields = result.skipped_fields ++ field ∷ [];
  }
  merge_field result field snapshot (some value) = record result {
    columns = assign_all (assign result.columns field value) (map_coupled_columns field snapshot);
  }

  unfoldable pub merge_fields : FieldMergeResult → List String → Anime → FieldMergeResult
  unfolding assign_all assign map_coupled_columns
  merge_fields result [] snapshot = result
  merge_fields result (field ∷ fields) snapshot =
      merge_fields (merge_field result field snapshot (map_known_field field snapshot)) fields
        snapshot

  -- `buildPartialUpdate`
  unfoldable pub build_partial_update : List String → Anime → FieldMergeResult
  unfolding merge_fields
  build_partial_update changed_fields snapshot =
      merge_fields (record { columns = []; skipped_fields = [] }) changed_fields snapshot

  abbrev differs : (String → Value) → Value → String → Bool
  differs current_row value column = not (value_eq value (current_row column))

  -- The test of one field in the loop of `deriveChangedFields`.
  unfoldable pub is_changed : Anime → (String → Value) → String → Option Value → Bool
  unfolding map_coupled_columns value_eq
  is_changed snapshot current_row field none = false
  is_changed snapshot current_row field (some value) =
      differs current_row value field
      || any (λ entry. differs current_row entry.1 entry.0) (map_coupled_columns field snapshot)

  unfoldable pub changed_among : List String → Anime → (String → Value) → List String
  unfolding is_changed
  changed_among [] snapshot current_row = []
  changed_among (field ∷ fields) snapshot current_row =
      let rest = changed_among fields snapshot current_row in
      if is_changed snapshot current_row field (map_known_field field snapshot)
      then field ∷ rest
      else rest

  -- `deriveChangedFields`
  unfoldable pub derive_changed_fields : Anime → (String → Value) → List String
  unfolding changed_among
  derive_changed_fields snapshot current_row = changed_among mergeable_fields snapshot current_row

-- `isStale`: a tie is stale, and a row with no guard never is.
unfoldable pub is_stale : ℕ → Option ℕ → Bool
is_stale change_ms none = false
is_stale change_ms (some last_applied_ms) = leb change_ms last_applied_ms
