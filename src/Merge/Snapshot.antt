-- ===== src/Merge/Snapshot.antt =====
-- What a snapshot says of each column, spelled out: the reference of `mapKnownField` and
-- `buildPartialUpdate` (`field-merge.helpers.ts`).
use autoreas_mobile.Prelude.{
  String, ◌≡◌, refl, Option, none, some, List, [], ◌∷◌, ◌==◌, contains, if◌then◌else◌,
}
use autoreas_mobile.Database.{Anime, EpisodeLength, AnimeSeason, JsonText, Value, null, num, text}
use autoreas_mobile.Database.Tables.{column}
use autoreas_mobile.Database.Upsert.{
  opt_num, opt_text, opt_json, serialize_episode_lengths, serialize_anime_season,
}
use autoreas_mobile.Merge.Fields.{map_known_field, build_partial_update}
use autoreas_mobile.Merge.Columns.{column-mapped}

abbrev pub lookup : List (String × Value) → String → Option Value
lookup [] k = none
lookup ((j, v) ∷ entries) k = if k == j then some v else lookup entries k

-- No episodes are NULL, and otherwise their JSON.
abbrev pub episodes_value : JsonText → Option (List EpisodeLength) → Value
episodes_value json none = null
episodes_value json (some []) = null
episodes_value json (some (e ∷ es)) = text (json.episode_lengths (e ∷ es))

abbrev pub season_value : JsonText → Option AnimeSeason → Value
season_value json none = null
season_value json (some season) = text (json.anime_season season)

-- The 21 columns that a remote change may write, with the snapshot's values.
abbrev pub snapshot_values : JsonText → Anime → List (String × Value)
snapshot_values json snapshot =
    ("nombre", text snapshot.nombre)
    ∷ ("estado", num snapshot.estado)
    ∷ ("nrocapvisto", num snapshot.nrocapvisto)
    ∷ ("totalcap", opt_num snapshot.totalcap)
    ∷ ("activo", num snapshot.activo)
    ∷ ("primeravez", num snapshot.primeravez)
    ∷ ("dias", opt_json json.days snapshot.dias)
    ∷ ("generos", opt_json json.strings snapshot.generos)
    ∷ ("tipo", opt_num snapshot.tipo)
    ∷ ("fechaUltCapVisto", opt_num snapshot.fecha_ult_cap_visto)
    ∷ ("fechaEstreno", opt_num snapshot.fecha_estreno)
    ∷ ("fechaCreacion", opt_num snapshot.fecha_creacion)
    ∷ ("fechaEliminacion", opt_num snapshot.fecha_eliminacion)
    ∷ ("portada", opt_text snapshot.portada)
    ∷ ("pagina", opt_text snapshot.pagina)
    ∷ ("carpeta", opt_text snapshot.carpeta)
    ∷ ("estudios", opt_text snapshot.estudios)
    ∷ ("origen", opt_text snapshot.origen)
    ∷ ("duracion", opt_num snapshot.duracion)
    ∷ ("episodes", episodes_value json snapshot.episodes)
    ∷ ("season", season_value json snapshot.season)
    ∷ []

pub episodes-value :
    (json : JsonText) (o : Option (List EpisodeLength))
    → serialize_episode_lengths json o ≡ episodes_value json o
unfolding serialize_episode_lengths
episodes-value json none = refl
episodes-value json (some []) = refl
episodes-value json (some (e ∷ es)) = refl

pub season-value :
    (json : JsonText) (o : Option AnimeSeason) → serialize_anime_season json o ≡ season_value json o
unfolding serialize_anime_season
season-value json none = refl
season-value json (some season) = refl

module _ (json : JsonText) (snapshot : Anime) where
  -- The `switch` gives each column the value of the table.
  pub map_known_field-lookup :
      (field : String)
      → map_known_field json field snapshot ≡ lookup (snapshot_values json snapshot) field
  unfolding map_known_field
  map_known_field-lookup field =
      rw (episodes-value json snapshot.episodes, season-value json snapshot.season) refl

  -- What the changed fields name of one column.
  abbrev pub written : List String → String → Option Value
  written fields k =
      if k == "folderRelative"
      then (if contains fields "carpeta" then some (opt_text snapshot.folder_relative) else none)
      else if contains fields k
      then lookup (snapshot_values json snapshot) k
      else none

  -- The column map of a partial update has, for each changed field of the 21 that the table spells
  -- out, the value of the table; `folderRelative` comes along with `carpeta` alone; no other column is
  -- written.
  pub column-build_partial_update :
      (changed_fields : List String) (k : String)
      → column (build_partial_update json changed_fields snapshot).columns k
        ≡ written changed_fields k
  column-build_partial_update changed_fields k =
      rw (column-mapped json snapshot changed_fields k, map_known_field-lookup k) refl
