-- ===== src/Database/Upsert.antt =====
-- The canonical column values of an anime (`anime-episodes.helpers.ts`, `anime-season.helpers.ts`)
-- and its full-row writer, `upsertAnime` of `anime-repository.ts`.
use autoreas_mobile.Prelude.{ℕ, String, Option, none, some, List, [], ◌∷◌, ◌++◌, any, if◌then◌else◌}
use autoreas_mobile.Sql.{update_where}
use autoreas_mobile.Database.{
  AnimeRow, Anime, AnimeSeason, EpisodeLength, JsonText, Value, null, num, text,
}
use autoreas_mobile.Database.Tables.{has_id, set_columns}

-- `value ?? null`
abbrev pub opt_num : Option ℕ → Value
opt_num none = null
opt_num (some n) = num n

abbrev pub opt_text : Option String → Value
opt_text none = null
opt_text (some s) = text s

-- `value ? JSON.stringify(value) : null`; an array is truthy even when it is empty.
abbrev pub opt_json : {A : Type 0} → (A → String) → Option A → Value
opt_json stringify none = null
opt_json stringify (some a) = text (stringify a)

module _ (json : JsonText) where
  unfoldable pub serialize_episode_lengths : Option (List EpisodeLength) → Value
  serialize_episode_lengths none = null
  serialize_episode_lengths (some []) = null
  serialize_episode_lengths (some (e ∷ es)) = text (json.episode_lengths (e ∷ es))

  unfoldable pub serialize_anime_season : Option AnimeSeason → Value
  serialize_anime_season none = null
  serialize_anime_season (some season) = text (json.anime_season season)

  -- `mappedFields`, without the two sync-internal columns.
  unfoldable pub mapped_fields : Anime → List (String × Value)
  unfolding serialize_episode_lengths serialize_anime_season
  mapped_fields anime =
      ("nombre", text anime.nombre)
      ∷ ("estado", num anime.estado)
      ∷ ("nrocapvisto", num anime.nrocapvisto)
      ∷ ("totalcap", opt_num anime.totalcap)
      ∷ ("activo", num anime.activo)
      ∷ ("primeravez", num anime.primeravez)
      ∷ ("dias", opt_json json.days anime.dias)
      ∷ ("generos", opt_json json.strings anime.generos)
      ∷ ("tipo", opt_num anime.tipo)
      ∷ ("fechaUltCapVisto", opt_num anime.fecha_ult_cap_visto)
      ∷ ("fechaEstreno", opt_num anime.fecha_estreno)
      ∷ ("fechaCreacion", opt_num anime.fecha_creacion)
      ∷ ("fechaEliminacion", opt_num anime.fecha_eliminacion)
      ∷ ("portada", opt_text anime.portada)
      ∷ ("pagina", opt_text anime.pagina)
      ∷ ("carpeta", opt_text anime.carpeta)
      ∷ ("folderRelative", opt_text anime.folder_relative)
      ∷ ("estudios", opt_text anime.estudios)
      ∷ ("origen", opt_text anime.origen)
      ∷ ("duracion", opt_num anime.duracion)
      ∷ ("episodes", serialize_episode_lengths anime.episodes)
      ∷ ("season", serialize_anime_season anime.season)
      ∷ []

  -- `buildOptionalAnimeSyncColumns`: a column the caller does not know keeps what is stored.
  unfoldable pub set_optional_sync_columns : Option ℕ → Option ℕ → AnimeRow → AnimeRow
  set_optional_sync_columns guard_ms token row = record row {
    last_applied_change_ms = elim guard_ms [ none ↦ row.last_applied_change_ms | some g ↦ some g ];
    bridge_modified_at = elim token [ none ↦ row.bridge_modified_at | some t ↦ some t ];
  }

  abbrev pub write_anime : Anime → Option ℕ → Option ℕ → AnimeRow → AnimeRow
  write_anime anime guard_ms token row =
      set_optional_sync_columns guard_ms token (set_columns (mapped_fields anime) row)

  abbrev pub blank : String → AnimeRow
  blank id = record {
    id = id;
    cell = λ k. null;
    last_applied_change_ms = none;
    bridge_modified_at = none;
  }

  -- INSERT ... ON CONFLICT (_id) DO UPDATE.
  unfoldable pub upsert_anime : Anime → Option ℕ → Option ℕ → List AnimeRow → List AnimeRow
  unfolding set_columns mapped_fields set_optional_sync_columns
  upsert_anime anime guard_ms token animes =
      if any (has_id anime.id) animes
      then update_where (has_id anime.id) (write_anime anime guard_ms token) animes
      else animes ++ write_anime anime guard_ms token (blank anime.id) ∷ []
