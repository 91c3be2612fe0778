-- ===== src/Database.antt =====
-- The tables of `src/infrastructure/db/schema/database.schema.ts` that the modelled code reads and
-- writes, and the domain `Anime` of `src/infrastructure/validation/anime-schema/anime.schema.ts`.
--
-- Times, ids and counts are natural numbers. `nrocapvisto` moves in steps of one half, so it is
-- counted in half chapters: 2 stands for one chapter.
pub mod Tables
pub mod Upsert
pub mod Laws
use autoreas_mobile.Prelude.{
  ℕ, String, ◌≡◌, Bool, true, false, Option, none, some, List, nat_eq, ◌==◌,
}

-- A value of an SQLite column.
pub data Value : Type 0 where
  null : Value
  num : ℕ → Value
  text : String → Value

-- `===` between two column values.
unfoldable pub value_eq : Value → Value → Bool
value_eq null null = true
value_eq (num a) (num b) = nat_eq a b
value_eq (text a) (text b) = a == b
value_eq _ _ = false

-- One `animes` row. The domain columns are looked up by name, as the merge code does; the two
-- sync-internal columns are fields of their own.
pub record AnimeRow : Type 0 where
  pub id : String
  pub cell : String → Value
  pub last_applied_change_ms : Option ℕ
  pub bridge_modified_at : Option ℕ

pub data OperationStatus : Type 0 where
  pending processing synced dead_letter conflict_exhausted : OperationStatus

pub data OutboxClaimOwner : Type 0 where
  js native : OutboxClaimOwner

pub record OperationLogRow : Type 0 where
  pub id : ℕ
  pub anime_id : String
  pub operation : String
  pub payload : String
  pub status : OperationStatus
  pub created_at : ℕ
  pub conflict_attempt_count : ℕ
  pub claim_owner : Option OutboxClaimOwner
  pub claimed_at : Option ℕ
  pub unresolved_reason : Option String

pub record AnimeDay : Type 0 where
  pub dia : String
  pub orden : ℕ

pub record EpisodeLength : Type 0 where
  pub episode : ℕ
  pub minutes : ℕ
  pub long : Bool

pub record AnimeSeason : Type 0 where
  pub season_id : String
  pub grade : Option ℕ

-- `undefined` and `null` are one `none` here: every reader joins them by `?? null`.
pub record Anime : Type 0 where
  pub id : String
  pub nombre : String
  pub estado : ℕ
  pub nrocapvisto : ℕ
  pub totalcap : Option ℕ
  pub dias : Option (List AnimeDay)
  pub generos : Option (List String)
  pub tipo : Option ℕ
  pub activo : ℕ
  pub primeravez : ℕ
  pub fecha_ult_cap_visto : Option ℕ
  pub fecha_estreno : Option ℕ
  pub fecha_creacion : Option ℕ
  pub fecha_eliminacion : Option ℕ
  pub portada : Option String
  pub pagina : Option String
  pub carpeta : Option String
  pub folder_relative : Option String
  pub estudios : Option String
  pub origen : Option String
  pub duracion : Option ℕ
  pub episodes : Option (List EpisodeLength)
  pub season : Option AnimeSeason

pub data ChangeType : Type 0 where
  create update delete : ChangeType

-- `RemoteAnimeChange` of merge.types.ts.
pub record RemoteAnimeChange : Type 0 where
  pub record_id : String
  pub change_type : ChangeType
  pub changed_fields : List String
  pub snapshot : Option Anime
  pub timestamp : ℕ

-- One `pending_remote_changes` row. Its JSON columns are kept as the values that they encode.
pub record PendingRemoteChange : Type 0 where
  pub staging_id : ℕ
  pub change : RemoteAnimeChange
  pub created_at : ℕ

-- The columns of `bridge_config` that a reconcile writes.
pub record BridgeConfig : Type 0 where
  pub last_changelog_id : Option ℕ
  pub season_mode : Bool

pub record Database : Type 0 where
  pub animes : List AnimeRow
  pub operation_log : List OperationLogRow
  pub pending_remote_changes : List PendingRemoteChange
  pub bridge_config : BridgeConfig
  pub next_operation_id : ℕ
  pub next_staging_id : ℕ

-- The canonical JSON text of the JSON columns: `JSON.stringify`, which the runtime provides.
pub record JsonText : Type 0 where
  pub days : List AnimeDay → String
  pub strings : List String → String
  pub episode_lengths : List EpisodeLength → String
  pub anime_season : AnimeSeason → String

-- `=` on the two enumerated columns.
abbrev pub status_eq : OperationStatus → OperationStatus → Bool
status_eq pending pending = true
status_eq processing processing = true
status_eq synced synced = true
status_eq dead_letter dead_letter = true
status_eq conflict_exhausted conflict_exhausted = true
status_eq _ _ = false

abbrev pub owner_eq : OutboxClaimOwner → OutboxClaimOwner → Bool
owner_eq js js = true
owner_eq native native = true
owner_eq _ _ = false
