-- ===== src/Tests/Data.antt =====
-- The animes, rows, operations and claims of the witnesses.
use autoreas_mobile.Prelude.{
  ℕ, String, false, ◌==◌, Option, none, some, List, [], ◌∷◌, if◌then◌else◌,
}
use autoreas_mobile.Database.{
  Anime, AnimeRow, null, num, OperationLogRow, pending, RemoteAnimeChange, update,
  PendingRemoteChange, Database, JsonText, js, native,
}
use autoreas_mobile.Outbox.Claim.{OutboxClaim}

abbrev pub frieren : Anime
frieren = record {
  id = "a";
  nombre = "Frieren";
  estado = 0;
  nrocapvisto = 4;
  totalcap = some 28;
  dias = none;
  generos = none;
  tipo = none;
  activo = 1;
  primeravez = 1;
  fecha_ult_cap_visto = none;
  fecha_estreno = none;
  fecha_creacion = none;
  fecha_eliminacion = none;
  portada = none;
  pagina = none;
  carpeta = none;
  folder_relative = none;
  estudios = none;
  origen = none;
  duracion = none;
  episodes = none;
  season = none;
}

-- The same anime as the other device knows it.
abbrev pub frieren_remote : Anime
frieren_remote = record frieren {
  nombre = "Sousou no Frieren";
  carpeta = some "C:/anime/frieren";
  folder_relative = some "frieren";
}

-- A stand-in for `JSON.stringify`.
abbrev pub json : JsonText
json = record {
  days = λ d. "days";
  strings = λ s. "strings";
  episode_lengths = λ e. "episodes";
  anime_season = λ s. "season";
}

abbrev pub row_of : String → Option ℕ → AnimeRow
row_of id guard_ms = record {
  id = id;
  cell = λ k. if k == "nrocapvisto" then num 4 else if k == "estado" then num 0 else null;
  last_applied_change_ms = guard_ms;
  bridge_modified_at = none;
}

abbrev pub row_a : AnimeRow
row_a = row_of "a" (some 5)

abbrev pub animes : List AnimeRow
animes = row_a ∷ row_of "b" none ∷ []

abbrev pub operation_of : ℕ → String → ℕ → OperationLogRow
operation_of id anime_id created_at = record {
  id = id;
  anime_id = anime_id;
  operation = "update";
  payload = "";
  status = pending;
  created_at = created_at;
  conflict_attempt_count = 0;
  claim_owner = none;
  claimed_at = none;
  unresolved_reason = none;
}

-- Two operations of the first anime, and one of the second.
abbrev pub operation_1 : OperationLogRow
operation_1 = operation_of 1 "a" 10

abbrev pub operation_2 : OperationLogRow
operation_2 = operation_of 2 "a" 20

abbrev pub operation_3 : OperationLogRow
operation_3 = operation_of 3 "b" 15

abbrev pub log : List OperationLogRow
log = operation_1 ∷ operation_2 ∷ operation_3 ∷ []

abbrev pub claim_js : OutboxClaim
claim_js = record { owner = js; claimed_at = 100 }

abbrev pub claim_native : OutboxClaim
claim_native = record { owner = native; claimed_at = 101 }

abbrev pub change_a : RemoteAnimeChange
change_a = record {
  record_id = "a";
  change_type = update;
  changed_fields = "nombre" ∷ "carpeta" ∷ [];
  snapshot = some frieren_remote;
  timestamp = 9;
}

abbrev pub staged_a : PendingRemoteChange
staged_a = record { staging_id = 7; change = change_a; created_at = 9 }

abbrev pub database : Database
database = record {
  animes = animes;
  operation_log = log;
  pending_remote_changes = staged_a ∷ [];
  bridge_config = record { last_changelog_id = some 40; season_mode = false };
  next_operation_id = 4;
  next_staging_id = 8;
}
