-- ===== src/Visible.antt =====
-- `src/features/sync/sync-visible-status.helpers.ts`: what the screens say of the sync.
--
-- How a template writes a number is the parameter `digits`. `undefined` and `null` are both `none`:
-- the code only compares with `false`.
pub mod Recency
pub mod Tone
use Prim.Native.String.{◌++◌}
use autoreas_mobile.Prelude.{
  ℕ, ◌-◌, ◌*◌, ◌/◌, String, Bool, true, false, ◌&&◌, ◌||◌, Option, none, some, nat_eq, ltb, leb,
  if◌then◌else◌,
}
use autoreas_mobile.Connection.{
  SyncFacadeConnectionStatus, of_store, reachable, idle, syncing, online, unreachable, sync_error,
}

pub data SyncVisibleStatusTone : Type 0 where
  default accent success warning danger : SyncVisibleStatusTone

-- The kinds `idle` and `syncing` are `nothing_pending` and `sending`: the connection has those names.
pub data SyncVisibleStatusKind : Type 0 where
  local offline nothing_pending queued waiting stale sending synced rejected : SyncVisibleStatusKind

pub record SyncVisibleStatusFacts : Type 0 where
  pub connection_status : SyncFacadeConnectionStatus
  pub is_bridge_configured : Option Bool
  pub is_device_online : Option Bool
  pub last_sync_at : Option ℕ
  pub pending_ops_count : ℕ

pub record SyncVisibleStatus : Type 0 where
  pub chip_label : String
  pub description : String
  pub kind : SyncVisibleStatusKind
  pub title : String
  pub tone : SyncVisibleStatusTone

abbrev pub sync_visible_status_stale_warning_hours : ℕ
sync_visible_status_stale_warning_hours = 72

abbrev pub sync_visible_status_minute_ms : ℕ
sync_visible_status_minute_ms = 60 * 1000

abbrev pub sync_visible_status_hour_ms : ℕ
sync_visible_status_hour_ms = 60 * sync_visible_status_minute_ms

abbrev pub sync_visible_status_day_ms : ℕ
sync_visible_status_day_ms = 24 * sync_visible_status_hour_ms

-- `=== false`
abbrev pub is_false : Option Bool → Bool
is_false none = false
is_false (some true) = false
is_false (some false) = true

abbrev pub is_syncing : SyncFacadeConnectionStatus → Bool
is_syncing (of_store syncing) = true
is_syncing (of_store idle) = false
is_syncing (of_store online) = false
is_syncing (of_store unreachable) = false
is_syncing (of_store sync_error) = false
is_syncing reachable = false

abbrev pub is_online : SyncFacadeConnectionStatus → Bool
is_online (of_store online) = true
is_online (of_store idle) = false
is_online (of_store syncing) = false
is_online (of_store unreachable) = false
is_online (of_store sync_error) = false
is_online reachable = false

abbrev pub is_sync_error : SyncFacadeConnectionStatus → Bool
is_sync_error (of_store sync_error) = true
is_sync_error (of_store idle) = false
is_sync_error (of_store syncing) = false
is_sync_error (of_store online) = false
is_sync_error (of_store unreachable) = false
is_sync_error reachable = false

abbrev pub is_reachable : SyncFacadeConnectionStatus → Bool
is_reachable reachable = true
is_reachable (of_store kind) = false

-- `isManualSyncAvailableNow`
unfoldable pub is_manual_sync_available_now : SyncVisibleStatusFacts → Bool
is_manual_sync_available_now facts =
    if is_false facts.is_device_online
    then false
    else if is_false facts.is_bridge_configured
    then false
    else if is_syncing facts.connection_status
    then false
    else true

-- `getElapsedSinceLastSync`: the subtraction stops at 0, as `Math.max` makes it.
unfoldable pub get_elapsed_since_last_sync : Option ℕ → ℕ → Option ℕ
get_elapsed_since_last_sync none now = none
get_elapsed_since_last_sync (some last) now = some (now - last)

-- `isBridgeKnownReachable`
unfoldable pub is_bridge_known_reachable : SyncVisibleStatusFacts → Bool
is_bridge_known_reachable facts =
    is_online facts.connection_status || is_reachable facts.connection_status

-- `buildWillBeSentVerb`
unfoldable pub build_will_be_sent_verb : ℕ → String
build_will_be_sent_verb count = if nat_eq count 1 then "Se enviará" else "Se enviarán"

module _ (digits : ℕ → String) where
  -- `buildSavedChangesPhrase`
  unfoldable pub build_saved_changes_phrase : ℕ → String
  build_saved_changes_phrase count =
      if nat_eq count 1 then "1 cambio guardado" else digits count ++ " cambios guardados"

  abbrev pub days_recency : ℕ → String
  days_recency days = if nat_eq days 1 then "hace 1 día" else "hace " ++ digits days ++ " días"

  abbrev pub hours_recency : ℕ → String
  hours_recency hours =
      if ltb hours 24
      then if nat_eq hours 1 then "hace 1 h" else "hace " ++ digits hours ++ " h"
      else days_recency (hours / 24)

  abbrev pub minutes_recency : ℕ → String
  minutes_recency minutes =
      if ltb minutes 1
      then "hace un momento"
      else if ltb minutes 60
      then "hace " ++ digits minutes ++ " min"
      else hours_recency (minutes / 60)

  abbrev pub elapsed_recency : Option ℕ → Option String
  elapsed_recency none = none
  elapsed_recency (some elapsed) = some (minutes_recency (elapsed / sync_visible_status_minute_ms))

  -- `formatLastSyncRecency`; no text that it gives is empty, so that each is truthy.
  unfoldable pub format_last_sync_recency : Option ℕ → ℕ → Option String
  unfolding get_elapsed_since_last_sync
  format_last_sync_recency last now = elapsed_recency (get_elapsed_since_last_sync last now)

  abbrev pub recency_or : String → Option String → String
  recency_or otherwise none = otherwise
  recency_or otherwise (some recency) = "Último sync " ++ recency ++ "."

  -- `deriveNoPendingSyncStatus`
  unfoldable pub derive_no_pending_sync_status : SyncVisibleStatusFacts → ℕ → SyncVisibleStatus
  unfolding format_last_sync_recency is_bridge_known_reachable
  derive_no_pending_sync_status facts now =
      if is_false facts.is_bridge_configured
      then record {
        chip_label = "Modo local";
        description =
            "La app funciona igual con tu catálogo en este dispositivo. Empareja una PC para tener una copia allí.";
        kind = local;
        title = "Sin PC emparejada";
        tone = default;
      }
      else if is_false facts.is_device_online
      then record {
        chip_label = "Sin Wi-Fi";
        description = "Tu catálogo sigue disponible en este dispositivo.";
        kind = offline;
        title = "Sin Wi-Fi";
        tone = default;
      }
      else record {
        chip_label = "Nada por enviar";
        description =
            recency_or
              (if is_bridge_known_reachable facts
                then "El Bridge está conectado."
                else "La PC todavía no respondió.")
              (format_last_sync_recency facts.last_sync_at now);
        kind = nothing_pending;
        title = "Nada por enviar";
        tone = default;
      }

  -- `deriveStaleBacklogStatus`
  unfoldable pub derive_stale_backlog_status : ℕ → ℕ → SyncVisibleStatus
  derive_stale_backlog_status count elapsed = record {
    chip_label = "Esperando a la PC";
    description =
        (if nat_eq count 1
          then "Tu cambio sigue guardado en este dispositivo, pero la PC no lo ha recibido."
          else "Tus "
            ++ digits count
            ++ " cambios siguen guardados en este dispositivo, pero la PC no los ha recibido.")
        ++ " ¿Está encendida y en la misma red?";
    kind = stale;
    title = "Hace " ++ digits (elapsed / sync_visible_status_day_ms) ++ " días que no hay sync";
    tone = warning;
  }

  abbrev pub stale_or_waiting : SyncVisibleStatus → ℕ → Option ℕ → SyncVisibleStatus
  unfolding derive_stale_backlog_status
  stale_or_waiting waits count none = waits
  stale_or_waiting waits count (some elapsed) =
      if leb (sync_visible_status_stale_warning_hours * sync_visible_status_hour_ms) elapsed
      then derive_stale_backlog_status count elapsed
      else waits

  -- `derivePendingSyncStatus`
  unfoldable pub derive_pending_sync_status : SyncVisibleStatusFacts → ℕ → SyncVisibleStatus
  unfolding get_elapsed_since_last_sync is_bridge_known_reachable build_saved_changes_phrase
      build_will_be_sent_verb derive_stale_backlog_status
  derive_pending_sync_status facts now =
      let count = facts.pending_ops_count in
      let saved_changes = build_saved_changes_phrase count in
      let will_be_sent = build_will_be_sent_verb count in
      if is_false facts.is_bridge_configured
      then record {
        chip_label = "Modo local";
        description = "Empareja una PC para tener una copia allí.";
        kind = local;
        title = saved_changes ++ " en este dispositivo";
        tone = default;
      }
      else if is_false facts.is_device_online
      then record {
        chip_label = "Sin Wi-Fi";
        description =
            "Tienes " ++ saved_changes ++ " en este dispositivo. " ++ will_be_sent
            ++ " cuando vuelvas a conectarte.";
        kind = offline;
        title = "Sin Wi-Fi";
        tone = default;
      }
      else if is_bridge_known_reachable facts
      then record {
        chip_label = "Por enviar";
        description =
            "Tienes " ++ saved_changes ++ " en este dispositivo. " ++ will_be_sent
            ++ " en el próximo sync.";
        kind = queued;
        title = "Bridge conectado";
        tone = default;
      }
      else stale_or_waiting
          (record {
            chip_label = "Esperando a la PC";
            description =
                "Tienes "
                ++ saved_changes
                ++ " en este dispositivo. "
                ++ will_be_sent
                ++ " "
                ++ (if nat_eq count 1 then "solo" else "solos")
                ++ " cuando la PC esté encendida.";
            kind = waiting;
            title = "Esperando a la PC";
            tone = default;
          })
          count (get_elapsed_since_last_sync facts.last_sync_at now)

  -- `deriveVisibleSyncStatus`
  unfoldable pub derive_visible_sync_status : SyncVisibleStatusFacts → ℕ → SyncVisibleStatus
  unfolding format_last_sync_recency derive_no_pending_sync_status derive_pending_sync_status
  derive_visible_sync_status facts now =
      if is_syncing facts.connection_status
      then record {
        chip_label = "Sincronizando";
        description = "Enviando tus cambios a la PC.";
        kind = sending;
        title = "Sincronizando";
        tone = accent;
      }
      else if is_online facts.connection_status && nat_eq facts.pending_ops_count 0
      then record {
        chip_label = "Al día";
        description =
            recency_or "Todo lo que cambiaste ya está en la PC."
              (format_last_sync_recency facts.last_sync_at now);
        kind = synced;
        title = "Al día";
        tone = success;
      }
      else if is_sync_error facts.connection_status
      then record {
        chip_label = "Envío rechazado";
        description =
            "La PC respondió, pero rechazó el envío. Tus cambios siguen guardados en este dispositivo.";
        kind = rejected;
        title = "La PC no aceptó tus cambios";
        tone = danger;
      }
      else if nat_eq facts.pending_ops_count 0
      then derive_no_pending_sync_status facts now
      else derive_pending_sync_status facts now
