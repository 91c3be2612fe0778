-- ===== src/Runtime.antt =====
-- `src/features/sync/sync-runtime-status-patch.helpers.ts` and the merge of
-- `sync-runtime-status.helpers.ts`: the telemetry of the last cycle.
--
-- In a patch `none` is `undefined`, a column that it does not mention; `some none` clears one.
use autoreas_mobile.Prelude.{ℕ, String, Bool, false, Option, none, some, get_or}

pub data SyncRuntimeRegistrationStatus : Type 0 where
  is_registered is_unregistered is_unsupported : SyncRuntimeRegistrationStatus

pub data SyncExecutionMode : Type 0 where
  best_effort_background_task android_foreground_service : SyncExecutionMode

pub record SyncRuntimeStatusSnapshot : Type 0 where
  pub registration_status : SyncRuntimeRegistrationStatus
  pub execution_mode : SyncExecutionMode
  pub can_show_persistent_notification : Bool
  pub last_attempt_at : Option ℕ
  pub last_success_at : Option ℕ
  pub last_cycle_id : Option String
  pub last_cycle_stage : Option String
  pub last_error_name : Option String

pub record SyncRuntimeStatusPatch : Type 0 where
  pub registration_status : Option SyncRuntimeRegistrationStatus
  pub execution_mode : Option SyncExecutionMode
  pub can_show_persistent_notification : Option Bool
  pub last_attempt_at : Option (Option ℕ)
  pub last_success_at : Option (Option ℕ)
  pub last_cycle_id : Option (Option String)
  pub last_cycle_stage : Option (Option String)
  pub last_error_name : Option (Option String)

-- `DEFAULT_SYNC_RUNTIME_STATUS_SNAPSHOT`
abbrev pub default_sync_runtime_status_snapshot : SyncRuntimeStatusSnapshot
default_sync_runtime_status_snapshot = record {
  registration_status = is_unregistered;
  execution_mode = best_effort_background_task;
  can_show_persistent_notification = false;
  last_attempt_at = none;
  last_success_at = none;
  last_cycle_id = none;
  last_cycle_stage = none;
  last_error_name = none;
}

-- What each patch of an attempt mentions.
abbrev attempt_patch : ℕ → Option (Option ℕ) → Option String → SyncRuntimeStatusPatch
attempt_patch attempted_at success_at stage = record {
  registration_status = none;
  execution_mode = none;
  can_show_persistent_notification = none;
  last_attempt_at = some (some attempted_at);
  last_success_at = success_at;
  last_cycle_id = some none;
  last_cycle_stage = some stage;
  last_error_name = some none;
}

-- `buildSyncAttemptStartedPatch`
unfoldable pub build_sync_attempt_started_patch : ℕ → SyncRuntimeStatusPatch
build_sync_attempt_started_patch attempted_at =
    attempt_patch attempted_at none (some "attempt_started")

-- `buildSyncAttemptSucceededPatch`
unfoldable pub build_sync_attempt_succeeded_patch : ℕ → SyncRuntimeStatusPatch
build_sync_attempt_succeeded_patch attempted_at =
    attempt_patch attempted_at (some (some attempted_at)) (some "closed")

-- `buildSyncAttemptFailedPatch`
unfoldable pub build_sync_attempt_failed_patch : ℕ → SyncRuntimeStatusPatch
build_sync_attempt_failed_patch attempted_at = attempt_patch attempted_at none none

-- `withPatchOverride`; `withColumnDefault` is `get_or`.
unfoldable pub with_patch_override {ℓ} : {A : Type ℓ} → Option (Option A) → Option A → Option A
with_patch_override none current = current
with_patch_override (some value) current = value

-- `mergeSyncRuntimeStatusPatch`
unfoldable pub merge_sync_runtime_status_patch :
    SyncRuntimeStatusSnapshot → SyncRuntimeStatusPatch → SyncRuntimeStatusSnapshot
unfolding with_patch_override
merge_sync_runtime_status_patch current patch = record {
  registration_status = get_or patch.registration_status current.registration_status;
  execution_mode = get_or patch.execution_mode current.execution_mode;
  can_show_persistent_notification =
      get_or patch.can_show_persistent_notification current.can_show_persistent_notification;
  last_attempt_at = with_patch_override patch.last_attempt_at current.last_attempt_at;
  last_success_at = with_patch_override patch.last_success_at current.last_success_at;
  last_cycle_id = with_patch_override patch.last_cycle_id current.last_cycle_id;
  last_cycle_stage = with_patch_override patch.last_cycle_stage current.last_cycle_stage;
  last_error_name = with_patch_override patch.last_error_name current.last_error_name;
}
