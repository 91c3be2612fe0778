-- ===== src/Mutation/Write.antt =====
-- The stateful half of `anime-mutation.helpers.ts`: one write-door transaction for the row and the
-- outbox.
--
-- `AnimeSchema.parse` over `JSON.parse` (zod and the runtime) is the parameter `parse`, where `none`
-- is the error that it throws; `JSON.stringify` of the patch is the parameter `stringify`. A
-- transaction that throws is rolled back: the database is as it was. What a committed mutation sets
-- off after its transaction is listed as effects.
use autoreas_mobile.Prelude.{
  ℕ, ◌+◌, String, Bool, true, false, Option, none, some, List, [], ◌∷◌, ◌++◌, is_empty,
}
use autoreas_mobile.Sql.{update_where}
use autoreas_mobile.Database.{AnimeRow, Anime, Database, OperationLogRow, pending}
use autoreas_mobile.Database.Tables.{has_id, find_anime, set_columns}
use autoreas_mobile.Merge.Apply.{anime_update_operation}
use autoreas_mobile.Mutation.Patch.{
  AnimeMutationSyncPatch, to_local_anime_update, update_assignments,
}

-- The outcome of `applyAnimeMutationPatch`: its Boolean result, or the error that it rethrows.
pub data MutationOutcome : Type 0 where
  resolved : Bool → MutationOutcome
  threw : MutationOutcome

pub data MutationEffect : Type 0 where
  chapter_action_committed : MutationEffect
  sync_connection_invalidated : MutationEffect
  flush_requested : MutationEffect

pub record MutationResult : Type 0 where
  pub outcome : MutationOutcome
  pub db : Database
  pub effects : List MutationEffect

module _ (parse : AnimeRow → Option Anime) (stringify : AnimeMutationSyncPatch → String) where
  -- The UPDATE of one anime by a patch.
  unfoldable pub write_patch : String → AnimeMutationSyncPatch → List AnimeRow → List AnimeRow
  unfolding set_columns update_assignments to_local_anime_update
  write_patch id patch animes =
      update_where (has_id id) (set_columns (update_assignments (to_local_anime_update patch)))
        animes

  -- The row that `INSERT_OPERATION_SQL` appends, with the defaults of its other columns.
  unfoldable pub queued_operation : ℕ → String → AnimeMutationSyncPatch → ℕ → OperationLogRow
  queued_operation id anime_id patch now = record {
    id = id;
    anime_id = anime_id;
    operation = anime_update_operation;
    payload = stringify patch;
    status = pending;
    created_at = now;
    conflict_attempt_count = 0;
    claim_owner = none;
    claimed_at = none;
    unresolved_reason = none;
  }

  -- The body of the transaction once the anime is parsed.
  unfoldable pub mutate : Anime → AnimeMutationSyncPatch → ℕ → Database → Database
  unfolding write_patch queued_operation
  mutate anime patch now db = record db {
    animes = write_patch anime.id patch db.animes;
    operation_log =
        db.operation_log ++ queued_operation db.next_operation_id anime.id patch now ∷ [];
    next_operation_id = db.next_operation_id + 1;
  }

  abbrev pub committed_effects : Bool → List MutationEffect
  committed_effects true =
      chapter_action_committed ∷ sync_connection_invalidated ∷ flush_requested ∷ []
  committed_effects false = sync_connection_invalidated ∷ flush_requested ∷ []

  -- An UPDATE whose SET list is empty is no statement: it throws, and the transaction is rolled back.
  abbrev pub mutate_updated :
      Anime → AnimeMutationSyncPatch → ℕ → Bool → Database → Bool → MutationResult
  mutate_updated anime patch now has_context db true = record {
    outcome = threw;
    db = db;
    effects = [];
  }
  mutate_updated anime patch now has_context db false = record {
    outcome = resolved true;
    db = mutate anime patch now db;
    effects = committed_effects has_context;
  }

  abbrev pub mutate_parsed :
      (Anime → ℕ → AnimeMutationSyncPatch) → ℕ → Bool → Database → Option Anime → MutationResult
  mutate_parsed build_patch now has_context db none = record {
    outcome = threw;
    db = db;
    effects = [];
  }
  mutate_parsed build_patch now has_context db (some anime) =
      let patch = build_patch anime now in
      mutate_updated anime patch now has_context db
        (is_empty (update_assignments (to_local_anime_update patch)))

  abbrev pub mutate_found :
      (Anime → ℕ → AnimeMutationSyncPatch) → ℕ → Bool → Database → Option AnimeRow → MutationResult
  mutate_found build_patch now has_context db none = record {
    outcome = resolved false;
    db = db;
    effects = [];
  }
  mutate_found build_patch now has_context db (some row) =
      mutate_parsed build_patch now has_context db (parse row)

  -- `applyAnimeMutationPatch`; `has_context` says that an `actionContext` is given.
  unfoldable pub apply_anime_mutation_patch :
      String → (Anime → ℕ → AnimeMutationSyncPatch) → ℕ → Bool → Database → MutationResult
  unfolding mutate
  apply_anime_mutation_patch anime_id build_patch now has_context db =
      mutate_found build_patch now has_context db (find_anime db.animes anime_id)
