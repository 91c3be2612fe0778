-- ===== src/Mutation/Durable.antt =====
-- A chapter gesture and the database (`anime-mutation.helpers.ts`, `use-mutate-anime.ts`): it is
-- stored whole or not at all, stores what the card shows, and is safe from remote changes.
use autoreas_mobile.Prelude.{
  ℕ, String, ◌≡◌, refl, ◌≢◌, ap, ◌∙◌, Bool, true, false, is_empty, sym, ◌&&◌, Option, none, some,
  List, [], ◌∷◌, ◌++◌, ◌==◌, All, contains, arith, eq_refl, inl, Elem-filterb, Elem-map, Elem-any,
  Elem-append_right, if◌then◌else◌,
}
use autoreas_mobile.Sql.{}
use autoreas_mobile.Database.{
  AnimeRow, Anime, Database, JsonText, OperationLogRow, pending, RemoteAnimeChange, Value, num,
}
use autoreas_mobile.Database.Tables.{find_anime, set_columns, column, or_cell}
use autoreas_mobile.Database.Laws.{find-update_self, find-update_other}
use autoreas_mobile.Merge.Apply.{
  anime_update_operation, load_pending_outbox_record_ids, is_unconfirmed, apply_remote_changes,
}
use autoreas_mobile.Merge.Protection.{Spares, apply_remote_changes-protects}
use autoreas_mobile.Drain.{pass_context}
use autoreas_mobile.Mutation.Patch.{
  AnimeMutationSyncPatch, AnimeLocalUpdate, to_local_anime_update, update_assignments,
  projected_fields, build_set_estado_patch,
}
use autoreas_mobile.Mutation.Stored.{patched_row, HoldsPatch, patched_row-HoldsPatch}
use autoreas_mobile.Mutation.Write.{
  resolved, MutationResult, write_patch, queued_operation, mutate, mutate_found, mutate_parsed,
  mutate_updated, committed_effects, apply_anime_mutation_patch,
}

module _ (parse : AnimeRow → Option Anime) (stringify : AnimeMutationSyncPatch → String) where
  module _ (build_patch : Anime → ℕ → AnimeMutationSyncPatch) (now : ℕ) (has_context : Bool) where
    uncommitted_updated :
        (db : Database) (anime : Anime) (patch : AnimeMutationSyncPatch) (empty : Bool)
        → (mutate_updated parse stringify anime patch now has_context db empty).outcome
          ≢ resolved true
        → mutate_updated parse stringify anime patch now has_context db empty ≡ record {
          outcome = (mutate_updated parse stringify anime patch now has_context db empty).outcome;
          db = db;
          effects = [];
        }
    uncommitted_updated db anime patch true failed = refl
    uncommitted_updated db anime patch false failed = absurd (failed refl)

    -- The effects of a gesture are those of a committed one, or there are none.
    uncommitted_parsed :
        (db : Database) (o : Option Anime)
        → (mutate_parsed parse stringify build_patch now has_context db o).outcome ≢ resolved true
        → mutate_parsed parse stringify build_patch now has_context db o ≡ record {
          outcome = (mutate_parsed parse stringify build_patch now has_context db o).outcome;
          db = db;
          effects = [];
        }
    uncommitted_parsed db none failed = refl
    uncommitted_parsed db (some anime) failed =
        let patch = build_patch anime now in
        uncommitted_updated db anime patch
          (is_empty (update_assignments (to_local_anime_update patch))) failed

    uncommitted_found :
        (db : Database) (o : Option AnimeRow)
        → (mutate_found parse stringify build_patch now has_context db o).outcome ≢ resolved true
        → mutate_found parse stringify build_patch now has_context db o ≡ record {
          outcome = (mutate_found parse stringify build_patch now has_context db o).outcome;
          db = db;
          effects = [];
        }
    uncommitted_found db none failed = refl
    uncommitted_found db (some row) failed = uncommitted_parsed db (parse row) failed

    -- A gesture that does not commit, because the row is absent or does not parse, leaves the
    -- database as it was and sets nothing off.
    pub uncommitted_mutation_changes_nothing :
        (db : Database) (anime_id : String)
        → (apply_anime_mutation_patch parse stringify anime_id build_patch now has_context
            db).outcome
          ≢ resolved true
        → let r =
            apply_anime_mutation_patch parse stringify anime_id build_patch now has_context db in
          (r.db ≡ db) × (r.effects ≡ [])
    unfolding apply_anime_mutation_patch
    uncommitted_mutation_changes_nothing db anime_id failed =
        let same = uncommitted_found db (find_anime db.animes anime_id) failed in
        (ap (λ (r : MutationResult). r.db) same, ap (λ (r : MutationResult). r.effects) same)

    module _ (db : Database) (anime_id : String) (row : AnimeRow) (anime : Anime)
        (found : find_anime db.animes anime_id ≡ some row) (parsed : parse row ≡ some anime)
        (same_id : anime.id ≡ anime_id)
        (writes : is_empty (update_assignments (to_local_anime_update (build_patch anime now)))
          ≡ false) where
      abbrev pub committed : MutationResult
      committed = apply_anime_mutation_patch parse stringify anime_id build_patch now has_context db

      abbrev pub patch : AnimeMutationSyncPatch
      patch = build_patch anime now

      committed-eq : committed ≡ record {
        outcome = resolved true;
        db = mutate parse stringify anime patch now db;
        effects = committed_effects parse stringify has_context;
      }
      unfolding apply_anime_mutation_patch
      committed-eq =
          ap (mutate_found parse stringify build_patch now has_context db) found
          ∙ ap (mutate_parsed parse stringify build_patch now has_context db) parsed
          ∙ ap (mutate_updated parse stringify anime patch now has_context db) writes

      find_mutated :
          find_anime (mutate parse stringify anime patch now db).animes anime_id
          ≡ some (patched_row patch row)
      unfolding mutate
      find_mutated =
          ap (λ i. find_anime (write_patch parse stringify i patch db.animes) anime_id) same_id
          ∙ find-update_self db.animes anime_id
              (set_columns (update_assignments (to_local_anime_update patch))) (λ r. refl) found

      log_mutated :
          (mutate parse stringify anime patch now db).operation_log
          ≡ db.operation_log
            ++ queued_operation parse stringify db.next_operation_id anime_id patch now ∷ []
      unfolding mutate
      log_mutated =
          ap
            (λ i.
              db.operation_log
              ++ queued_operation parse stringify db.next_operation_id i patch now ∷ [])
            same_id

      stored_and_queued :
          (find_anime committed.db.animes anime_id ≡ some (patched_row patch row))
          × (committed.db.operation_log
              ≡ db.operation_log
                ++ queued_operation parse stringify db.next_operation_id anime_id patch now ∷ [])
      stored_and_queued = (
        ap (λ (r : MutationResult). find_anime r.db.animes anime_id) committed-eq ∙ find_mutated,
        ap (λ (r : MutationResult). r.db.operation_log) committed-eq ∙ log_mutated,
      )

      other_animes_stay :
          (id : String)
          → id ≢ anime_id
          → find_anime committed.db.animes id ≡ find_anime db.animes id
      unfolding mutate write_patch
      other_animes_stay id ne =
          ap (λ (r : MutationResult). find_anime r.db.animes id) committed-eq
          ∙ find-update_other db.animes id anime.id _ (λ e. ne (sym e ∙ same_id)) (λ r. refl)

      -- A gesture on a stored anime whose row parses, to an anime with that same id, with a patch that
      -- is not empty, is stored whole. The call resolves to true. The row has each of the five values
      -- that the patch gives, in its own column, the first cycle as 1 or 0, and every other column, the
      -- guard and the token as they were; the rows of other animes are as they were. The outbox ends in
      -- one operation more: an unclaimed pending update of the anime with that patch.
      pub committed_mutation_is_whole :
          (committed.outcome ≡ resolved true)
          × ((after : AnimeRow) × (find_anime committed.db.animes anime_id ≡ some after)
              × HoldsPatch patch row after)
          × ((id : String)
              → id ≢ anime_id
              → find_anime committed.db.animes id ≡ find_anime db.animes id)
          × (committed.db.operation_log
              ≡ db.operation_log
                ++ (record {
                  id = db.next_operation_id;
                  anime_id = anime_id;
                  operation = "update";
                  payload = stringify patch;
                  status = pending;
                  created_at = now;
                  conflict_attempt_count = 0;
                  claim_owner = none;
                  claimed_at = none;
                  unresolved_reason = none;
                })
                  ∷ [])
      unfolding queued_operation
      committed_mutation_is_whole = (
        ap (λ (r : MutationResult). r.outcome) committed-eq,
        (patched_row patch row, stored_and_queued.0, patched_row-HoldsPatch patch row),
        other_animes_stay,
        stored_and_queued.1,
      )

      -- The anime of the gesture now counts as having an unconfirmed local edit.
      queued_is_pending :
          contains (load_pending_outbox_record_ids committed.db.operation_log) anime_id ≡ true
      unfolding load_pending_outbox_record_ids queued_operation
      queued_is_pending =
          let queued = queued_operation parse stringify db.next_operation_id anime_id patch now in
          rw stored_and_queued.1 (
            Elem-any _ anime_id _
              (Elem-map (λ (r : OperationLogRow). r.anime_id) queued _
                (Elem-filterb
                  (λ r. (r.operation == anime_update_operation) && is_unconfirmed r.status) queued
                  (db.operation_log ++ queued ∷ [])
                  (Elem-append_right queued db.operation_log (queued ∷ []) (inl refl)) refl))
              (eq_refl anime_id))

      -- Offline first: after a gesture on a stored anime whose row parses, to an anime with that same
      -- id, whatever remote changes arrive, in any order, the anime keeps the row that the gesture stored, unless one of them deletes it or
      -- carries another record's snapshot.
      pub gesture_survives_remote_changes :
          (json : JsonText) (changes : List RemoteAnimeChange)
          → All (Spares json anime_id) changes
          → find_anime
              (apply_remote_changes json changes
                (pass_context committed.db.animes committed.db.operation_log)
                committed.db.animes).1
              anime_id
            ≡ some (patched_row patch row)
      gesture_survives_remote_changes json changes spared =
          apply_remote_changes-protects json anime_id
            (pass_context committed.db.animes committed.db.operation_log) queued_is_pending changes
            committed.db.animes spared
          ∙ stored_and_queued.0

-- The columns of the local update, one by one.
column-nrocapvisto :
    (u : AnimeLocalUpdate) (v : Value)
    → or_cell (column (update_assignments u) "nrocapvisto") v
      ≡ or_cell (elim u.nrocapvisto [ none ↦ none | some n ↦ some (num n) ]) v
unfolding update_assignments column
column-nrocapvisto u v = ground arith

column-estado :
    (u : AnimeLocalUpdate) (v : Value)
    → or_cell (column (update_assignments u) "estado") v
      ≡ or_cell (elim u.estado [ none ↦ none | some n ↦ some (num n) ]) v
unfolding update_assignments column
column-estado u v = ground arith

module _ (row : AnimeRow) (anime : Anime) where
  -- A card shows what the write stores: where the parsed anime has the row's chapters and state, the
  -- row that a patch leaves holds the two values that the patch was projected to.
  pub stored_is_shown :
      (patch : AnimeMutationSyncPatch)
      → row.cell "nrocapvisto" ≡ num anime.nrocapvisto
      → row.cell "estado" ≡ num anime.estado
      → ((patched_row patch row).cell "nrocapvisto"
          ≡ num (projected_fields patch anime).nrocapvisto)
        × ((patched_row patch row).cell "estado" ≡ num (projected_fields patch anime).estado)
  unfolding projected_fields set_columns to_local_anime_update
  stored_is_shown patch chapters state = (
    rw (column-nrocapvisto (to_local_anime_update patch) (row.cell "nrocapvisto")) (ground arith),
    rw (column-estado (to_local_anime_update patch) (row.cell "estado")) (ground arith),
  )

  -- A manual state change writes `estado` and no other column.
  pub set_estado_writes_estado :
      (estado : ℕ) (k : String)
      → (patched_row (build_set_estado_patch estado) row).cell k
        ≡ (if "estado" == k then num estado else row.cell k)
  unfolding build_set_estado_patch to_local_anime_update update_assignments set_columns column
  set_estado_writes_estado estado k = ground arith
