-- ===== src/Tests/Mutation.antt =====
-- Witnesses of the chapter gestures: Cap+ on an anime at chapter two.
use autoreas_mobile.Prelude.{
  ◌+◌, ◌*◌, ◌≡◌, ◌≢◌, refl, true, false, is_empty, String, Option, none, some, [], ◌∷◌, ◌++◌, ◌==◌,
  arith, if◌then◌else◌,
}
use autoreas_mobile.Database.{Anime, AnimeRow, pending}
use autoreas_mobile.Sql.{select_first}
use autoreas_mobile.Database.Tables.{find_anime}
use autoreas_mobile.Merge.Apply.{apply_remote_changes}
use autoreas_mobile.Drain.{pass_context}
use autoreas_mobile.Mutation.Patch.{
  update_assignments, to_local_anime_update, AnimeMutationSyncPatch, build_cap_plus_patch,
  build_cap_minus_patch,
}
use autoreas_mobile.Mutation.Chapters.{after, cap_plus-cap_minus, cap_plus_overshoots}
use autoreas_mobile.Mutation.Write.{resolved, apply_anime_mutation_patch}
use autoreas_mobile.Mutation.Stored.{patched_row, HoldsPatch}
use autoreas_mobile.Mutation.Durable.{committed_mutation_is_whole, gesture_survives_remote_changes}
use autoreas_mobile.Tests.Data.{json, frieren, animes, row_a, database, change_a}
use autoreas_mobile.Tests.Merge.{change_a-Spares}

abbrev parse : AnimeRow → Option Anime
parse row = if row.id == "a" then some frieren else none

abbrev stringify : AnimeMutationSyncPatch → String
stringify patch = "{}"

cap_plus-cap_minus_example :
    let plus = after (build_cap_plus_patch frieren 7) frieren in
    let back = after (build_cap_minus_patch plus 8) plus in
    (back.nrocapvisto ≡ 4) × (back.estado ≡ 0)
cap_plus-cap_minus_example = cap_plus-cap_minus frieren 7 8 refl

abbrev half_below : Anime
half_below = record frieren { nrocapvisto = 55 }

cap_plus_overshoots_example :
    ((after (build_cap_plus_patch half_below 7) half_below).nrocapvisto ≡ 2 * 28 + 1)
    × ((build_cap_plus_patch half_below 7).status ≡ none)
cap_plus_overshoots_example = cap_plus_overshoots half_below 7 8 28 refl (omega arith) refl

unknown_fails :
    (apply_anime_mutation_patch parse stringify "z" build_cap_plus_patch 7 true database).outcome
    ≢ resolved true
unfolding apply_anime_mutation_patch find_anime select_first
unknown_fails e = ground (arith, e)

found_a : find_anime animes "a" ≡ some row_a
unfolding find_anime select_first
found_a = refl

plus_writes :
    is_empty (update_assignments (to_local_anime_update (build_cap_plus_patch frieren 7))) ≡ false
unfolding update_assignments to_local_anime_update build_cap_plus_patch
plus_writes = refl

committed_mutation_is_whole_example :
    let r = apply_anime_mutation_patch parse stringify "a" build_cap_plus_patch 7 true database in
    (r.outcome ≡ resolved true)
    × ((after : AnimeRow) × (find_anime r.db.animes "a" ≡ some after)
        × HoldsPatch (build_cap_plus_patch frieren 7) row_a after)
    × ((id : String) → id ≢ "a" → find_anime r.db.animes id ≡ find_anime database.animes id)
    × (r.db.operation_log
        ≡ database.operation_log
          ++ (record {
            id = 4;
            anime_id = "a";
            operation = "update";
            payload = "{}";
            status = pending;
            created_at = 7;
            conflict_attempt_count = 0;
            claim_owner = none;
            claimed_at = none;
            unresolved_reason = none;
          })
            ∷ [])
committed_mutation_is_whole_example =
    committed_mutation_is_whole parse stringify build_cap_plus_patch 7 true database "a" row_a
      frieren found_a refl refl plus_writes

gesture_survives_remote_changes_example :
    let r = apply_anime_mutation_patch parse stringify "a" build_cap_plus_patch 7 true database in
    find_anime
      (apply_remote_changes json
        (change_a ∷ [])
        (pass_context r.db.animes r.db.operation_log)
        r.db.animes).1
      "a"
    ≡ some (patched_row (build_cap_plus_patch frieren 7) row_a)
gesture_survives_remote_changes_example =
    gesture_survives_remote_changes parse stringify build_cap_plus_patch 7 true database "a" row_a
      frieren found_a refl refl plus_writes json (change_a ∷ []) (change_a-Spares, tt)
