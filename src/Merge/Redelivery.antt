-- ===== src/Merge/Redelivery.antt =====
-- A change that arrives twice (`merge-decision.helpers.ts`, `apply-remote-changes.helpers.ts`).
use autoreas_mobile.Prelude.{
  ℕ, String, ◌≡◌, refl, ◌≢◌, ◌⊎◌, ap, ◌∙◌, true, false, Option, none, some, List, [], ◌∷◌, arith,
  Bool-cases, inl, inr, is_empty,
}
use autoreas_mobile.Sql.{delete_where, delete_where_idem}
use autoreas_mobile.Database.{AnimeRow, Anime, JsonText, RemoteAnimeChange, ChangeType, create}
use autoreas_mobile.Database.Tables.{has_id, find_anime}
use autoreas_mobile.Database.Laws.{find-apply_anime_partial_self, find-upsert_anime_self}
use autoreas_mobile.Database.Upsert.{upsert_anime, set_optional_sync_columns}
use autoreas_mobile.Database.Tables.{set_columns}
use autoreas_mobile.Merge.Fields.{build_partial_update, is_stale}
use autoreas_mobile.Merge.Apply.{
  MergeDecision, apply, delete_row, drop_stale, defer_outbox, MergeContext, is_delete, decide_merge,
  load_guard_map, row_guard, apply_update, apply_snapshot, apply_accepted_change, apply_decision,
  apply_remote_changes,
}
use autoreas_mobile.Merge.Protection.{SnapshotMatches}

module _ (json : JsonText) where
  guard-upsert_anime :
      (anime : Anime) (ms : ℕ) (animes : List AnimeRow)
      → load_guard_map (upsert_anime json anime (some ms) none animes) anime.id ≡ some ms
  unfolding load_guard_map set_optional_sync_columns set_columns
  guard-upsert_anime anime ms animes =
      ap row_guard (find-upsert_anime_self json anime (some ms) none animes)

  -- An accepted change either writes nothing, or leaves its own timestamp as the record's guard.
  abbrev Settles : RemoteAnimeChange → List AnimeRow → List AnimeRow → Type 0
  Settles change animes after =
      (after ≡ animes) ⊎ (load_guard_map after change.record_id ≡ some change.timestamp)

  apply_update-Settles :
      (change : RemoteAnimeChange) (anime : Anime) (found : Option AnimeRow)
      (animes : List AnimeRow)
      → find_anime animes change.record_id ≡ found
      → anime.id ≡ change.record_id
      → Settles change animes (apply_update json change anime found animes).1
  unfolding apply_update
  apply_update-Settles change anime none animes found same =
      inr (rw (← same) (guard-upsert_anime anime change.timestamp animes))
  apply_update-Settles change anime (some row) animes found same =
      elim (Bool-cases (is_empty change.changed_fields)) [
        | inl unknown ↦ inl (rw unknown refl)
        | inr known ↦ inr (
            rw known (
              unfold load_guard_map in
              ap row_guard (
                find-apply_anime_partial_self animes change.record_id
                  (build_partial_update json change.changed_fields anime).columns change.timestamp
                  found)))
      ]

  apply_accepted_change-Settles :
      (change : RemoteAnimeChange) (snapshot : Option Anime) (type : ChangeType)
      (animes : List AnimeRow)
      → ((anime : Anime) → snapshot ≡ some anime → anime.id ≡ change.record_id)
      → Settles change animes (apply_snapshot json change snapshot type animes).1
  apply_accepted_change-Settles change none type animes same = inl refl
  apply_accepted_change-Settles change (some anime) create animes same =
      inr (rw (← same anime refl) (guard-upsert_anime anime change.timestamp animes))
  apply_accepted_change-Settles change (some anime) _ animes same =
      apply_update-Settles change anime (find_anime animes change.record_id) animes refl
        (same anime refl)

  abbrev pub context : List String → List AnimeRow → MergeContext
  context outbox animes = record {
    guard_by_record_id = load_guard_map animes;
    pending_outbox_record_ids = outbox;
  }

  -- The table after one change, decided against the guards stored in the table itself.
  abbrev pub after_one : RemoteAnimeChange → List String → List AnimeRow → List AnimeRow
  after_one change outbox animes =
      (apply_remote_changes json (change ∷ []) (context outbox animes) animes).1

  abbrev after_decision : MergeDecision → RemoteAnimeChange → List AnimeRow → List AnimeRow
  after_decision d change animes =
      (apply_decision json d change
        (record { applied = 0; dropped = 0; deferred = 0; rejected = 0 }) animes).1

  after_one-eq :
      (change : RemoteAnimeChange) (outbox : List String) (animes : List AnimeRow)
      (d : MergeDecision)
      → decide_merge change (context outbox animes) ≡ d
      → after_one change outbox animes ≡ after_decision d change animes
  unfolding apply_remote_changes
  after_one-eq change outbox animes d e = ap (λ x. after_decision x change animes) e

  -- Which decisions a change that is not a delete can meet.
  decide_merge-stale :
      (change : RemoteAnimeChange) (outbox : List String) (animes : List AnimeRow)
      → is_delete change.change_type ≡ false
      → is_stale change.timestamp (load_guard_map animes change.record_id) ≡ true
      → (decide_merge change (context outbox animes) ≡ defer_outbox)
        ⊎ (decide_merge change (context outbox animes) ≡ drop_stale)
  unfolding decide_merge
  decide_merge-stale change outbox animes kept stale = ground arith

  decide_merge-kept :
      (change : RemoteAnimeChange) (outbox : List String) (animes : List AnimeRow)
      → is_delete change.change_type ≡ false
      → (decide_merge change (context outbox animes) ≡ defer_outbox)
        ⊎ (decide_merge change (context outbox animes) ≡ drop_stale)
        ⊎ (decide_merge change (context outbox animes) ≡ apply)
  unfolding decide_merge
  decide_merge-kept change outbox animes kept = ground arith

  stale_writes_nothing :
      (change : RemoteAnimeChange) (outbox : List String) (animes : List AnimeRow)
      → is_delete change.change_type ≡ false
      → is_stale change.timestamp (load_guard_map animes change.record_id) ≡ true
      → after_one change outbox animes ≡ animes
  stale_writes_nothing change outbox animes kept stale =
      elim (decide_merge-stale change outbox animes kept stale) [
        | inl d ↦ after_one-eq change outbox animes defer_outbox d ∙ unfold apply_decision in refl
        | inr d ↦ after_one-eq change outbox animes drop_stale d ∙ unfold apply_decision in refl
      ]

  again_without_write :
      (change : RemoteAnimeChange) (outbox : List String) (animes : List AnimeRow)
      → is_delete change.change_type ≡ false
      → after_decision apply change animes ≡ animes
      → after_one change outbox animes ≡ animes
  again_without_write change outbox animes kept same =
      elim (decide_merge-kept change outbox animes kept) [
        | inl d ↦ after_one-eq change outbox animes defer_outbox d ∙ unfold apply_decision in refl
        | inr (inl d) ↦
            after_one-eq change outbox animes drop_stale d ∙ unfold apply_decision in refl
        | inr (inr d) ↦ after_one-eq change outbox animes apply d ∙ same
      ]

  stale_self : (ms : ℕ) (guard : Option ℕ) → guard ≡ some ms → is_stale ms guard ≡ true
  unfolding is_stale
  stale_self ms guard e = ground arith

  decide_merge-delete :
      (change : RemoteAnimeChange) (before later : MergeContext)
      → decide_merge change before ≡ delete_row
      → decide_merge change later ≡ delete_row
  unfolding decide_merge
  decide_merge-delete change before later e = ground arith

  decide_merge-apply :
      (change : RemoteAnimeChange) (ctx : MergeContext)
      → decide_merge change ctx ≡ apply
      → is_delete change.change_type ≡ false
  unfolding decide_merge
  decide_merge-apply change ctx e = ground arith

  decide_merge-drop :
      (change : RemoteAnimeChange) (outbox : List String) (animes : List AnimeRow)
      → decide_merge change (context outbox animes) ≡ drop_stale
      → (is_delete change.change_type ≡ false)
        × (is_stale change.timestamp (load_guard_map animes change.record_id) ≡ true)
  unfolding decide_merge
  decide_merge-drop change outbox animes e = ground arith

  module _ (change : RemoteAnimeChange) (matches : SnapshotMatches change)
      (outbox later : List String) where
    again_apply :
        (animes after : List AnimeRow)
        → is_delete change.change_type ≡ false
        → Settles change animes after
        → after_decision apply change animes ≡ after
        → after_one change later after ≡ after
    again_apply animes after kept (inl same) step =
        again_without_write change later after kept (ap (after_decision apply change) same ∙ step)
    again_apply animes after kept (inr guard) step =
        stale_writes_nothing change later after kept
          (stale_self change.timestamp (load_guard_map after change.record_id) guard)

    again :
        (animes : List AnimeRow) (d : MergeDecision)
        → decide_merge change (context outbox animes) ≡ d
        → d ≢ defer_outbox
        → after_one change later (after_decision d change animes) ≡ after_decision d change animes
    unfolding apply_decision
    again animes delete_row decided ran =
        let gone = delete_where (has_id change.record_id) animes in
        after_one-eq change later gone delete_row
          (decide_merge-delete change (context outbox animes) (context later gone) decided)
        ∙ delete_where_idem (has_id change.record_id) animes
    again animes apply decided ran =
        again_apply animes (after_decision apply change animes)
          (decide_merge-apply change (context outbox animes) decided)
          (unfold apply_accepted_change in
            apply_accepted_change-Settles change change.snapshot change.change_type animes matches)
          refl
    again animes drop_stale decided ran =
        let kept_stale = decide_merge-drop change outbox animes decided in
        stale_writes_nothing change later animes kept_stale.0 kept_stale.1
    again animes defer_outbox decided ran = absurd (ran refl)

    -- A change that was not deferred, and whose snapshot is of the record that it names, changes
    -- nothing when it is delivered once more: whatever the outbox holds by then, and whether the change was applied, dropped, rejected, skipped or a delete.
    pub redelivery_changes_nothing :
        (animes : List AnimeRow)
        → decide_merge change (context outbox animes) ≢ defer_outbox
        → after_one change later (after_one change outbox animes) ≡ after_one change outbox animes
    redelivery_changes_nothing animes ran =
        rw (after_one-eq change outbox animes (decide_merge change (context outbox animes)) refl)
          (again animes (decide_merge change (context outbox animes)) refl ran)
