-- ===== src/Merge/Counts.antt =====
-- The summary that `applyRemoteChanges` returns (`apply-remote-changes.helpers.ts`).
use autoreas_mobile.Prelude.{
  ℕ, ◌+◌, ◌≡◌, refl, false, Option, none, some, List, [], ◌∷◌, All, length, arith, ◌≢◌,
}
use autoreas_mobile.Database.{AnimeRow, Anime, JsonText, RemoteAnimeChange, ChangeType, create}
use autoreas_mobile.Database.Tables.{find_anime}
use autoreas_mobile.Merge.Apply.{
  MergeDecision, apply, delete_row, drop_stale, defer_outbox, MergeContext, is_delete, decide_merge,
  ApplyRemoteChangesResult, skipped, apply_update, apply_snapshot, apply_accepted_change,
  apply_decision, apply_from, apply_remote_changes,
}

abbrev pub total : ApplyRemoteChangesResult → ℕ
total r = r.applied + r.dropped + r.deferred + r.rejected

module _ (json : JsonText) (ctx : MergeContext) where
  -- A delete is counted with or without a snapshot; a create or an update needs one.
  abbrev pub HasSnapshot : RemoteAnimeChange → Type 0
  HasSnapshot change = is_delete change.change_type ≡ false → change.snapshot ≢ none

  decide_merge-not_delete :
      (change : RemoteAnimeChange)
      → decide_merge change ctx ≡ apply
      → is_delete change.change_type ≡ false
  unfolding decide_merge
  decide_merge-not_delete change e = ground arith

  apply_update_not_skipped :
      (change : RemoteAnimeChange) (anime : Anime) (found : Option AnimeRow)
      (animes : List AnimeRow)
      → (apply_update json change anime found animes).0 ≢ skipped
  unfolding apply_update
  apply_update_not_skipped change anime none animes = ground arith
  apply_update_not_skipped change anime (some row) animes = ground arith

  apply_snapshot_not_skipped :
      (change : RemoteAnimeChange) (snapshot : Option Anime) (type : ChangeType)
      (animes : List AnimeRow)
      → snapshot ≢ none
      → (apply_snapshot json change snapshot type animes).0 ≢ skipped
  apply_snapshot_not_skipped change none type animes has = absurd (has refl)
  apply_snapshot_not_skipped change (some anime) create animes has = ground arith
  apply_snapshot_not_skipped change (some anime) _ animes has =
      apply_update_not_skipped change anime (find_anime animes change.record_id) animes

  total-apply_decision :
      (d : MergeDecision) (change : RemoteAnimeChange) (r : ApplyRemoteChangesResult)
      (animes : List AnimeRow)
      → (d ≡ apply → change.snapshot ≢ none)
      → total (apply_decision json d change r animes).0 ≡ total r + 1
  unfolding apply_decision apply_accepted_change
  total-apply_decision delete_row change r animes has = omega arith
  total-apply_decision apply change r animes has = ground (
    arith,
    apply_snapshot_not_skipped change change.snapshot change.change_type animes (has refl),
  )
  total-apply_decision drop_stale change r animes has = omega arith
  total-apply_decision defer_outbox change r animes has = omega arith

  total-apply_from :
      (r : ApplyRemoteChangesResult) (changes : List RemoteAnimeChange) (animes : List AnimeRow)
      → All HasSnapshot changes
      → total (apply_from json r changes ctx animes).0 ≡ total r + length changes
  unfolding apply_from
  total-apply_from r [] animes has = omega arith
  total-apply_from r (change ∷ changes) animes has =
      let next = apply_decision json (decide_merge change ctx) change r animes in
      omega (
        arith,
        total-apply_from next.0 changes next.1 has.1,
        total-apply_decision (decide_merge change ctx) change r animes
            (λ e. has.0 (decide_merge-not_delete change e)),
      )

  -- Every change of a batch whose creates and updates carry a snapshot is counted exactly once: as applied,
  -- dropped, deferred or rejected.
  pub total-apply_remote_changes :
      (changes : List RemoteAnimeChange) (animes : List AnimeRow)
      → All HasSnapshot changes
      → total (apply_remote_changes json changes ctx animes).0 ≡ length changes
  unfolding apply_remote_changes
  total-apply_remote_changes changes animes has = omega (
    arith,
    total-apply_from (record { applied = 0; dropped = 0; deferred = 0; rejected = 0 }) changes
        animes has,
  )
