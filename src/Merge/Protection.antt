-- ===== src/Merge/Protection.antt =====
-- What the merge boundary (`apply-remote-changes.helpers.ts`) never touches: other records, and
-- records with an unconfirmed local edit.
use autoreas_mobile.Prelude.{
  String, ◌≡◌, refl, ◌≢◌, ◌∙◌, true, false, Option, none, some, List, [], ◌∷◌, ◌==◌, All, contains,
  arith, eq_iff, Bool-cases, inl, inr, ne-of-==,
}
use autoreas_mobile.Sql.{}
use autoreas_mobile.Database.{AnimeRow, Anime, JsonText, RemoteAnimeChange, ChangeType, create}
use autoreas_mobile.Database.Tables.{find_anime}
use autoreas_mobile.Database.Laws.{
  find-apply_anime_partial_other, find-delete_other, find-upsert_anime_other,
}
use autoreas_mobile.Merge.Fields.{build_partial_update}
use autoreas_mobile.Merge.Apply.{
  MergeDecision, apply, delete_row, drop_stale, defer_outbox, MergeContext, is_delete, decide_merge,
  ApplyRemoteChangesResult, apply_update, apply_snapshot, apply_decision, apply_from,
  apply_remote_changes,
}

-- The snapshot of a change is the snapshot of the record that it names.
abbrev pub SnapshotMatches : RemoteAnimeChange → Type 0
SnapshotMatches change =
    (anime : Anime) → change.snapshot ≡ some anime → anime.id ≡ change.record_id

module _ (json : JsonText) (id : String) where
  find-apply_update_other :
      (change : RemoteAnimeChange) (snapshot : Anime) (found : Option AnimeRow)
      (animes : List AnimeRow)
      → change.record_id ≢ id
      → snapshot.id ≡ change.record_id
      → find_anime (apply_update json change snapshot found animes).1 id ≡ find_anime animes id
  unfolding apply_update
  find-apply_update_other change snapshot none animes ne same =
      find-upsert_anime_other animes id json snapshot (some change.timestamp) none (rw same ne)
  find-apply_update_other change snapshot (some row) animes ne same = ground (
    arith,
    find-apply_anime_partial_other animes id change.record_id
        (build_partial_update json change.changed_fields snapshot).columns change.timestamp ne,
  )

  find-apply_snapshot_other :
      (change : RemoteAnimeChange) (snapshot : Option Anime) (type : ChangeType)
      (animes : List AnimeRow)
      → change.record_id ≢ id
      → ((anime : Anime) → snapshot ≡ some anime → anime.id ≡ change.record_id)
      → find_anime (apply_snapshot json change snapshot type animes).1 id ≡ find_anime animes id
  find-apply_snapshot_other change none type animes ne same = refl
  find-apply_snapshot_other change (some anime) create animes ne same =
      find-upsert_anime_other animes id json anime (some change.timestamp) none
        (rw (same anime refl) ne)
  find-apply_snapshot_other change (some anime) _ animes ne same =
      find-apply_update_other change anime (find_anime animes change.record_id) animes ne
        (same anime refl)

  -- A change of another record.
  find-apply_decision_other :
      (d : MergeDecision) (change : RemoteAnimeChange) (r : ApplyRemoteChangesResult)
      (animes : List AnimeRow)
      → change.record_id ≢ id
      → SnapshotMatches change
      → find_anime (apply_decision json d change r animes).1 id ≡ find_anime animes id
  unfolding apply_decision
  find-apply_decision_other delete_row change r animes ne same =
      find-delete_other animes id change.record_id ne
  find-apply_decision_other apply change r animes ne same =
      find-apply_snapshot_other change change.snapshot change.change_type animes ne same
  find-apply_decision_other drop_stale change r animes ne same = refl
  find-apply_decision_other defer_outbox change r animes ne same = refl

  -- No delete of the protected record is in the batch.
  abbrev pub Spares : RemoteAnimeChange → Type 0
  Spares change =
      SnapshotMatches change × (change.record_id ≡ id → is_delete change.change_type ≡ false)

  module _ (ctx : MergeContext) (protected : contains ctx.pending_outbox_record_ids id ≡ true) where
    decide_merge-protected :
        (change : RemoteAnimeChange)
        → Spares change
        → change.record_id ≡ id
        → decide_merge change ctx ≡ defer_outbox
    unfolding decide_merge
    decide_merge-protected change spares e = rw (spares.1 e, e, protected)

    find-apply_from :
        (r : ApplyRemoteChangesResult) (changes : List RemoteAnimeChange) (animes : List AnimeRow)
        → All Spares changes
        → find_anime (apply_from json r changes ctx animes).1 id ≡ find_anime animes id
    unfolding apply_from apply_decision
    find-apply_from r [] animes spares = refl
    find-apply_from r (change ∷ changes) animes spares =
        let next = apply_decision json (decide_merge change ctx) change r animes in
        find-apply_from next.0 changes next.1 spares.1
        ∙ elim (Bool-cases (change.record_id == id)) [
          | inl same ↦
              let e = (eq_iff change.record_id id).0 same in
              rw (decide_merge-protected change spares.0 e) refl
          | inr other ↦
              find-apply_decision_other (decide_merge change ctx) change r animes
                (ne-of-== change.record_id id other) spares.0.0
        ]

    -- An anime with an unconfirmed local edit is left exactly as it is by any batch of remote
    -- changes in which its record is not deleted and each snapshot is of the record it is sent for.
    pub apply_remote_changes-protects :
        (changes : List RemoteAnimeChange) (animes : List AnimeRow)
        → All Spares changes
        → find_anime (apply_remote_changes json changes ctx animes).1 id ≡ find_anime animes id
    unfolding apply_remote_changes
    apply_remote_changes-protects changes animes spares =
        find-apply_from (record { applied = 0; dropped = 0; deferred = 0; rejected = 0 }) changes
          animes spares
