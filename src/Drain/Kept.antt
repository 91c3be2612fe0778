-- ===== src/Drain/Kept.antt =====
-- What a merge pass leaves staged (`remote-change-drain.helpers.ts`).
use autoreas_mobile.Prelude.{
  ℕ, ◌≡◌, refl, sym, ◌∙◌, ap, ◌⊎◌, inl, inr, Bool, true, false, List, Elem, includes, arith,
  Bool-cases, Elem-append_left, ◌<◌, ◌==◌, ◌&&◌, any, any-Elem, contains, Elem-any, Elem-map,
  eq_iff, Elem-append_right, append-Elem, Elem-filterb, filterb-Elem, not,
}
use autoreas_mobile.Sql.{delete_where}
use autoreas_mobile.Sql.Order.{}
use autoreas_mobile.Database.{
  JsonText, RemoteAnimeChange, PendingRemoteChange, Database, OperationLogRow, OperationStatus,
  pending, processing,
}
use autoreas_mobile.Merge.Apply.{
  is_delete, is_unconfirmed, anime_update_operation, load_pending_outbox_record_ids, decide_merge,
}
use autoreas_mobile.Drain.{
  MergePassEntry, staged_entry, incoming_entry, pass_context, is_kept_deferred, supersedes,
  consumed_staging_ids, kept_incoming, apply_staged_and_incoming,
}
use autoreas_mobile.Drain.Entries.{
  includes-consumed, consumed-includes, Elem-kept_incoming, kept_incoming-Elem, Elem-staged_rows,
  staged_rows-Elem, Elem-entries_staged, Elem-entries_incoming, entries-Elem, entries_of,
}

module _ (json : JsonText) (db : Database) (incoming : List RemoteAnimeChange) (now : ℕ) where
  abbrev pub kept : MergePassEntry → Bool
  kept e = is_kept_deferred e (entries_of db incoming) (pass_context db.animes db.operation_log)

  abbrev pub staged_after : List PendingRemoteChange
  staged_after = (apply_staged_and_incoming json incoming now db).1.pending_remote_changes

  -- `pending_remote_changes.id` is the primary key.
  abbrev pub UniqueStagingIds : Type 0
  UniqueStagingIds =
      (r s : PendingRemoteChange)
      → Elem r db.pending_remote_changes
      → Elem s db.pending_remote_changes
      → r.staging_id ≡ s.staging_id
      → r ≡ s

  abbrev consumed : List ℕ
  consumed =
      consumed_staging_ids (entries_of db incoming) (pass_context db.animes db.operation_log)
        (entries_of db incoming)

  abbrev kept_changes : List RemoteAnimeChange
  kept_changes =
      kept_incoming (entries_of db incoming) (pass_context db.animes db.operation_log)
        (entries_of db incoming)

  kept-not_consumed :
      UniqueStagingIds
      → (row : PendingRemoteChange) → Elem row db.pending_remote_changes
      → kept (staged_entry row) ≡ true
      → includes consumed row.staging_id ≡ false
  kept-not_consumed unique row m stays = elim (Bool-cases (includes consumed row.staging_id)) [
    | inr free ↦ free
    | inl taken ↦
        let (e, n, id, dropped) =
          consumed-includes (entries_of db incoming) (pass_context db.animes db.operation_log)
            row.staging_id (entries_of db incoming) taken in
        elim (entries-Elem db incoming e n) [
          | inl (other, o, same) ↦
              let ids : other.staging_id ≡ row.staging_id = ground (arith, same, id) in
              absurd (ground (arith, unique other row o m ids, same, dropped, stays))
          | inr (change, c, same) ↦ absurd (ground (arith, same, id))
        ]
  ]

  -- Every delete of the same anime that is staged or arrives is older than the change.
  abbrev pub IsUnsuperseded : RemoteAnimeChange → Type 0
  IsUnsuperseded change =
      (d : RemoteAnimeChange)
      → Elem d incoming
        ⊎ ((r : PendingRemoteChange) × Elem r db.pending_remote_changes × (d ≡ r.change))
      → is_delete d.change_type ≡ true
      → d.record_id ≡ change.record_id
      → d.timestamp < change.timestamp

  -- The change is no deletion, and its anime has an unconfirmed edit in the outbox.
  abbrev pub IsHeldBack : RemoteAnimeChange → Type 0
  IsHeldBack change =
      (is_delete change.change_type ≡ false)
      × ((edit : OperationLogRow) × Elem edit db.operation_log
          × (edit.anime_id ≡ change.record_id)
          × (edit.operation ≡ "update")
          × ((edit.status ≡ pending) ⊎ (edit.status ≡ processing)))

  unconfirmed : (s : OperationStatus) → (s ≡ pending) ⊎ (s ≡ processing) → is_unconfirmed s ≡ true
  unconfirmed s (inl e) = ap is_unconfirmed e
  unconfirmed s (inr e) = ap is_unconfirmed e

  held_back-among :
      (change : RemoteAnimeChange)
      → IsHeldBack change
      → contains (load_pending_outbox_record_ids db.operation_log) change.record_id ≡ true
  unfolding load_pending_outbox_record_ids
  held_back-among change (lives, (edit, m, same, update, status)) =
      Elem-any _ edit.anime_id _
        (Elem-map (λ (r : OperationLogRow). r.anime_id) edit _
          (Elem-filterb
            (λ (r : OperationLogRow).
              (r.operation == anime_update_operation) && is_unconfirmed r.status)
            edit db.operation_log m
            (ground
              (arith, eq_iff edit.operation "update", update, unconfirmed edit.status status))))
        (ground (arith, eq_iff edit.anime_id change.record_id, same))

  origin :
      (e : MergePassEntry)
      → Elem e (entries_of db incoming)
      → Elem e.change incoming
        ⊎ ((r : PendingRemoteChange) × Elem r db.pending_remote_changes × (e.change ≡ r.change))
  origin e m = elim (entries-Elem db incoming e m) [
    | inl (row, k, same) ↦ inr (row, k, ap (λ (x : MergePassEntry). x.change) same)
    | inr (change, k, same) ↦ inl (ground (arith, same, k))
  ]

  not_superseded :
      (entry : MergePassEntry)
      → IsUnsuperseded entry.change
      → any (supersedes entry) (entries_of db incoming) ≡ false
  not_superseded entry free = elim (Bool-cases (any (supersedes entry) (entries_of db incoming))) [
    | inr none_found ↦ none_found
    | inl found ↦
        let (e, m, hit) = any-Elem (supersedes entry) (entries_of db incoming) found in
        let older : e.change.timestamp < entry.change.timestamp =
          free e.change (origin e m) (ground (arith, hit))
            ((eq_iff e.change.record_id entry.change.record_id).0 (ground (arith, hit))) in
        absurd (ground (arith, hit, older))
  ]

  kept_of :
      (entry : MergePassEntry)
      → IsHeldBack entry.change
      → IsUnsuperseded entry.change
      → kept entry ≡ true
  unfolding is_kept_deferred decide_merge
  kept_of entry held free =
      rw (held.0, held_back-among entry.change held, not_superseded entry free) refl

  -- A staged change that is no deletion, of an anime with an unconfirmed edit, stays in the staging
  -- table as it is, where every delete of the anime that is staged or arrives is older, and staging
  -- ids are unique.
  pub staged_deferred_stays :
      UniqueStagingIds
      → (row : PendingRemoteChange) → Elem row db.pending_remote_changes
      → IsHeldBack row.change
      → IsUnsuperseded row.change
      → Elem row staged_after
  unfolding apply_staged_and_incoming delete_where
  staged_deferred_stays unique row m held free = Elem-append_left row _ _ (
      Elem-filterb _ row db.pending_remote_changes m
        (ap not (kept-not_consumed unique row m (kept_of (staged_entry row) held free))))

  -- An incoming change that is no deletion, of an anime with an unconfirmed edit, is in the staging
  -- table afterwards, where every delete of the anime that is staged or arrives is older.
  pub incoming_deferred_is_staged :
      (change : RemoteAnimeChange)
      → Elem change incoming
      → IsHeldBack change
      → IsUnsuperseded change
      → (row : PendingRemoteChange) × Elem row staged_after × (row.change ≡ change)
  unfolding apply_staged_and_incoming delete_where
  incoming_deferred_is_staged change m held free =
      let (row, n, same) = Elem-staged_rows db.next_staging_id now change kept_changes (
        Elem-kept_incoming (entries_of db incoming) (pass_context db.animes db.operation_log)
          (incoming_entry change) (entries_of db incoming)
          (Elem-entries_incoming db incoming change m) refl
          (kept_of (incoming_entry change) held free)) in
      (row, Elem-append_right row (delete_where _ db.pending_remote_changes) _ n, same)

  -- Nothing else stays: a row that is staged after the pass was staged before it or holds an
  -- incoming change, and the pass keeps it deferred.
  pub staged_after-deferred :
      (row : PendingRemoteChange)
      → Elem row staged_after
      → (Elem row db.pending_remote_changes × (kept (staged_entry row) ≡ true))
        ⊎ ((change : RemoteAnimeChange) × Elem change incoming
            × (row.change ≡ change)
            × (kept (incoming_entry change) ≡ true))
  unfolding apply_staged_and_incoming delete_where
  staged_after-deferred row m = elim (append-Elem row _ _ m) [
    | inl old ↦
        let (before, unconsumed) =
          filterb-Elem (λ r. not (includes consumed r.staging_id)) row db.pending_remote_changes
            old in
        elim (Bool-cases (kept (staged_entry row))) [
          | inl stays ↦ inl (before, stays)
          | inr handled ↦ absurd (
              ground (
                arith,
                unconsumed,
                includes-consumed (entries_of db incoming) (pass_context db.animes db.operation_log)
                    (staged_entry row) row.staging_id (entries_of db incoming)
                    (Elem-entries_staged db incoming row before) refl handled,
              ))
        ]
    | inr new ↦
        let (e, n, id, stays, same) =
          kept_incoming-Elem (entries_of db incoming) (pass_context db.animes db.operation_log)
            row.change (entries_of db incoming)
            (staged_rows-Elem db.next_staging_id now row kept_changes new) in
        elim (entries-Elem db incoming e n) [
          | inl (other, o, is) ↦ absurd (ground (arith, is, id))
          | inr (change, c, is) ↦
              inr (change, c, ground (arith, same, is), ap (λ x. kept x) (sym is) ∙ stays)
        ]
  ]
