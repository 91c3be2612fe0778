-- ===== src/Tests/Merge.antt =====
-- Witnesses of the merge and of the staging table.
use autoreas_mobile.Prelude.{◌≡◌, ◌≢◌, refl, [], ◌∷◌, Elem, List, inl, inr, arith}
use autoreas_mobile.Database.{PendingRemoteChange, RemoteAnimeChange}
use autoreas_mobile.Database.Tables.{find_anime, column}
use autoreas_mobile.Merge.Fields.{build_partial_update}
use autoreas_mobile.Merge.Snapshot.{written, column-build_partial_update}
use autoreas_mobile.Merge.Resync.{}
use autoreas_mobile.Merge.Apply.{MergeContext, apply_remote_changes, decide_merge, defer_outbox}
use autoreas_mobile.Merge.Protection.{SnapshotMatches, Spares, apply_remote_changes-protects}
use autoreas_mobile.Merge.Redelivery.{context, after_one, redelivery_changes_nothing}
use autoreas_mobile.Merge.Counts.{}
use autoreas_mobile.Sql.Order.{}
use autoreas_mobile.Drain.{}
use autoreas_mobile.Drain.Kept.{
  UniqueStagingIds, IsHeldBack, IsUnsuperseded, staged_after, staged_deferred_stays,
  incoming_deferred_is_staged,
}
use autoreas_mobile.Tests.Data.{
  operation_1, json, animes, change_a, staged_a, database, frieren_remote,
}

-- The context of a pass over the sample, where the first anime has an unconfirmed edit.
abbrev protecting : MergeContext
protecting = context json ("a" ∷ []) animes

change_a-matches : SnapshotMatches change_a
change_a-matches anime e = ground (arith, e)

pub change_a-Spares : Spares json "a" change_a
change_a-Spares = (change_a-matches, λ same. refl)

apply_remote_changes-protects_example :
    find_anime (apply_remote_changes json (change_a ∷ []) protecting animes).1 "a"
    ≡ find_anime animes "a"
apply_remote_changes-protects_example =
    apply_remote_changes-protects json "a" protecting refl (change_a ∷ []) animes
      (change_a-Spares, tt)

applied_context : decide_merge change_a (context json [] animes) ≢ defer_outbox
unfolding decide_merge
applied_context e = ground (arith, e)

redelivery_changes_nothing_example :
    after_one json change_a ("a" ∷ []) (after_one json change_a [] animes)
    ≡ after_one json change_a [] animes
redelivery_changes_nothing_example =
    redelivery_changes_nothing json change_a change_a-matches [] ("a" ∷ []) animes applied_context

column-build_partial_update_example :
    column
      (build_partial_update json change_a.changed_fields frieren_remote).columns
      "folderRelative"
    ≡ written json frieren_remote change_a.changed_fields "folderRelative"
column-build_partial_update_example =
    column-build_partial_update json frieren_remote change_a.changed_fields "folderRelative"

database-UniqueStagingIds : UniqueStagingIds json database [] 50
database-UniqueStagingIds r s m n same = ground (arith, m, n)

change_a-IsHeldBack :
    (incoming : List RemoteAnimeChange) → IsHeldBack json database incoming 50 change_a
change_a-IsHeldBack incoming = (refl, (operation_1, inl refl, refl, refl, inl refl))

nothing_supersedes : IsUnsuperseded json database [] 50 change_a
nothing_supersedes d (inl m) deletes same = absurd m
nothing_supersedes d (inr (r, m, e)) deletes same = ground (arith, m, e, deletes)

staged_deferred_stays_example : Elem staged_a (staged_after json database [] 50)
staged_deferred_stays_example =
    staged_deferred_stays json database [] 50 database-UniqueStagingIds staged_a (inl refl)
      (change_a-IsHeldBack []) nothing_supersedes

nothing_incoming_supersedes : IsUnsuperseded json database (change_a ∷ []) 50 change_a
nothing_incoming_supersedes d (inl m) deletes same = ground (arith, m, deletes)
nothing_incoming_supersedes d (inr (r, m, e)) deletes same = ground (arith, m, e, deletes)

incoming_deferred_is_staged_example :
    (row : PendingRemoteChange) × Elem row (staged_after json database (change_a ∷ []) 50)
    × (row.change ≡ change_a)
incoming_deferred_is_staged_example =
    incoming_deferred_is_staged json database (change_a ∷ []) 50 change_a (inl refl)
      (change_a-IsHeldBack (change_a ∷ [])) nothing_incoming_supersedes
