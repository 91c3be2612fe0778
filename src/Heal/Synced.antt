-- ===== src/Heal/Synced.antt =====
-- What a resync leaves of the animes of the bridge's snapshot (`full-resync.helpers.ts`).
use mathlib.Core.Path.{subst, subst⁻¹}
use autoreas_mobile.Prelude.{
  ℕ, String, ◌≡◌, ◌≢◌, refl, sym, ◌∙◌, true, false, List, [], ◌∷◌, Elem, contains, Bool-cases, inl,
  inr,
}
use autoreas_mobile.Database.{Database, AnimeRow, JsonText}
use autoreas_mobile.Database.Tables.{find_anime}
use autoreas_mobile.Database.Laws.{}
use autoreas_mobile.Database.Upsert.{}
use autoreas_mobile.Merge.Fields.{}
use autoreas_mobile.Merge.Resync.{}
use autoreas_mobile.Merge.Snapshot.{}
use autoreas_mobile.Merge.Apply.{load_pending_outbox_record_ids}
use autoreas_mobile.Heal.{
  IngestedAnime, heal_anime_from_snapshot, heal_each, resync_from_bridge_snapshot,
}
use autoreas_mobile.Heal.Kept.{find-heal_other}
use autoreas_mobile.Heal.Stored.{IsSynced, find-heal_row}

-- The snapshot names each anime once.
abbrev pub IsDistinct : List IngestedAnime → Type 0
IsDistinct [] = Unit
IsDistinct (entry ∷ entries) =
    ((other : IngestedAnime) → Elem other entries → other.anime.id ≢ entry.anime.id)
    × IsDistinct entries

module _ (json : JsonText) where
  find-heal_each_absent :
      (id : String) (entries : List IngestedAnime) (pending : List String) (local : List AnimeRow)
      (healed : ℕ) (animes : List AnimeRow)
      → ((other : IngestedAnime) → Elem other entries → other.anime.id ≢ id)
      → find_anime (heal_each json entries pending local healed animes).1 id ≡ find_anime animes id
  unfolding heal_each
  find-heal_each_absent id [] pending local healed animes absent = refl
  find-heal_each_absent id (entry ∷ entries) pending local healed animes absent =
      elim (Bool-cases (contains pending entry.anime.id)) [
        | inl skipped ↦
            rw skipped (
              find-heal_each_absent id entries pending local healed animes
                (λ o m. absent o (inr m)))
        | inr written ↦ rw written (
            find-heal_each_absent id entries pending local _ _ (λ o m. absent o (inr m))
            ∙ find-heal_other json id entry.anime entry.bridge_modified_at
                (find_anime local entry.anime.id) animes (absent entry (inl refl)))
      ]

  find-heal_each_first :
      (e : IngestedAnime) (entries : List IngestedAnime) (pending : List String)
      (local : List AnimeRow) (healed : ℕ) (animes : List AnimeRow)
      → ((other : IngestedAnime) → Elem other entries → other.anime.id ≢ e.anime.id)
      → contains pending e.anime.id ≡ false
      → find_anime animes e.anime.id ≡ find_anime local e.anime.id
      → IsSynced json e
          (find_anime (heal_each json (e ∷ entries) pending local healed animes).1 e.anime.id)
  unfolding heal_each heal_anime_from_snapshot
  find-heal_each_first e entries pending local healed animes absent free same =
      let local_row = find_anime local e.anime.id in
      let (row, found, holds, token) =
        find-heal_row json e.anime e.bridge_modified_at local_row animes same in
      rw free (
        row,
        find-heal_each_absent e.anime.id entries pending local _ _ absent ∙ found,
        holds,
        token,
      )

  find-heal_each :
      (e : IngestedAnime) (entries : List IngestedAnime) (pending : List String)
      (local : List AnimeRow) (healed : ℕ) (animes : List AnimeRow)
      → IsDistinct entries
      → Elem e entries
      → contains pending e.anime.id ≡ false
      → find_anime animes e.anime.id ≡ find_anime local e.anime.id
      → IsSynced json e
          (find_anime (heal_each json entries pending local healed animes).1 e.anime.id)
  unfolding heal_each heal_anime_from_snapshot
  find-heal_each e [] pending local healed animes distinct m free same = absurd m
  find-heal_each e (entry ∷ entries) pending local healed animes distinct (inl is) free same =
      subst⁻¹
        (λ (x : IngestedAnime).
          IsSynced json x (
            find_anime (heal_each json (entry ∷ entries) pending local healed animes).1 x.anime.id))
        is
        (find-heal_each_first entry entries pending local healed animes distinct.0
          (subst (λ (x : IngestedAnime). contains pending x.anime.id ≡ false) is free)
          (subst (λ (x : IngestedAnime). find_anime animes x.anime.id ≡ find_anime local x.anime.id)
            is same))
  find-heal_each e (entry ∷ entries) pending local healed animes distinct (inr m) free same =
      elim (Bool-cases (contains pending entry.anime.id)) [
        | inl skipped ↦
            rw skipped (find-heal_each e entries pending local healed animes distinct.1 m free same)
        | inr written ↦ rw written (
            find-heal_each e entries pending local _ _ distinct.1 m free (
              find-heal_other json e.anime.id entry.anime entry.bridge_modified_at
                (find_anime local entry.anime.id) animes (λ s. distinct.0 e m (sym s))
              ∙ same))
      ]

  -- Of a snapshot that names each anime once, a resync leaves every anime without an unconfirmed edit
  -- stored, with the snapshot's value in each of the 21 columns, its folder path and its token,
  -- whatever was stored before.
  pub resync_writes_snapshot :
      (remote : List IngestedAnime) (db : Database) (e : IngestedAnime)
      → IsDistinct remote
      → Elem e remote
      → contains (load_pending_outbox_record_ids db.operation_log) e.anime.id ≡ false
      → IsSynced json e
          (find_anime (resync_from_bridge_snapshot json true remote db).1.animes e.anime.id)
  unfolding resync_from_bridge_snapshot
  resync_writes_snapshot remote db e distinct m free =
      find-heal_each e remote _ db.animes 0 db.animes distinct m free refl

  -- The outbox stays as it is.
  pub resync_keeps_log :
      (remote : List IngestedAnime) (db : Database)
      → (resync_from_bridge_snapshot json true remote db).1.operation_log ≡ db.operation_log
  unfolding resync_from_bridge_snapshot
  resync_keeps_log remote db = refl
