-- ===== src/Database/Laws.antt =====
-- What each writer of `anime-repository.ts` leaves to be found under an id.
use autoreas_mobile.Prelude.{
  ℕ, String, ◌≡◌, refl, ◌≢◌, ap, sym, ◌∙◌, true, false, Option, none, some, List, arith, eq_iff,
  eq_refl, Bool-cases, inl, inr, ==-of-ne, any,
}
use autoreas_mobile.Sql.{
  update_where, delete_where, select_first-update_where, select_first-update_where_self,
  select_first-delete_where, select_first-delete_where_self, select_first-append_miss,
  select_first-append_hit, select_first-any, select_first-none,
}
use autoreas_mobile.Database.{AnimeRow, Anime, JsonText, Value}
use autoreas_mobile.Database.Tables.{has_id, find_anime, set_columns, apply_anime_partial}
use autoreas_mobile.Database.Upsert.{upsert_anime, write_anime, blank}

-- An id that is not `i` is not met by a test for `i`.
apart : (id i : String) → i ≢ id → (r : AnimeRow) → has_id id r ≡ true → has_id i r ≡ false
apart id i ne r h = ground (arith, eq_iff r.id id, eq_iff r.id i, ne)

-- An UPDATE of the rows of another id.
pub find-update_other :
    (animes : List AnimeRow) (id i : String) (set : AnimeRow → AnimeRow)
    → i ≢ id
    → ((r : AnimeRow) → (set r).id ≡ r.id)
    → find_anime (update_where (has_id i) set animes) id ≡ find_anime animes id
unfolding find_anime
find-update_other animes id i set ne keeps =
    select_first-update_where (has_id id) (has_id i) set animes (apart id i ne)
      (λ r h. rw (keeps r) h)

pub find-update_self :
    (animes : List AnimeRow) (id : String) (set : AnimeRow → AnimeRow) {row : AnimeRow}
    → ((r : AnimeRow) → (set r).id ≡ r.id)
    → find_anime animes id ≡ some row
    → find_anime (update_where (has_id id) set animes) id ≡ some (set row)
unfolding find_anime
find-update_self animes id set keeps found =
    select_first-update_where_self (has_id id) set animes (λ r h. rw (keeps r) h) found

module _ (animes : List AnimeRow) (id : String) where
  pub find-apply_anime_partial_other :
      (i : String) (columns : List (String × Value)) (guard_ms : ℕ)
      → i ≢ id
      → find_anime (apply_anime_partial i columns guard_ms animes) id ≡ find_anime animes id
  unfolding apply_anime_partial
  find-apply_anime_partial_other i columns guard_ms ne =
      find-update_other animes id i _ ne (λ r. refl)

  pub find-apply_anime_partial_self :
      (columns : List (String × Value)) (guard_ms : ℕ) {row : AnimeRow}
      → find_anime animes id ≡ some row
      → find_anime (apply_anime_partial id columns guard_ms animes) id
        ≡ some (record (set_columns columns row) { last_applied_change_ms = some guard_ms })
  unfolding apply_anime_partial
  find-apply_anime_partial_self columns guard_ms found =
      find-update_self animes id _ (λ r. refl) found

  pub find-delete_other :
      (i : String) → i ≢ id → find_anime (delete_where (has_id i) animes) id ≡ find_anime animes id
  unfolding find_anime
  find-delete_other i ne = select_first-delete_where (has_id id) (has_id i) animes (apart id i ne)

  pub find-delete_self : find_anime (delete_where (has_id id) animes) id ≡ none
  unfolding find_anime
  find-delete_self = select_first-delete_where_self (has_id id) animes

  module _ (json : JsonText) (anime : Anime) (guard_ms token : Option ℕ) where
    pub find-upsert_anime_other :
        anime.id ≢ id
        → find_anime (upsert_anime json anime guard_ms token animes) id ≡ find_anime animes id
    unfolding upsert_anime
    find-upsert_anime_other ne = elim (Bool-cases (any (has_id anime.id) animes)) [
      | inl there ↦ rw there (
          find-update_other animes id anime.id (write_anime json anime guard_ms token) ne
            (λ r. refl))
      | inr new ↦ rw new (
          unfold find_anime in
          select_first-append_miss (has_id id) animes
            (write_anime json anime guard_ms token (blank json anime.id)) (==-of-ne anime.id id ne))
    ]

module _ (json : JsonText) (anime : Anime) (guard_ms token : Option ℕ)
    (animes : List AnimeRow) where
  -- What `upsertAnime` leaves: the written row, over the row that was there or a blank one.
  abbrev pub base_row : Option AnimeRow → AnimeRow
  base_row none = blank json anime.id
  base_row (some row) = row

  pub find-upsert_anime_self :
      find_anime (upsert_anime json anime guard_ms token animes) anime.id
      ≡ some (write_anime json anime guard_ms token (base_row (find_anime animes anime.id)))
  unfolding upsert_anime find_anime
  find-upsert_anime_self = elim (Bool-cases (any (has_id anime.id) animes)) [
    | inl there ↦
        let (row, found) = select_first-any (has_id anime.id) animes there in
        rw there (
          find-update_self animes anime.id (write_anime json anime guard_ms token) (λ r. refl) found
          ∙ sym (ap (λ o. some (write_anime json anime guard_ms token (base_row o))) found))
    | inr new ↦ rw new (
        select_first-append_hit (has_id anime.id) animes
          (write_anime json anime guard_ms token (blank json anime.id)) (eq_refl anime.id) new
        ∙ sym (
            ap (λ o. some (write_anime json anime guard_ms token (base_row o)))
              (select_first-none (has_id anime.id) animes new)))
  ]
