-- ===== src/Database/Tables.antt =====
-- `src/infrastructure/db/anime-repository/anime-repository.ts`: the writers and readers of the
-- `animes` table.
use autoreas_mobile.Prelude.{
  ℕ, String, ◌≡◌, Bool, Option, none, some, List, [], ◌∷◌, ◌==◌, if◌then◌else◌, arith, eq_iff,
}
use autoreas_mobile.Sql.{update_where, select_first}
use autoreas_mobile.Database.{AnimeRow, Value}

abbrev pub has_id : String → AnimeRow → Bool
has_id id row = row.id == id

-- SELECT * FROM animes WHERE _id = ? LIMIT 1
unfoldable pub find_anime : List AnimeRow → String → Option AnimeRow
find_anime animes id = select_first (has_id id) animes

-- A column map built by assignment: a later assignment replaces an earlier one.
unfoldable pub assign : List (String × Value) → String → Value → List (String × Value)
assign [] k v = (k, v) ∷ []
assign ((j, w) ∷ columns) k v = if j == k then (k, v) ∷ columns else (j, w) ∷ assign columns k v

unfoldable pub column : List (String × Value) → String → Option Value
column [] k = none
column ((j, w) ∷ columns) k = if j == k then some w else column columns k

abbrev pub or_cell : Option Value → Value → Value
or_cell none v = v
or_cell (some w) v = w

-- SET: the named columns change, the others keep their value.
unfoldable pub set_columns : List (String × Value) → AnimeRow → AnimeRow
set_columns columns row = record row { cell = λ k. or_cell (column columns k) (row.cell k) }

pub column-assign :
    (columns : List (String × Value)) (k j : String) (v : Value)
    → column (assign columns k v) j ≡ (if k == j then some v else column columns j)
unfolding column assign
column-assign [] k j v = ground arith
column-assign ((i, w) ∷ columns) k j v =
    ground (arith, eq_iff k j, eq_iff i k, eq_iff i j, column-assign columns k j v)

-- `applyAnimePartial`: the given columns and the staleness guard, in one statement.
unfoldable pub apply_anime_partial :
    String → List (String × Value) → ℕ → List AnimeRow → List AnimeRow
unfolding set_columns
apply_anime_partial id columns guard_ms animes =
    update_where (has_id id)
      (λ row. record (set_columns columns row) { last_applied_change_ms = some guard_ms }) animes

-- `applyAnimeBridgeToken`: nothing but `bridge_modified_at`.
unfoldable pub apply_anime_bridge_token : String → ℕ → List AnimeRow → List AnimeRow
apply_anime_bridge_token id token animes =
    update_where (has_id id) (λ row. record row { bridge_modified_at = some token }) animes
