-- ===== src/Reconcile/Tokens.antt =====
-- `src/features/sync/applied-operation-token.helpers.ts`, and `persistConfirmedAnimeTokens` of
-- `src/infrastructure/db/anime-repository/anime-repository.ts`.
pub mod Last
use autoreas_mobile.Prelude.{
  ℕ, String, Bool, true, false, not, ◌&&◌, Option, none, some, List, [], ◌∷◌, ◌==◌, if◌then◌else◌,
}
use autoreas_mobile.Database.{AnimeRow}
use autoreas_mobile.Database.Tables.{apply_anime_bridge_token}
use autoreas_mobile.Reconcile.Conflict.{ReconcileAppliedOperation}

-- `ConfirmedAnimeToken`: an anime's id and its token.
abbrev pub ConfirmedAnimeToken : Type 0
ConfirmedAnimeToken = String × ℕ

-- `Map.set`: a key keeps the place of its first entry.
unfoldable pub set_token : String → ℕ → List ConfirmedAnimeToken → List ConfirmedAnimeToken
set_token id token [] = (id, token) ∷ []
set_token id token ((j, t) ∷ tokens) =
    if j == id then (id, token) ∷ tokens else (j, t) ∷ set_token id token tokens

abbrev pub add_token :
    ReconcileAppliedOperation → Option ℕ → List ConfirmedAnimeToken → List ConfirmedAnimeToken
add_token operation none tokens = tokens
add_token operation (some token) tokens =
    if operation.applied then set_token operation.anime_id token tokens else tokens

-- The loop of `collectConfirmedAnimeTokens`.
unfoldable pub collect_from :
    List ReconcileAppliedOperation → List ConfirmedAnimeToken → List ConfirmedAnimeToken
unfolding set_token
collect_from [] tokens = tokens
collect_from (operation ∷ operations) tokens =
    collect_from operations (add_token operation operation.modified_at tokens)

-- `collectConfirmedAnimeTokens`
unfoldable pub collect_confirmed_anime_tokens :
    List ReconcileAppliedOperation → List ConfirmedAnimeToken
unfolding collect_from
collect_confirmed_anime_tokens operations = collect_from operations []

-- `persistConfirmedAnimeTokens`
unfoldable pub persist_confirmed_anime_tokens :
    List ConfirmedAnimeToken → List AnimeRow → List AnimeRow
unfolding apply_anime_bridge_token
persist_confirmed_anime_tokens [] animes = animes
persist_confirmed_anime_tokens ((id, token) ∷ tokens) animes =
    persist_confirmed_anime_tokens tokens (apply_anime_bridge_token id token animes)
