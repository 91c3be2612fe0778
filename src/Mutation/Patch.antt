-- ===== src/Mutation/Patch.antt =====
-- The pure half of `anime-mutation.helpers.ts`: the patch of each gesture and the local row update.
--
-- Watched chapters are counted in halves, `totalcap` in whole chapters. `Math.max(0, n - k)` is the
-- truncated subtraction of the natural numbers.
use autoreas_mobile.Prelude.{
  ℕ, ◌+◌, ◌-◌, ◌*◌, String, Bool, true, false, ◌&&◌, Option, none, some, List, [], ◌∷◌, ◌++◌, ltb,
  leb, nat_eq, if◌then◌else◌, get_or,
}
use autoreas_mobile.Database.{Anime, Value, num}

-- `AnimeMutationSyncPatch`: an absent key is `none`.
pub record AnimeMutationSyncPatch : Type 0 where
  pub episodes_watched : Option ℕ
  pub last_watched_at : Option ℕ
  pub status : Option ℕ
  pub premiered_at : Option ℕ
  pub first_cycle : Option Bool

-- `totalcap != null && totalcap > 0 && test(totalcap)`, with the total in halves.
abbrev pub total_meets : (ℕ → Bool) → Option ℕ → Bool
total_meets test none = false
total_meets test (some total) = ltb 0 total && test (2 * total)

abbrev pub when : {A : Type 0} → Bool → A → Option A
when true a = some a
when false a = none

-- `buildCapPlusPatch`
unfoldable pub build_cap_plus_patch : Anime → ℕ → AnimeMutationSyncPatch
build_cap_plus_patch anime now =
    let new_cap = anime.nrocapvisto + 2 in
    let is_finished = total_meets (λ total. nat_eq new_cap total) anime.totalcap in
    record {
      episodes_watched = some new_cap;
      last_watched_at = some now;
      status = when is_finished 1;
      premiered_at = when (nat_eq anime.primeravez 1) now;
      first_cycle = when (nat_eq anime.primeravez 1) false;
    }

-- The rule by which both decrements reopen a finished anime.
abbrev pub should_reopen : Anime → Bool
should_reopen anime =
    nat_eq anime.estado 1 && total_meets (λ total. nat_eq anime.nrocapvisto total) anime.totalcap

-- `buildCapMinusPatch`
unfoldable pub build_cap_minus_patch : Anime → ℕ → AnimeMutationSyncPatch
build_cap_minus_patch anime now = record {
  episodes_watched = some (anime.nrocapvisto - 2);
  last_watched_at = some now;
  status = when (should_reopen anime) 0;
  premiered_at = none;
  first_cycle = none;
}

-- `buildSetEstadoPatch`
unfoldable pub build_set_estado_patch : ℕ → AnimeMutationSyncPatch
build_set_estado_patch estado = record {
  episodes_watched = none;
  last_watched_at = none;
  status = some estado;
  premiered_at = none;
  first_cycle = none;
}

abbrev doubled : Option ℕ → ℕ
doubled none = 0
doubled (some total) = 2 * total

-- `buildCapPlusHalfPatch`
unfoldable pub build_cap_plus_half_patch : Anime → ℕ → AnimeMutationSyncPatch
build_cap_plus_half_patch anime now =
    let new_cap = anime.nrocapvisto + 1 in
    let is_finished = total_meets (λ total. leb total new_cap) anime.totalcap in
    record {
      episodes_watched = some (if is_finished then doubled anime.totalcap else new_cap);
      last_watched_at = some now;
      status = when is_finished 1;
      premiered_at = none;
      first_cycle = none;
    }

-- `buildCapMinusHalfPatch`
unfoldable pub build_cap_minus_half_patch : Anime → ℕ → AnimeMutationSyncPatch
build_cap_minus_half_patch anime now = record {
  episodes_watched = some (anime.nrocapvisto - 1);
  last_watched_at = some now;
  status = when (should_reopen anime) 0;
  premiered_at = none;
  first_cycle = none;
}

-- The result of `toLocalAnimeUpdate`.
pub record AnimeLocalUpdate : Type 0 where
  pub nrocapvisto : Option ℕ
  pub fecha_ult_cap_visto : Option ℕ
  pub estado : Option ℕ
  pub fecha_estreno : Option ℕ
  pub primeravez : Option ℕ

abbrev flag : Option Bool → Option ℕ
flag none = none
flag (some true) = some 1
flag (some false) = some 0

-- `toLocalAnimeUpdate`
unfoldable pub to_local_anime_update : AnimeMutationSyncPatch → AnimeLocalUpdate
to_local_anime_update patch = record {
  nrocapvisto = patch.episodes_watched;
  fecha_ult_cap_visto = patch.last_watched_at;
  estado = patch.status;
  fecha_estreno = patch.premiered_at;
  primeravez = flag patch.first_cycle;
}

abbrev pub assignment : String → Option ℕ → List (String × Value)
assignment column none = []
assignment column (some n) = (column, num n) ∷ []

-- The SET list of `buildAnimeUpdateSql` and the values bound to it, by `UPDATE_COLUMN_BY_FIELD`.
unfoldable pub update_assignments : AnimeLocalUpdate → List (String × Value)
update_assignments update =
    assignment "nrocapvisto" update.nrocapvisto
    ++ (assignment "fechaUltCapVisto" update.fecha_ult_cap_visto
        ++ (assignment "estado" update.estado
            ++ (assignment "fechaEstreno" update.fecha_estreno
                ++ assignment "primeravez" update.primeravez)))

-- The two values that a card draws (`AnimeMutationProjectionFields`), and what `useMutateAnime` says
-- that a patch will make of them.
pub record AnimeMutationProjectionFields : Type 0 where
  pub nrocapvisto : ℕ
  pub estado : ℕ

unfoldable pub projected_fields : AnimeMutationSyncPatch → Anime → AnimeMutationProjectionFields
unfolding to_local_anime_update
projected_fields patch base =
    let projected = to_local_anime_update patch in
    record {
      nrocapvisto = get_or projected.nrocapvisto base.nrocapvisto;
      estado = get_or projected.estado base.estado;
    }
