-- ===== src/Mutation/Chapters.antt =====
-- What the chapter gestures of `anime-mutation.helpers.ts` do to the chapters and the state that a
-- card draws.
use autoreas_mobile.Prelude.{ℕ, ◌+◌, ◌*◌, ◌≤◌, ◌<◌, ◌≡◌, ◌↔◌, none, some, arith}
use autoreas_mobile.Database.{Anime}
use autoreas_mobile.Mutation.Patch.{
  AnimeMutationSyncPatch, build_cap_plus_patch, build_cap_minus_patch, build_cap_plus_half_patch,
  projected_fields,
}

-- The anime that a card shows once a patch has landed.
abbrev pub after : AnimeMutationSyncPatch → Anime → Anime
after patch anime = record anime {
  nrocapvisto = (projected_fields patch anime).nrocapvisto;
  estado = (projected_fields patch anime).estado;
}

module _ (anime : Anime) (now later : ℕ) where
  abbrev shown_after_cap_plus : Anime
  shown_after_cap_plus = after (build_cap_plus_patch anime now) anime

  -- Cap+ then Cap- shows the chapters that it began with, and an anime that was being watched
  -- (`estado` 0) as being watched, also where the Cap+ finished it.
  pub cap_plus-cap_minus :
      anime.estado ≡ 0
      → let back = after (build_cap_minus_patch shown_after_cap_plus later) shown_after_cap_plus in
        (back.nrocapvisto ≡ anime.nrocapvisto) × (back.estado ≡ 0)
  unfolding build_cap_minus_patch build_cap_plus_patch projected_fields
  cap_plus-cap_minus watching = (omega arith, ground arith)

  module _ (total : ℕ) (known : anime.totalcap ≡ some total) (positive : 0 < total) where
    -- Where the total is known and positive, Cap+ finishes the anime exactly when it reaches the
    -- total, and the half step exactly when it reaches or passes it; the half step never shows more
    -- than the total.
    pub cap_plus_finishes :
        (((build_cap_plus_patch anime now).status ≡ some 1) ↔ (anime.nrocapvisto + 2 ≡ 2 * total))
        × (((build_cap_plus_half_patch anime now).status ≡ some 1)
            ↔ (2 * total ≤ anime.nrocapvisto + 1))
        × ((after (build_cap_plus_half_patch anime now) anime).nrocapvisto ≤ 2 * total)
    unfolding build_cap_plus_patch build_cap_plus_half_patch projected_fields
    cap_plus_finishes = (
      (λ h. ground arith, λ h. ground arith),
      (λ h. ground arith, λ h. ground arith),
      ground arith,
    )

    -- From half a chapter below the total Cap+ shows half a chapter more than the total and does not
    -- finish the anime.
    pub cap_plus_overshoots :
        anime.nrocapvisto + 1 ≡ 2 * total
        → ((after (build_cap_plus_patch anime now) anime).nrocapvisto ≡ 2 * total + 1)
          × ((build_cap_plus_patch anime now).status ≡ none)
    unfolding build_cap_plus_patch projected_fields
    cap_plus_overshoots below = (omega arith, ground arith)
