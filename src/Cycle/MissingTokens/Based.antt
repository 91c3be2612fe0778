-- ===== src/Cycle/MissingTokens/Based.antt =====
-- No operation is sent without a base (`resolveMissingTokens` of `missing-token.helpers.ts`).
use autoreas_mobile.Prelude.{String, Bool, ◌==◌}
use autoreas_mobile.Database.{Database}
use autoreas_mobile.Cycle.MissingTokens.{MissingTokenOutcome}

abbrev is_outcome_of : String → String × MissingTokenOutcome → Bool
is_outcome_of a (anime_id, outcome) = anime_id == a
