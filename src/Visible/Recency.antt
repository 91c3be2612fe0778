-- ===== src/Visible/Recency.antt =====
-- How long ago the last sync was (`formatLastSyncRecency`).
use Prim.Native.String.{◌++◌}
use autoreas_mobile.Prelude.{
  ℕ, ◌-◌, ◌/◌, String, some, ◌≡◌, refl, nat_eq, ltb, arith, if◌then◌else◌,
}
use autoreas_mobile.Visible.{format_last_sync_recency}

module _ (digits : ℕ → String) where
  -- The elapsed milliseconds in the largest unit of which a whole one has passed.
  unfoldable pub recency_of : ℕ → String
  recency_of elapsed =
      if ltb elapsed 60000
      then "hace un momento"
      else if ltb elapsed 3600000
      then "hace " ++ digits (elapsed / 60000) ++ " min"
      else if ltb elapsed 86400000
      then if nat_eq (elapsed / 3600000) 1
        then "hace 1 h"
        else "hace " ++ digits (elapsed / 3600000) ++ " h"
      else if nat_eq (elapsed / 86400000) 1
      then "hace 1 día"
      else "hace " ++ digits (elapsed / 86400000) ++ " días"

  hours_of : (elapsed : ℕ) → (elapsed / 60000) / 60 ≡ elapsed / 3600000
  hours_of elapsed = omega arith

  days_of : (elapsed : ℕ) → (elapsed / 3600000) / 24 ≡ elapsed / 86400000
  days_of elapsed = omega arith

  minute_test : (elapsed : ℕ) → ltb (elapsed / 60000) 1 ≡ ltb elapsed 60000
  minute_test elapsed = ground arith

  hour_test : (elapsed : ℕ) → ltb (elapsed / 60000) 60 ≡ ltb elapsed 3600000
  hour_test elapsed = ground arith

  day_test : (elapsed : ℕ) → ltb (elapsed / 3600000) 24 ≡ ltb elapsed 86400000
  day_test elapsed = ground arith

  -- The text gives the time since the last sync in the largest unit, of the minute, the hour and the
  -- day, of which a whole one has passed, rounded down.
  pub recency_is_in_its_largest_unit :
      (last now : ℕ)
      → format_last_sync_recency digits (some last) now ≡ some (recency_of (now - last))
  unfolding format_last_sync_recency recency_of
  recency_is_in_its_largest_unit last now =
      rw
        (
          minute_test (now - last),
          hour_test (now - last),
          hours_of (now - last),
          day_test (now - last),
          days_of (now - last),
        )
        refl
