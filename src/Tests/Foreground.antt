-- ===== src/Tests/Foreground.antt =====
-- Witnesses of the foreground cycle: nothing disturbs it, and the bridge sends a snapshot of one anime.
use autoreas_mobile.Prelude.{ℕ, true, false, none, some, [], ◌∷◌, refl, arith}
use autoreas_mobile.Connection.{reset_sync_connection_store}
use autoreas_mobile.Flush.{always}
use autoreas_mobile.Foreground.{
  Pass, HealMoment, Telemetry, Surroundings, ForegroundState, run_pass,
  run_coordinated_foreground_sync_cycle,
}
use autoreas_mobile.Foreground.Healed.{
  IsHealed, IsAnswered, run_coordinated_foreground_sync_cycle-IsHealed,
}
use autoreas_mobile.Foreground.Outcome.{IsOutcome, run_coordinated_foreground_sync_cycle-IsOutcome}
use autoreas_mobile.Runtime.{default_sync_runtime_status_snapshot}
use autoreas_mobile.Tests.Cycle.{world, world-IsTimed, remote_a}
use autoreas_mobile.Tests.Data.{database}

abbrev pass : Pass
pass = record { world = world; claimed_at = 100; diagnostics = 0 }

abbrev moment : HealMoment
moment = record {
  checked_at = 900;
  healed_at = 950;
  fetched = some (remote_a ∷ []);
  is_failed = false;
  meanwhile = λ db. db;
}

abbrev telemetry : ℕ → Telemetry
telemetry instant = record { instant = instant; is_failed = false; meanwhile = λ c. c }

abbrev surroundings : Surroundings
surroundings = record {
  is_paired = true;
  fuel = 20001;
  sends = pass;
  pull = pass;
  heal = moment;
  heal_after_failure = moment;
  started = telemetry 90;
  succeeded = telemetry 960;
  failed = telemetry 970;
  meanwhile = λ c. c;
  message_of = λ error. "the sends failed";
}

abbrev state : ForegroundState
state = record {
  db = database;
  connection = reset_sync_connection_store;
  runtime = default_sync_runtime_status_snapshot;
  last_heal_at = none;
}

run_coordinated_foreground_sync_cycle-IsOutcome_example :
    IsOutcome surroundings 1
      (run_pass surroundings pass database)
      (run_coordinated_foreground_sync_cycle surroundings always state)
run_coordinated_foreground_sync_cycle-IsOutcome_example =
    run_coordinated_foreground_sync_cycle-IsOutcome surroundings always world-IsTimed world-IsTimed
      (omega arith) state

moment-IsAnswered : IsAnswered surroundings moment (remote_a ∷ [])
moment-IsAnswered = record { answered = refl; distinct = (λ other m. absurd m, tt); written = refl }

run_coordinated_foreground_sync_cycle-IsHealed_example :
    IsHealed surroundings
      (remote_a ∷ [])
      (remote_a ∷ [])
      (run_coordinated_foreground_sync_cycle surroundings always state)
run_coordinated_foreground_sync_cycle-IsHealed_example =
    run_coordinated_foreground_sync_cycle-IsHealed surroundings (remote_a ∷ []) (remote_a ∷ []) refl
      moment-IsAnswered moment-IsAnswered world-IsTimed world-IsTimed (omega arith) state
