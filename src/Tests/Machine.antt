-- ===== src/Tests/Machine.antt =====
-- The state machine and the curtailment detector at concrete histories.
use energy_optimiser.Prelude.{
  ◌≡◌, refl, true, false, none, some, List, [], ◌∷◌, ◌++◌, pos, arith, length, ◌+ℤ◌, ◌-ℤ◌,
}
use energy_optimiser.Lifecycle.{
  StateMachine, Call, modbus_success, modbus_failure, amber_success, amber_failure, active,
  fallback, on_startup_complete, step, run, new,
}
use energy_optimiser.Lifecycle.Invariant.{IsConsistent, run-startup-IsConsistent}
use energy_optimiser.Lifecycle.Trace.{Leads, run-Leads}
use energy_optimiser.Curtailment
use energy_optimiser.Curtailment.{Tick, CurtailmentState, start, streak_threshold_ticks}
use energy_optimiser.Curtailment.Episodes.{IsFlatTop, run_streak}

abbrev pub planning : StateMachine
planning = record {
  state = active;
  modbus_lost_at = none;
  amber_failures = 1;
  price_stale_since = none;
}

abbrev stopped : StateMachine
stopped = record {
  state = fallback;
  modbus_lost_at = some 5;
  amber_failures = 4;
  price_stale_since = none;
}

abbrev history : List Call
history =
    amber_failure
    ∷ amber_failure
    ∷ modbus_failure 1000
    ∷ amber_success
    ∷ modbus_failure 300_001_000
    ∷ modbus_success
    ∷ []

-- Two Amber failures, an outage of five minutes and a recovery.
history_ends : (run planning history).0.state ≡ active
unfolding run step
history_ends = refl

run-startup-IsConsistent_example :
    IsConsistent (run (on_startup_complete true false new).0 history).0
run-startup-IsConsistent_example = run-startup-IsConsistent true false history

run-Leads_example : Leads active (run planning history).1 (run planning history).0.state
run-Leads_example = run-Leads planning history

abbrev sunny : Tick
sunny = record {
  soc_pct = pos 99_000;
  battery_power_kw = pos 0;
  pv_kw = pos 5_900;
  house_load_kw = some (pos 800);
  grid_export_limit_kw = some (pos 5_000);
  soc_ceiling_pct = pos 100_000;
}

abbrev cloudy : Tick
cloudy = record sunny { pv_kw = pos 2_000 }

abbrev day : List Tick
day = sunny ∷ sunny ∷ sunny ∷ sunny ∷ sunny ∷ sunny ∷ cloudy ∷ []

-- Six matching ticks yield one suspicion, and the seventh clears it.
day_events : length (Curtailment.run start day).1 ≡ 2
unfolding Curtailment.run Curtailment.evaluate Curtailment.advance_match ◌+ℤ◌ ◌-ℤ◌
day_events = refl

cloudy_is_none : ¬ IsFlatTop cloudy
unfolding ◌+ℤ◌
cloudy_is_none h = absurd (omega arith)

sunny-IsFlatTop : IsFlatTop sunny
unfolding ◌+ℤ◌
sunny-IsFlatTop = omega arith

run_streak_example :
    (Curtailment.run start (sunny ∷ [] ++ (cloudy ∷ sunny ∷ sunny ∷ []))).0
    ≡ record { streak = 2; fired = false }
run_streak_example =
    run_streak start (sunny ∷ []) cloudy (sunny ∷ sunny ∷ []) cloudy_is_none
      (sunny-IsFlatTop, (sunny-IsFlatTop, tt))
