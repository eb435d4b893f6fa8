-- ===== src/Tests/Plan.antt =====
-- The formulation of the LP at concrete inputs.
use Prim.Native.String.{String}
use text.Mathlib.Text.{◌==◌ as str_eq}
use energy_optimiser.Tests.Solved.{satisfied}
use energy_optimiser.Prelude.{
  ℕ, zero, suc, ◌≡◌, refl, Bool, true, false, Option, none, some, List, [], ◌∷◌, pos, ◌+ℤ◌, ◌-ℤ◌,
  max_ℤ, min_ℤ, ◌≤ℤ◌, scale, get_elem?, arith, ◌⊎◌,
}
use energy_optimiser.Modes.Values.{number}
use energy_optimiser.Modes.{ModeOverrides}
use energy_optimiser.Lp.Linear.{
  Assignment, Satisfied, Expr, var, times, bat_charge_grid, bat_charge_pv, grid_import, pv_to_house,
  pv_to_battery, pv_curtailed, soc_pct, relay,
}
use energy_optimiser.Lp.Scenarios.{PriceInterval, point, point_scenario, build_price_scenarios}
use energy_optimiser.Lp.Forecast.{
  house_load_at, price_at, slot_grid, truncate_to_priced, PvForecast,
}
use energy_optimiser.Lp.Formulation.{
  exceeds, variable_bounds, slot_constraints, soc_dynamics, terminal_soc, buy_constraints,
  conserve_constraints, BatteryConfig, LoadVars, Slot, Setting, add_scenario,
}
use energy_optimiser.Lp.Problem.{
  setting, compounds, with_prices, scenario, heaviest, Request, Scenario, StochasticProblem,
  build_lp, build_stochastic_lp,
}
use energy_optimiser.Lp.Slots.{slots_from, slot_of}
use energy_optimiser.Lp.Formulation.Safety.{buy_window, conserve_window}
use energy_optimiser.Lp.Formulation.Energy.{energy_account}
use energy_optimiser.Lp.Formulation.Idle.{IsSound}
use energy_optimiser.Lp.Problem.Feasible.{InReach, Solvable, scenario-Solvable}
use energy_optimiser.Lp.Problem.Lookups.{build_lp_total}
use energy_optimiser.Lp.Solver.{PulpRun, finished, solve_stochastic}
use energy_optimiser.Lp.Solver.Committed.{Solved, solve_stochastic-Solved}

-- In the first slot the battery takes 0.5 kW of PV and 1.9 kW of the grid, then it rests.
abbrev charging : Assignment
charging prefix bat_charge_grid zero = pos 1900
charging prefix bat_charge_pv zero = pos 500
charging prefix grid_import zero = pos 1900
charging prefix pv_to_battery zero = pos 500
charging prefix pv_curtailed (suc t) = pos 500
charging prefix pv_to_house t = pos 500
charging prefix soc_pct t = pos 51_900
charging prefix _ t = pos 0

abbrev ten_kwh : BatteryConfig
ten_kwh = record {
  capacity_kwh = 10_000;
  soc_floor_pct = pos 10_000;
  soc_ceiling_pct = pos 95_000;
  discharge_cutoff_pct = pos 5000;
  backup_soc_pct = pos 15_000;
  max_ac_charge_kw = pos 5000;
  max_dc_charge_kw = pos 5000;
  max_discharge_kw = pos 5000;
  round_trip_efficiency = 950;
  export_limit_kw = pos 5000;
}

abbrev no_load : String → List ℕ → List LoadVars
no_load prefix slots = []

abbrev relays : String → ℕ → List ℕ → List Expr
relays prefix t [] = []
relays prefix t (_ ∷ slots) = var prefix (relay "heat_pump") t ∷ relays prefix (suc t) slots

abbrev heat_pump : String → List ℕ → List LoadVars
heat_pump prefix slots =
    record {
      load_id = "heat_pump";
      power_kw = λ t. times 2 (var prefix (relay "heat_pump") t);
      relay = some (relays prefix 0 slots);
      constraints = [];
    }
    ∷ []

-- Prices for ten minutes, which are two slots.
abbrev pub prices : PriceInterval
prices = record {
  start = 0;
  end = 600_000_000;
  import_per_kwh = pos 20_000;
  export_per_kwh = pos 5000;
  forecast_low = none;
  forecast_high = none;
  forecast_predicted = none;
  export_forecast_low = none;
  export_forecast_high = none;
  export_forecast_predicted = none;
}

abbrev sunshine : PvForecast
sunshine = record {
  start = 0;
  end = 1_800_000_000;
  pv_estimate_kw = pos 1000;
  pv_estimate10_kw = pos 1000;
  pv_estimate90_kw = pos 1000;
}

abbrev buying : ModeOverrides
buying = record {
  buy_active_at = true ∷ false ∷ [];
  buy_ceiling_c_per_kwh = number (pos 25_000);
  conserve_active_at = false ∷ true ∷ [];
  conserve_floor_c_per_kwh = number (pos 8000);
  buy_soc_cutoff_pct = number (pos 90_000);
}

abbrev request : Option ModeOverrides → (String → List ℕ → List LoadVars) → Request
request modes loads = record {
  timestamp = 60_000_000;
  soc_pct = pos 50_000;
  prices_planning = prices ∷ [];
  pv_forecast = sunshine ∷ [];
  load_profile = pos 500 ∷ [];
  slot_index = λ t. 0;
  add_loads = loads;
  battery = ten_kwh;
  horizon_hours = 1;
  slot_minutes = 5;
  terminal_floor_override_pct = none;
  mode_overrides = modes;
}

abbrev built : Option StochasticProblem
built = build_stochastic_lp (request (some buying) heat_pump) [] point none

-- The value of a lookup that succeeds.
module _ {ℓ} {A : Type ℓ} where
  abbrev found? : Option A → Bool
  found? none = false
  found? (some a) = true

  abbrev from_some : A → Option A → A
  from_some a none = a
  from_some a (some b) = b

  found : (a : A) (x : Option A) → found? x ≡ true → x ≡ some (from_some a x)
  found a none h = cc
  found a (some b) h = refl

abbrev plan_setting : Setting
plan_setting = setting (request (some buying) no_load) "plan_" 0 (300_000_000 ∷ [])

abbrev plan_slots : List Slot
plan_slots =
    record {
      pv_avail = pos 1000;
      house_base = pos 500;
      import_price = pos 20_000;
      export_price = pos 5000;
      buy_active = true;
      conserve_active = false;
    }
    ∷ record {
      pv_avail = pos 1000;
      house_base = pos 500;
      import_price = pos 20_000;
      export_price = pos 5000;
      buy_active = false;
      conserve_active = true;
    }
    ∷ []

plan_satisfied : Satisfied charging (add_scenario plan_setting plan_slots)
unfolding add_scenario variable_bounds slot_constraints soc_dynamics terminal_soc buy_constraints
    conserve_constraints ◌+ℤ◌ ◌-ℤ◌ scale max_ℤ min_ℤ
plan_satisfied = satisfied charging (add_scenario plan_setting plan_slots) refl

buy_window_example :
    (exceeds (pos 20_000) (some (pos 25_000)) ≡ false ⊎ pos 1900 ≡ pos 0)
    × (pos 51_900 ≤ℤ pos 90_000)
    × (pos 0 ≡ pos 0)
    × (pos 0 +ℤ pos 500 ≤ℤ pos 500 +ℤ pos 0)
buy_window_example = buy_window charging plan_setting plan_slots plan_satisfied 0 _ refl refl

conserve_window_example : (pos 0 ≡ pos 0) × (pos 0 ≡ pos 0) × (pos 0 +ℤ pos 500 ≤ℤ pos 500 +ℤ pos 0)
conserve_window_example =
    conserve_window charging plan_setting plan_slots plan_satisfied 1 _ refl refl refl

energy_account_example :
    scale 600_000 (pos 51_900) +ℤ scale 500_000 (pos 0 +ℤ pos 0 +ℤ pos 0)
    ≡ scale 600_000 (pos 50_000)
      +ℤ scale 475_000 (pos 0 +ℤ (pos 1900 +ℤ pos 500) +ℤ (pos 0 +ℤ pos 0))
energy_account_example =
    energy_account charging plan_setting plan_slots plan_satisfied 1 (omega arith)

abbrev nothing : Scenario
nothing = record { name = ""; weight = 0; vars = plan_setting; constraints = [] }

abbrev unplanned : StochasticProblem
unplanned = record { scenarios = []; base = nothing; constraints = [] }

abbrev the_problem : StochasticProblem
the_problem = from_some unplanned built

abbrev pessimistic : Scenario
pessimistic = from_some nothing (get_elem? the_problem.scenarios 0)

abbrev solved_by : StochasticProblem → PulpRun
solved_by p = finished "Optimal" charging

solve_stochastic-Solved_example :
    Solved
      (request (some buying) heat_pump)
      []
      point
      none
      []
      []
      (solve_stochastic (request (some buying) heat_pump) [] point none [] [] solved_by)
solve_stochastic-Solved_example =
    solve_stochastic-Solved (request (some buying) heat_pump) [] point none [] [] solved_by

abbrev plain : Request
plain = request (some buying) no_load

abbrev median : Option Scenario
median = scenario plain "" "plan_" 1_000_000 "p50" point_scenario none 0 (300_000_000 ∷ [])

plan-IsSound : IsSound plan_setting
plan-IsSound = record {
  grid_limit = omega arith;
  pv_limit = omega arith;
  discharge_limit = omega arith;
  export_limit = omega arith;
  charge_low = omega arith;
  charge_high = omega arith;
  cutoff = omega arith;
  no_loads = refl;
}

median_built : median ≡ some (from_some nothing median)
unfolding build_stochastic_lp build_price_scenarios truncate_to_priced slot_grid compounds
    with_prices scenario slots_from slot_of house_load_at price_at heaviest
median_built = found nothing median refl

within_reach : InReach plan_setting (pos 500)
unfolding ◌+ℤ◌
within_reach = (omega arith, omega arith)

scenario-Solvable_example : Solvable (from_some nothing median)
scenario-Solvable_example =
    scenario-Solvable plain "" "plan_" 1_000_000 "p50" point_scenario none 0 (300_000_000 ∷ [])
      (from_some nothing median) plan-IsSound ((omega arith, omega arith, omega arith), tt)
      (within_reach, tt) median_built

build_lp_total_example : (s : Scenario) × (build_lp (request none heat_pump) "p50" ≡ some s)
build_lp_total_example =
    build_lp_total (request none heat_pump) "p50" prices [] refl (omega arith) (omega arith)
      (omega arith) (omega arith) (λ t. omega arith) refl
