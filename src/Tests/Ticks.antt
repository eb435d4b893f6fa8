-- ===== src/Tests/Ticks.antt =====
-- Ticks of the service over answers that do not change.
use energy_optimiser.Prelude.{◌≡◌, refl, true, false, none, some, [], ◌∷◌, pos, get_elem?}
use energy_optimiser.Amber.{AmberClient, new, prices_5min_age, current_5min_price}
use energy_optimiser.Curtailment.{start, evaluate}
use energy_optimiser.Lifecycle.{on_modbus_success, on_price_age_check, transition, fallback}
use energy_optimiser.Lp.Dispatch.{dispatch_from_slot}
use energy_optimiser.Lp.Fallback.{returned}
use energy_optimiser.Lp.Runtime.{default_runtime}
use energy_optimiser.Modes.{ModeManager, absent, empty, prune_soc_reached, to_overrides}
use energy_optimiser.Modes as Modes
use energy_optimiser.Modes.Values.{find}
use energy_optimiser.Lp.Forecast.{slot_grid, price_at}
use energy_optimiser.Lp.Solution.{LpSolution, optimal}
use energy_optimiser.Service.{
  Site, Config, Service, World, SystemState, solved, apply_lp_dispatch, set_export_limit_kw,
}
use energy_optimiser.Service.Tick.{
  ticks, tick_body, with_state, without_state, decide, apply_commands, wind_up,
  resolve_export_limit_kw, apply_plan,
}
use energy_optimiser.Service.Solve.{conclude, run_lp, maybe_run_pv_probe}
use energy_optimiser.Service.Capped.{IsPlanSafe}
use energy_optimiser.Service.Export.{ticks-IsPlanSafe}
use energy_optimiser.Service.Held.{Held}
use energy_optimiser.Service.Failing.{conclude_lem, failed_dispatch, Concluded, AnsweredBy}
use energy_optimiser.Tests.Strategies.{python}
use energy_optimiser.Tests.Machine.{planning}
use energy_optimiser.Tests.Plan.{prices}
use energy_optimiser.Tests.Inverter.{evening, config}

-- The prices are those of the slot from 0, and 10 minutes old.
abbrev cache : AmberClient
cache = record new { last_5min_prices = some (prices ∷ []); last_5min_fetch = some 400_000_000 }

abbrev sunset : SystemState
sunset = record {
  timestamp = 1_000_000_000;
  soc_pct = pos 60_000;
  battery_power_kw = pos 0;
  pv_power_kw = pos 100;
  house_load_kw = some (pos 800);
}

abbrev plan : LpSolution
plan = record {
  status = optimal;
  slot_0 = some evening;
  forward_trajectory = evening ∷ [];
  load_commands =
      record { load_id = "pool"; start_cycle = false; desired_relay_on = some true } ∷ [];
  grid_export_limit_kw = some (pos 5_000);
}

abbrev site : Site
site = record {
  clock = λ h. 1_000_000_000;
  amber = λ h. cache;
  reads = λ h. returned (some sunset);
  probes = λ h. returned none;
  solves = λ h. solved plan;
  accepts = λ h. returned true;
  completes = λ h. returned tt;
}

-- The inverter accepts nothing.
abbrev deaf : Site
deaf = record site { accepts = λ h. returned false }

abbrev house : Config
house = record {
  battery = config;
  soc_ceiling_pct = pos 95_000;
  controllers = record { load_id = "pool"; has_relay = true } ∷ [];
}

abbrev service : Service
service = record {
  state_machine = planning;
  lp_runtime = default_runtime;
  mode_manager = record { modes = []; file = absent };
  last_export_limit_kw = none;
  last_prices_planning = none;
  curtailment_state = start;
}

abbrev before : World
before = record { service = service; calls = [] }

ticks-IsPlanSafe_example :
    IsPlanSafe site (ticks site house python 1 (record { service = service; calls = [] })).calls
ticks-IsPlanSafe_example = ticks-IsPlanSafe site house python 1 service

conclude_lem_example :
    Concluded site house sunset
      (empty [])
      (solved plan)
      before
      (conclude site house sunset (empty []) (solved plan) before)
conclude_lem_example = conclude_lem site house sunset (empty []) (solved plan) before

failed_dispatch_example :
    AnsweredBy deaf house plan.load_commands
      (some (pos 5_000))
      (apply_lp_dispatch
          (dispatch_from_slot evening config (pos 60_000) none false)
          (pos 5_000)
          none
        ∷ set_export_limit_kw (pos 5_000)
        ∷ [])
      (apply_plan deaf house
        (plan, dispatch_from_slot evening config (pos 60_000) none false)
        none
        (some prices)
        before)
unfolding resolve_export_limit_kw prices_5min_age
failed_dispatch_example =
    failed_dispatch deaf house (λ h. (false, refl))
      (dispatch_from_slot evening config (pos 60_000) none false) none (some prices) plan before
      refl

-- The machine is in fallback.
abbrev fallen : World
fallen = record before {
  service = record service { state_machine = record planning { state = fallback } };
}

-- The fifth call from the end of the first tick is the dispatch's export cap.
first_tick :
    get_elem? (ticks site house python 1 before).calls 5 ≡ some (set_export_limit_kw (pos 5_000))
unfolding ticks tick_body with_state without_state decide run_lp conclude maybe_run_pv_probe
    apply_commands apply_plan wind_up resolve_export_limit_kw on_modbus_success on_price_age_check
    transition prices_5min_age current_5min_price prune_soc_reached to_overrides Modes.active empty
    price_at find slot_grid evaluate
first_tick = refl
