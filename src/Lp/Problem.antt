-- ===== src/Lp/Problem.antt =====
-- src/optimiser/lp/formulation.py: the problems that are built, for one scenario and for the
-- product of PV and price scenarios, from the state and the forecasts. The weights of PV scenarios
-- are in thousandths. What a load contributes depends on the slots and the prefix.
pub mod Results
pub mod Base
pub mod Ties
pub mod Built
pub mod Lookups
pub mod Feasible
use Prim.Native.String.{String, ◌++◌ as str_append}
use text.Mathlib.Text.{◌==◌ as str_eq}
use energy_optimiser.Prelude.{
  ℕ, zero, suc, ◌+◌, ◌-◌, ◌*◌, ◌/◌, ◌%◌, leb, ltb, Bool, true, false, ◌&&◌, not, Option, none, some,
  List, [], ◌∷◌, ◌++◌, map, ℤ, pos, max_ℤ, if◌then◌else◌, get_elem?, length,
}
use energy_optimiser.Lp.Linear.{
  Column, bat_charge_grid, bat_charge_pv, bat_discharge, Expr, var, plus, minus, Constraint, equals,
}
use energy_optimiser.Lp.Scenarios.{
  PriceInterval, PriceScenario, PriceScenarioMode, default_band_weights, point_scenario,
  build_price_scenarios, resolve_ip, resolve_ep,
}
use energy_optimiser.Lp.Slots.{◌>>=◌, limit_of, Forecasts, slots_from, terminal_soc_floor_pct}
use energy_optimiser.Lp.Forecast.{
  PvForecast, price_at, pv_estimate_at, house_load_at, slot_grid, truncate_to_priced,
}
use energy_optimiser.Lp.Formulation.{BatteryConfig, LoadVars, Slot, Setting, var_at, add_scenario}
use energy_optimiser.Modes.{ModeOverrides}
use energy_optimiser.Modes.Values.{Json, as_number}

-- The arguments that `build_lp` and `build_stochastic_lp` share.
pub record Request : Type 0 where
  pub timestamp : ℕ
  pub soc_pct : ℤ
  pub prices_planning : List PriceInterval
  pub pv_forecast : List PvForecast
  pub load_profile : List ℤ
  pub slot_index : ℕ → ℕ
  pub add_loads : String → List ℕ → List LoadVars
  pub battery : BatteryConfig
  pub horizon_hours : ℕ
  pub slot_minutes : ℕ
  pub terminal_floor_override_pct : Option ℤ
  pub mode_overrides : Option ModeOverrides

abbrev pub last_of : ℕ → List ℕ → ℕ
last_of t [] = t
last_of t (u ∷ us) = last_of u us

abbrev pub table_floor : Request → ℕ → ℤ
table_floor r last = elim r.terminal_floor_override_pct [
  | none ↦ terminal_soc_floor_pct last
  | some pct ↦ pct
]

abbrev pub setting : Request → String → ℕ → List ℕ → Setting
setting r prefix start starts = record {
  prefix = prefix;
  battery = r.battery;
  state_soc_pct = r.soc_pct;
  slot_minutes = r.slot_minutes;
  terminal_floor_table = table_floor r (last_of start starts);
  loads = r.add_loads prefix (start ∷ starts);
  buy_ceiling = limit_of (λ o. o.buy_ceiling_c_per_kwh) r.mode_overrides;
  buy_soc_cutoff = limit_of (λ o. o.buy_soc_cutoff_pct) r.mode_overrides;
  conserve_floor = limit_of (λ o. o.conserve_floor_c_per_kwh) r.mode_overrides;
}

abbrev pub forecasts : Request → String → PriceScenario → Option ℤ → Forecasts
forecasts r percentile scenario override = record {
  prices = r.prices_planning;
  pv_forecast = r.pv_forecast;
  pv_percentile = percentile;
  load_profile = r.load_profile;
  slot_index = r.slot_index;
  price_scenario = scenario;
  slot_0_pv_override_kw = override;
  mode_overrides = r.mode_overrides;
}

-- One scenario over the slots from `start` on: its settings and its constraints.
pub record Scenario : Type 0 where
  pub name : String
  pub weight : ℕ
  pub vars : Setting
  pub constraints : List Constraint

unfoldable pub scenario :
    Request → String → String → ℕ → String → PriceScenario → Option ℤ → ℕ → List ℕ → Option Scenario
scenario r name prefix weight percentile price_scenario override start starts = do
  slots ← slots_from (forecasts r percentile price_scenario override) 0 (start ∷ starts)
  some (record {
    name = name;
    weight = weight;
    vars = setting r prefix start starts;
    constraints = add_scenario (setting r prefix start starts) slots;
  })

-- No slots is a ValueError, and so are no prices.
abbrev pub priced_slots : Request → List ℕ
priced_slots r =
    truncate_to_priced (slot_grid r.timestamp r.horizon_hours r.slot_minutes) r.prices_planning

abbrev pub single : Request → String → List ℕ → Option Scenario
single r percentile [] = none
single r percentile (start ∷ starts) =
    scenario r "" "" 1_000_000 percentile point_scenario none start starts

unfoldable pub build_lp : Request → String → Option Scenario
build_lp r percentile = single r percentile (priced_slots r)

-- `for pv_name, pv_weight in weights.items(): for price_scenario in price_scenarios`
unfoldable pub with_prices :
    Request → Option ℤ → ℕ → List ℕ → String → ℕ → List PriceScenario → Option (List Scenario)
with_prices r override start starts pv_name pv_weight [] = some []
with_prices r override start starts pv_name pv_weight (ps ∷ price_scenarios) = do
  let name = str_append (str_append pv_name "__") ps.name
  s ← scenario r name (str_append name "_") (pv_weight * ps.weight) pv_name ps override start starts
  rest ← with_prices r override start starts pv_name pv_weight price_scenarios
  some (s ∷ rest)

unfoldable pub compounds :
    Request
    → Option ℤ
    → ℕ
    → List ℕ
    → List PriceScenario
    → List (String × ℕ)
    → Option (List Scenario)
compounds r override start starts price_scenarios [] = some []
compounds r override start starts price_scenarios ((pv_name, pv_weight) ∷ weights) = do
  ss ← with_prices r override start starts pv_name pv_weight price_scenarios
  rest ← compounds r override start starts price_scenarios weights
  some (ss ++ rest)

-- `max(scenarios, key=lambda n: scenarios[n].weight)`: the first of the heaviest.
unfoldable pub heaviest : Scenario → List Scenario → Scenario
heaviest best [] = best
heaviest best (s ∷ ss) = heaviest (if ltb best.weight s.weight then s else best) ss

abbrev pub net_kw : Setting → Expr
net_kw c =
    minus (plus (var_at c bat_charge_grid 0) (var_at c bat_charge_pv 0)) (var_at c bat_discharge 0)

-- Both lists have an entry for each slot.
abbrev pub tie_relays : List Expr → List Expr → List Constraint
tie_relays (x ∷ base) (y ∷ other) = equals y x ∷ tie_relays base other
tie_relays _ _ = []

abbrev pub tie_extras : Option (List Expr) → Option (List Expr) → List Constraint
tie_extras (some base) (some other) = tie_relays base other
tie_extras _ _ = []

abbrev pub find_load : String → List LoadVars → Option LoadVars
find_load id [] = none
find_load id (load ∷ loads) = if str_eq load.load_id id then some load else find_load id loads

abbrev pub tie_load : LoadVars → Option LoadVars → List Constraint
tie_load base none = []
tie_load base (some other) = tie_extras base.relay other.relay

abbrev pub tie_loads : List LoadVars → List LoadVars → List Constraint
tie_loads [] other = []
tie_loads (base ∷ loads) other =
    tie_load base (find_load base.load_id other) ++ tie_loads loads other

unfoldable pub non_anticipativity : Scenario → Scenario → List Constraint
non_anticipativity base other =
    equals (net_kw other.vars) (net_kw base.vars) ∷ tie_loads base.vars.loads other.vars.loads

abbrev pub ties : Scenario → List Scenario → List Constraint
ties base [] = []
ties base (s ∷ ss) =
    (if str_eq s.name base.name then [] else non_anticipativity base s) ++ ties base ss

abbrev pub constraints_of : List Scenario → List Constraint
constraints_of [] = []
constraints_of (s ∷ ss) = s.constraints ++ constraints_of ss

pub record StochasticProblem : Type 0 where
  pub scenarios : List Scenario
  pub base : Scenario
  pub constraints : List Constraint

abbrev pub problem : List Scenario → Option StochasticProblem
problem [] = none
problem (s ∷ ss) =
    let base = heaviest s ss in
    some (record {
      scenarios = s ∷ ss;
      base = base;
      constraints = constraints_of (s ∷ ss) ++ ties base (s ∷ ss);
    })

abbrev pub sum_weights : List (String × ℕ) → ℕ
sum_weights [] = 0
sum_weights ((_, w) ∷ weights) = w + sum_weights weights

abbrev pub default_weights : List (String × ℕ) → List (String × ℕ)
default_weights [] = ("p10", 200) ∷ ("p50", 600) ∷ ("p90", 200) ∷ []
default_weights weights = weights

abbrev pub over_slots :
    Request → List (String × ℕ) → List PriceScenario → Option ℤ → List ℕ → Option StochasticProblem
over_slots r weights price_scenarios override [] = none
over_slots r weights price_scenarios override (start ∷ starts) = do
  ss ← compounds r override start starts price_scenarios weights
  problem ss

-- `abs(sum(weights.values()) - 1.0) > 1e-3` is a ValueError.
unfoldable pub build_stochastic_lp :
    Request → List (String × ℕ) → PriceScenarioMode → Option ℤ → Option StochasticProblem
build_stochastic_lp r scenario_weights mode override =
    let weights = default_weights scenario_weights in
    if leb 999 (sum_weights weights) && leb (sum_weights weights) 1001
    then (do
      price_scenarios ← build_price_scenarios mode default_band_weights
      over_slots r weights price_scenarios override (priced_slots r))
    else none
