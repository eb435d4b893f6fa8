-- ===== src/Lp/Solver.antt =====
-- src/optimiser/lp/solver.py: the solver around the stochastic problem, and the solution that it
-- reads off the variables. What PuLP and HiGHS do with a problem is an argument: no solver, an
-- exception, or the name of a status with the values of the variables.

pub mod Committed
use Prim.Native.String.{String}
use text.Mathlib.Text.{◌==◌ as str_eq}
use energy_optimiser.Prelude.{
  ℕ, zero, suc, Bool, true, false, ◌||◌, Option, none, some, List, [], ◌∷◌, map, ℤ, pos, ◌+ℤ◌, ◌-ℤ◌,
  leb_ℤ, scale, is_some, if◌then◌else◌,
}
use energy_optimiser.Lp.Dispatch.{SlotDecision}
use energy_optimiser.Lp.Formulation.{LoadVars, Setting, var_at}
use energy_optimiser.Lp.Linear.{
  Assignment, Column, value, bat_charge_grid, bat_charge_pv, bat_discharge, grid_import,
  grid_export, pv_to_house, pv_to_battery, pv_to_export, soc_pct,
}
use energy_optimiser.Lp.Problem.{
  Request, Scenario, StochasticProblem, net_kw, find_load, build_stochastic_lp, priced_slots,
}
use energy_optimiser.Lp.Scenarios.{PriceScenarioMode}
use energy_optimiser.Lp.Solution.{
  SolveStatus, optimal, feasible, infeasible, unbounded, timeout, error, LoadCommand, LpSolution,
}

-- What `prob.solve` comes to.
pub data PulpRun : Type 0 where
  no_solver solve_raised : PulpRun
  finished : String → Assignment → PulpRun

-- A load of the LP: what it commands depends on its variables and the first slot.
pub record LpLoad : Type 0 where
  pub load_id : String
  pub extract_command : Assignment → LoadVars → ℕ → LoadCommand

-- A tenth of a watt, in tenths of a watt.
abbrev pub numeric_eps : ℤ
numeric_eps = pos 1

unfoldable pub map_status : String → SolveStatus
map_status pulp_status =
    if str_eq pulp_status "Optimal"
    then optimal
    else if str_eq pulp_status "Not Solved"
    then timeout
    else if str_eq pulp_status "Infeasible"
    then infeasible
    else if str_eq pulp_status "Unbounded"
    then unbounded
    else error

abbrev pub without_slots : SolveStatus → LpSolution
without_slots status = record {
  status = status;
  slot_0 = none;
  forward_trajectory = [];
  load_commands = [];
  grid_export_limit_kw = none;
}

-- The loads that have variables, with their power in a slot.
abbrev pub load_powers : Assignment → Setting → ℕ → List LpLoad → List (String × ℤ)
load_powers a c t [] = []
load_powers a c t (load ∷ lp_loads) =
    let rest = load_powers a c t lp_loads in
    elim (find_load load.load_id c.loads) [
      | none ↦ rest
      | some lv ↦ (load.load_id, value a (lv.power_kw t)) ∷ rest
    ]

abbrev pub decision : Assignment → Setting → List LpLoad → ℕ → ℕ → SlotDecision
decision a c lp_loads t start = record {
  slot_start = start;
  battery_kw =
      (a c.prefix bat_charge_grid t +ℤ a c.prefix bat_charge_pv t) -ℤ a c.prefix bat_discharge t;
  grid_import_kw = a c.prefix grid_import t;
  grid_export_kw = a c.prefix grid_export t;
  pv_to_house_kw = a c.prefix pv_to_house t;
  pv_to_battery_kw = a c.prefix pv_to_battery t;
  pv_to_export_kw = a c.prefix pv_to_export t;
  soc_pct_end = a c.prefix soc_pct t;
  grid_to_battery_kw = a c.prefix bat_charge_grid t;
  load_kw = load_powers a c t lp_loads;
}

abbrev pub trajectory : Assignment → Setting → List LpLoad → ℕ → List ℕ → List SlotDecision
trajectory a c lp_loads t [] = []
trajectory a c lp_loads t (start ∷ slots) =
    decision a c lp_loads t start ∷ trajectory a c lp_loads (suc t) slots

abbrev pub is_listed : String → List String → Bool
is_listed id [] = false
is_listed id (other ∷ ids) = str_eq other id || is_listed id ids

-- The commands of the loads that have variables and a status.
abbrev pub commands : Assignment → Setting → List String → ℕ → List LpLoad → List LoadCommand
commands a c managed start [] = []
commands a c managed start (load ∷ lp_loads) =
    let rest = commands a c managed start lp_loads in
    elim (find_load load.load_id c.loads) [
      | none ↦ rest
      | some lv ↦
          if is_listed load.load_id managed then load.extract_command a lv start ∷ rest else rest
    ]

-- `any(_v(s.grid_export[0]) >= NUMERIC_EPS for s in scenarios.values())`
abbrev pub any_plans_export : Assignment → List Scenario → Bool
any_plans_export a [] = false
any_plans_export a (s ∷ ss) =
    leb_ℤ numeric_eps (scale 10 (a s.vars.prefix grid_export 0)) || any_plans_export a ss

-- The cap on export covers every scenario, not the base alone.
unfoldable pub export_limit : Assignment → ℤ → List Scenario → ℤ
export_limit a export_limit_kw scenarios =
    if any_plans_export a scenarios then export_limit_kw else pos 0

abbrev pub solution :
    Request
    → List LpLoad
    → List String
    → StochasticProblem
    → Assignment
    → SolveStatus
    → ℕ
    → List ℕ
    → LpSolution
solution r lp_loads managed p a status start slots = record {
  status = status;
  slot_0 = some (decision a p.base.vars lp_loads 0 start);
  forward_trajectory = trajectory a p.base.vars lp_loads 0 (start ∷ slots);
  load_commands = commands a p.base.vars managed start lp_loads;
  grid_export_limit_kw = some (export_limit a r.battery.export_limit_kw p.scenarios);
}

-- No slots is an IndexError.
unfoldable pub extract_solution :
    Request
    → List LpLoad
    → List String
    → StochasticProblem
    → Assignment
    → SolveStatus
    → List ℕ
    → Option LpSolution
extract_solution r lp_loads managed p a status [] = none
extract_solution r lp_loads managed p a status (start ∷ slots) =
    some (solution r lp_loads managed p a status start slots)

abbrev pub extract_if :
    SolveStatus
    → Request
    → List LpLoad
    → List String
    → StochasticProblem
    → Assignment
    → Option LpSolution
extract_if optimal r lp_loads managed p a =
    extract_solution r lp_loads managed p a optimal (priced_slots r)
extract_if feasible r lp_loads managed p a =
    extract_solution r lp_loads managed p a feasible (priced_slots r)
extract_if status r lp_loads managed p a = some (without_slots status)

unfoldable pub run_and_extract :
    Request → List LpLoad → List String → StochasticProblem → PulpRun → Option LpSolution
unfolding map_status extract_solution
run_and_extract r lp_loads managed p no_solver = some (without_slots error)
run_and_extract r lp_loads managed p solve_raised = some (without_slots error)
run_and_extract r lp_loads managed p (finished pulp_status a) =
    extract_if (map_status pulp_status) r lp_loads managed p a

-- A problem that cannot be built is an error too.
abbrev pub solve_built :
    Request
    → List LpLoad
    → List String
    → (StochasticProblem → PulpRun)
    → Option StochasticProblem
    → Option LpSolution
solve_built r lp_loads managed run none = some (without_slots error)
solve_built r lp_loads managed run (some p) = run_and_extract r lp_loads managed p (run p)

unfoldable pub solve_stochastic :
    Request
    → List (String × ℕ)
    → PriceScenarioMode
    → Option ℤ
    → List LpLoad
    → List String
    → (StochasticProblem → PulpRun)
    → Option LpSolution
unfolding run_and_extract
solve_stochastic r weights mode override lp_loads managed run =
    solve_built r lp_loads managed run (build_stochastic_lp r weights mode override)
