-- ===== src/Lp/Solver/Committed.antt =====
-- What a solution commits to, against all the scenarios that it was solved for.
use Prim.Native.String.{String}
use text.Mathlib.Text.{◌==◌ as str_eq}
use energy_optimiser.Prelude.{
  ℕ, leb, ◌&&◌, ◌≡◌, refl, Bool, true, false, Option, none, some, List, [], ◌∷◌, ℤ, is_some,
  if◌then◌else◌,
}
use energy_optimiser.Lp.Linear.{Assignment}
use energy_optimiser.Lp.Problem.{
  problem, compounds, over_slots, default_weights, sum_weights, Request, Scenario,
  StochasticProblem, build_stochastic_lp, priced_slots,
}
use energy_optimiser.Lp.Scenarios.{
  PriceScenario, build_price_scenarios, default_band_weights, PriceScenarioMode,
}
use energy_optimiser.Lp.Slots.{◌>>=◌}
use energy_optimiser.Lp.Problem.Results.{Yields, any}
use energy_optimiser.Lp.Solution.{
  SolveStatus, LpSolution, optimal, feasible, infeasible, unbounded, timeout, error,
}
use energy_optimiser.Lp.Solver.{
  map_status, extract_if, run_and_extract, solve_built, no_solver, solve_raised, finished, PulpRun,
  LpLoad, extract_solution, solve_stochastic,
}

abbrev IsPriced : List ℕ → Type 0
IsPriced slots = (start : ℕ) × (starts : List ℕ) × (slots ≡ start ∷ starts)

any_problem :
    (ss : List Scenario) (start : ℕ) (starts : List ℕ)
    → Yields (λ (_ : StochasticProblem). IsPriced (start ∷ starts)) (problem ss)
any_problem [] start starts = tt
any_problem (s ∷ ss) start starts = (start, starts, refl)

abbrev pub is_usable : SolveStatus → Bool
is_usable optimal = true
is_usable feasible = true
is_usable infeasible = false
is_usable unbounded = false
is_usable timeout = false
is_usable error = false

module _ (r : Request) (weights : List (String × ℕ)) (mode : PriceScenarioMode) (o : Option ℤ) where
  over_slots-IsPriced :
      (prices : List PriceScenario) (slots : List ℕ)
      → Yields (λ _. IsPriced slots) (over_slots r (default_weights weights) prices o slots)
  over_slots-IsPriced prices [] = tt
  over_slots-IsPriced prices (start ∷ starts) =
      any (λ _. IsPriced (start ∷ starts))
        (compounds r o start starts prices (default_weights weights)) _
        (λ ss. any_problem ss start starts)

  build_stochastic_lp-IsPriced :
      Yields (λ _. IsPriced (priced_slots r)) (build_stochastic_lp r weights mode o)
  unfolding build_stochastic_lp
  build_stochastic_lp-IsPriced =
      elim (leb 999 (sum_weights (default_weights weights))
          && leb (sum_weights (default_weights weights)) 1001)
        as (λ b.
          Yields (λ _. IsPriced (priced_slots r))
            (if b
              then (build_price_scenarios mode default_band_weights
                  >>= (λ prices. over_slots r (default_weights weights) prices o (priced_slots r)))
              else none)) [
                | true ↦
                    any (λ _. IsPriced (priced_slots r))
                      (build_price_scenarios mode default_band_weights) _
                      (λ prices. over_slots-IsPriced prices (priced_slots r))
                | false ↦ tt
              ]

  module _ (lp_loads : List LpLoad) (managed : List String) where
    -- A solution, with a first slot if its status is usable.
    abbrev pub Solved : Option LpSolution → Type 0
    Solved x = (s : LpSolution) × (x ≡ some s) × (is_some s.slot_0 ≡ is_usable s.status)

    extract_if-Solved :
        (p : StochasticProblem) (a : Assignment) (status : SolveStatus)
        → IsPriced (priced_slots r)
        → Solved (extract_if status r lp_loads managed p a)
    unfolding extract_solution
    extract_if-Solved p a optimal (start, starts, e) = rw e (_, refl, refl)
    extract_if-Solved p a feasible (start, starts, e) = rw e (_, refl, refl)
    extract_if-Solved p a infeasible e = (_, refl, refl)
    extract_if-Solved p a unbounded e = (_, refl, refl)
    extract_if-Solved p a timeout e = (_, refl, refl)
    extract_if-Solved p a error e = (_, refl, refl)

    ran-Solved :
        (p : StochasticProblem) (x : PulpRun)
        → IsPriced (priced_slots r)
        → Solved (run_and_extract r lp_loads managed p x)
    unfolding run_and_extract
    ran-Solved p no_solver e = (_, refl, refl)
    ran-Solved p solve_raised e = (_, refl, refl)
    ran-Solved p (finished pulp_status a) e = extract_if-Solved p a (map_status pulp_status) e

    built-Solved :
        (run : StochasticProblem → PulpRun) (x : Option StochasticProblem)
        → Yields (λ _. IsPriced (priced_slots r)) x
        → Solved (solve_built r lp_loads managed run x)
    built-Solved run none y = (_, refl, refl)
    built-Solved run (some p) y = ran-Solved p (run p) y

    -- Whatever PuLP and the build do, the solver returns a solution and raises nothing: it has a
    -- first slot exactly if its status is optimal or feasible.
    pub solve_stochastic-Solved :
        (run : StochasticProblem → PulpRun)
        → Solved (solve_stochastic r weights mode o lp_loads managed run)
    unfolding solve_stochastic
    solve_stochastic-Solved run =
        built-Solved run (build_stochastic_lp r weights mode o) build_stochastic_lp-IsPriced
