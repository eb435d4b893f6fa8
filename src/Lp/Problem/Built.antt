-- ===== src/Lp/Problem/Built.antt =====
-- What a solution of the stochastic problem does in each of its scenarios.
use Prim.Native.String.{String}
use text.Mathlib.Text.{◌==◌ as str_eq}
use energy_optimiser.Prelude.{
  ℕ, ◌≡◌, refl, ap, subst, true, false, leb, ◌&&◌, some, none, Option, List, [], ◌∷◌, ◌++◌, All,
  All-get, append-All, ℤ, get_elem?, if◌then◌else◌,
}
use energy_optimiser.Lp.Linear.{Assignment, Satisfied, Expr, value}
use energy_optimiser.Lp.Linear.Laws.{Satisfied-append}
use energy_optimiser.Lp.Formulation.{LoadVars, Slot, add_scenario}
use energy_optimiser.Lp.Scenarios.{
  build_price_scenarios, default_band_weights, PriceScenario, PriceScenarioMode,
}
use energy_optimiser.Lp.Problem.{
  Scenario, StochasticProblem, Request, ties, tie_extras, tie_load, find_load, non_anticipativity,
  constraints_of, problem, build_stochastic_lp, over_slots, compounds, with_prices, scenario,
  setting, forecasts, default_weights, priced_slots, sum_weights,
}
use energy_optimiser.Lp.Slots.{Forecasts, slot_of, slots_from, ◌>>=◌}
use energy_optimiser.Lp.Problem.Results.{Yields, yielded, any, next}
use energy_optimiser.Lp.Problem.Base.{IsHeaviest, heaviest-IsHeaviest}
use energy_optimiser.Lp.Problem.Ties.{ties-get, constraints_of-get, tie_relays-get, tie_loads-get}

-- The constraints of a scenario are those of the formulation, over some slots, with the battery
-- of the request.
abbrev pub Planned : Request → Scenario → Type 0
Planned r s =
    (first : Slot) × (rest : List Slot) × (s.constraints ≡ add_scenario s.vars (first ∷ rest))
    × (s.vars.battery ≡ r.battery)

abbrev IsNonempty : List Slot → Type 0
IsNonempty slots = (first : Slot) × (rest : List Slot) × (slots ≡ first ∷ rest)

slots_from-IsNonempty :
    (f : Forecasts) (start : ℕ) (starts : List ℕ)
    → Yields IsNonempty (slots_from f 0 (start ∷ starts))
unfolding slots_from
slots_from-IsNonempty f start starts =
    any IsNonempty (slot_of f 0 start) _
      (λ s. any IsNonempty (slots_from f 1 starts) _ (λ rest. (s, rest, refl)))

scenario-Planned :
    (r : Request) (name prefix : String) (w : ℕ) (pct : String) (ps : PriceScenario) (o : Option ℤ)
    (start : ℕ) (starts : List ℕ)
    → Yields (Planned r) (scenario r name prefix w pct ps o start starts)
unfolding scenario
scenario-Planned r name prefix w pct ps o start starts =
    next IsNonempty (Planned r) (slots_from (forecasts r pct ps o) 0 (start ∷ starts)) _
      (slots_from-IsNonempty (forecasts r pct ps o) start starts)
      (λ slots (s, rest, e). (s, rest, ap (add_scenario (setting r prefix start starts)) e, refl))

with_prices-Planned :
    (r : Request) (o : Option ℤ) (start : ℕ) (starts : List ℕ) (pv : String) (w : ℕ)
    (prices : List PriceScenario)
    → Yields (All (Planned r)) (with_prices r o start starts pv w prices)
unfolding with_prices
with_prices-Planned r o start starts pv w [] = tt
with_prices-Planned r o start starts pv w (ps ∷ prices) =
    next (Planned r) (All (Planned r)) _ _ (scenario-Planned r _ _ _ pv ps o start starts) (λ s p.
      next (All (Planned r)) (All (Planned r)) _ _
        (with_prices-Planned r o start starts pv w prices) (λ rest h. (p, h)))

compounds-Planned :
    (r : Request) (o : Option ℤ) (start : ℕ) (starts : List ℕ) (prices : List PriceScenario)
    (weights : List (String × ℕ))
    → Yields (All (Planned r)) (compounds r o start starts prices weights)
unfolding compounds
compounds-Planned r o start starts prices [] = tt
compounds-Planned r o start starts prices ((pv, w) ∷ weights) =
    next (All (Planned r)) (All (Planned r)) _ _ (with_prices-Planned r o start starts pv w prices)
      (λ ss p.
        next (All (Planned r)) (All (Planned r)) _ _
          (compounds-Planned r o start starts prices weights)
          (λ rest h. append-All (Planned r) ss rest p h))

-- What the constraints of the whole problem are.
pub record IsBuilt (r : Request) (p : StochasticProblem) : Type 0 where
  pub planned : All (Planned r) p.scenarios
  pub base : IsHeaviest p.base p.scenarios
  pub parts : p.constraints ≡ constraints_of p.scenarios ++ ties p.base p.scenarios

problem-IsBuilt :
    (r : Request) (ss : List Scenario) → All (Planned r) ss → Yields (IsBuilt r) (problem ss)
problem-IsBuilt r [] h = tt
problem-IsBuilt r (s ∷ ss) h = record { planned = h; base = heaviest-IsHeaviest s ss; parts = refl }

over_slots-IsBuilt :
    (r : Request) (weights : List (String × ℕ)) (prices : List PriceScenario) (o : Option ℤ)
    (slots : List ℕ)
    → Yields (IsBuilt r) (over_slots r weights prices o slots)
over_slots-IsBuilt r weights prices o [] = tt
over_slots-IsBuilt r weights prices o (start ∷ starts) =
    next (All (Planned r)) (IsBuilt r) _ _ (compounds-Planned r o start starts prices weights)
      (problem-IsBuilt r)

build_stochastic_lp-IsBuilt :
    (r : Request) (weights : List (String × ℕ)) (mode : PriceScenarioMode) (o : Option ℤ)
    → Yields (IsBuilt r) (build_stochastic_lp r weights mode o)
unfolding build_stochastic_lp
build_stochastic_lp-IsBuilt r weights mode o =
    elim (leb 999 (sum_weights (default_weights weights))
        && leb (sum_weights (default_weights weights)) 1001)
      as (λ b. Yields (IsBuilt r) (
        if b
        then (build_price_scenarios mode default_band_weights
            >>= (λ prices. over_slots r (default_weights weights) prices o (priced_slots r)))
        else none)) [
          | true ↦
              any (IsBuilt r) (build_price_scenarios mode default_band_weights) _
                (λ prices. over_slots-IsBuilt r (default_weights weights) prices o (priced_slots r))
          | false ↦ tt
        ]

-- The base scenario of the stochastic problem is the first of the heaviest.
pub build_stochastic_lp-IsHeaviest :
    (r : Request) (weights : List (String × ℕ)) (mode : PriceScenarioMode) (o : Option ℤ)
    (p : StochasticProblem)
    → build_stochastic_lp r weights mode o ≡ some p
    → IsHeaviest p.base p.scenarios
build_stochastic_lp-IsHeaviest r weights mode o p e =
    (yielded (IsBuilt r) _ p (build_stochastic_lp-IsBuilt r weights mode o) e).base

module _ (r : Request) (weights : List (String × ℕ)) (mode : PriceScenarioMode) (o : Option ℤ)
    (p : StochasticProblem) (built : build_stochastic_lp r weights mode o ≡ some p) (a : Assignment)
    (solved : Satisfied a p.constraints) (i : ℕ) (s : Scenario)
    (listed : get_elem? p.scenarios i ≡ some s) where
  abbrev facts : IsBuilt r p
  facts = yielded (IsBuilt r) _ p (build_stochastic_lp-IsBuilt r weights mode o) built

  abbrev halves : Satisfied a (constraints_of p.scenarios) × Satisfied a (ties p.base p.scenarios)
  halves = Satisfied-append a _ (ties p.base p.scenarios) (subst (Satisfied a) facts.parts solved)

  -- A solution of the stochastic problem satisfies, in each scenario, the constraints of the
  -- formulation for the scenario's own settings and slots, with the battery of the request.
  pub every_scenario :
      (first : Slot) × (rest : List Slot) × Satisfied a (add_scenario s.vars (first ∷ rest))
      × (s.vars.battery ≡ r.battery)
  every_scenario =
      let (first, rest, made, same) = All-get (Planned r) p.scenarios i s facts.planned listed in
      (
        first,
        rest,
        subst (Satisfied a) made (constraints_of-get a p.scenarios i s halves.0 listed),
        same,
      )

  -- In a solution, a relay that a load has in the base scenario and in one with another name is
  -- switched alike in every slot.
  pub same_relays :
      (j t : ℕ) (load other : LoadVars) (xs ys : List Expr) (x y : Expr)
      → str_eq s.name p.base.name ≡ false
      → get_elem? p.base.vars.loads j ≡ some load
      → find_load load.load_id s.vars.loads ≡ some other
      → load.relay ≡ some xs
      → other.relay ≡ some ys
      → get_elem? xs t ≡ some x
      → get_elem? ys t ≡ some y
      → value a y ≡ value a x
  unfolding non_anticipativity
  same_relays j t load other xs ys x y apart at_j found one two ex ey =
      let tied =
        tie_loads-get a p.base.vars.loads s.vars.loads j load
          (ties-get a p.base p.scenarios i s halves.1 listed apart).1 at_j in
      let pair = subst (λ z. Satisfied a (tie_load load z)) found tied in
      let extras = subst (λ z. Satisfied a (tie_extras z other.relay)) one pair in
      tie_relays-get a xs ys t x y (subst (λ z. Satisfied a (tie_extras (some xs) z)) two extras) ex
        ey
