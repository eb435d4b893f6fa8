-- ===== src/Lp/Scenarios/Weights.antt =====
-- The weights of the price scenarios.
use energy_optimiser.Prelude.{ℕ, ◌+◌, ◌*◌, ◌≡◌, some, List, [], ◌∷◌, arith, ap}
use energy_optimiser.Lp.Scenarios.{
  PriceScenario, PriceScenarioMode, point, shared, cross, BandWeights, low, predicted, high,
  build_price_scenarios,
}

abbrev pub total : List PriceScenario → ℕ
total [] = 0
total (s ∷ ss) = s.weight + total ss

square :
    (a b c : ℕ)
    → a + b + c ≡ 1000
    → a * a + (a * b + (a * c + (b * a + (b * b + (b * c + (c * a + (c * b + (c * c + 0))))))))
      ≡ 1_000_000
square a b c h =
    omega (arith, ap (λ (t : ℕ). t * a) h, ap (λ (t : ℕ). t * b) h, ap (λ (t : ℕ). t * c) h)

-- Whatever the mode and the bands' weights: the scenarios that are built have weights that sum to
-- one.
pub total-build_price_scenarios :
    (mode : PriceScenarioMode) (w : BandWeights) (ss : List PriceScenario)
    → build_price_scenarios mode w ≡ some ss
    → total ss ≡ 1_000_000
unfolding build_price_scenarios
total-build_price_scenarios point w ss e = ground (arith, e)
total-build_price_scenarios shared w ss e = ground (arith, e)
total-build_price_scenarios cross w ss e = ground (arith, e, square (w low) (w predicted) (w high))
