-- ===== src/Lp/Scenarios.antt =====
-- src/optimiser/lp/scenarios.py: the price scenarios and how they resolve a price. A weight of a
-- band is in thousandths, one of a scenario in millionths; the tolerance of 1e-6 for the sum is less
-- than a unit.
pub mod Weights
use Prim.Native.String.{String, ◌++◌ as str_append}
use energy_optimiser.Prelude.{
  ℕ, ◌+◌, ◌*◌, ◌==◌, Bool, true, false, ◌&&◌, Option, none, some, List, [], ◌∷◌, ℤ, if◌then◌else◌,
}

pub data BandLeg : Type 0 where
  low predicted high : BandLeg

-- The fields of `types.PriceInterval` that the LP reads, in thousandths of cents per kWh.
pub record PriceInterval : Type 0 where
  pub start : ℕ
  pub end : ℕ
  pub import_per_kwh : ℤ
  pub export_per_kwh : ℤ
  pub forecast_low : Option ℤ
  pub forecast_high : Option ℤ
  pub forecast_predicted : Option ℤ
  pub export_forecast_low : Option ℤ
  pub export_forecast_high : Option ℤ
  pub export_forecast_predicted : Option ℤ

pub data PriceScenarioMode : Type 0 where
  point shared cross : PriceScenarioMode

pub record PriceScenario : Type 0 where
  pub name : String
  pub weight : ℕ
  pub import_band : BandLeg
  pub export_band : BandLeg

-- The band's price, or the predicted one, or the point estimate.
abbrev pub resolve : BandLeg → Option ℤ → Option ℤ → Option ℤ → ℤ → ℤ
resolve low (some x) predicted_price high_price fallback = x
resolve low none (some x) high_price fallback = x
resolve low none none high_price fallback = fallback
resolve predicted low_price (some x) high_price fallback = x
resolve predicted low_price none high_price fallback = fallback
resolve high low_price predicted_price (some x) fallback = x
resolve high low_price (some x) none fallback = x
resolve high low_price none none fallback = fallback

unfoldable pub resolve_ip : PriceScenario → PriceInterval → ℤ
resolve_ip s price =
    resolve s.import_band price.forecast_low price.forecast_predicted price.forecast_high
      price.import_per_kwh

unfoldable pub resolve_ep : PriceScenario → PriceInterval → ℤ
resolve_ep s price =
    resolve s.export_band price.export_forecast_low price.export_forecast_predicted
      price.export_forecast_high price.export_per_kwh

-- A dictionary of weights with its three keys; a negative weight has no counterpart here.
abbrev pub BandWeights : Type 0
BandWeights = BandLeg → ℕ

abbrev pub default_band_weights : BandWeights
default_band_weights low = 200
default_band_weights predicted = 600
default_band_weights high = 200

abbrev pub validate_weights : BandWeights → Bool
validate_weights w = w low + w predicted + w high == 1000

abbrev pub leg_name : BandLeg → String
leg_name low = "low"
leg_name predicted = "predicted"
leg_name high = "high"

abbrev pub point_scenario : PriceScenario
point_scenario = record {
  name = "point";
  weight = 1_000_000;
  import_band = predicted;
  export_band = predicted;
}

abbrev pub shared_scenario : BandWeights → BandLeg → PriceScenario
shared_scenario w leg = record {
  name = str_append "shared_" (leg_name leg);
  weight = 1000 * w leg;
  import_band = leg;
  export_band = leg;
}

abbrev pub cross_scenario : BandWeights → BandLeg → BandLeg → PriceScenario
cross_scenario w i e = record {
  name = str_append (str_append "i_" (leg_name i)) (str_append "_e_" (leg_name e));
  weight = w i * w e;
  import_band = i;
  export_band = e;
}

abbrev pub scenarios_of : PriceScenarioMode → BandWeights → List PriceScenario
scenarios_of point w = point_scenario ∷ []
scenarios_of shared w =
    shared_scenario w low ∷ shared_scenario w predicted ∷ shared_scenario w high ∷ []
scenarios_of cross w =
    cross_scenario w low low
    ∷ cross_scenario w low predicted
    ∷ cross_scenario w low high
    ∷ cross_scenario w predicted low
    ∷ cross_scenario w predicted predicted
    ∷ cross_scenario w predicted high
    ∷ cross_scenario w high low
    ∷ cross_scenario w high predicted
    ∷ cross_scenario w high high
    ∷ []

-- None stands for the ValueError of weights that do not sum to one.
unfoldable pub build_price_scenarios : PriceScenarioMode → BandWeights → Option (List PriceScenario)
build_price_scenarios mode w = if validate_weights w then some (scenarios_of mode w) else none
