-- ===== src/Lp/Forecast.antt =====
-- src/optimiser/lp/formulation.py: the slot grid, and the forecasts at a slot. Instants are
-- microseconds in UTC. `time_utils.slot_index` goes by the zone's rules and is an argument.
pub mod Coverage
use Prim.Native.String.{String}
use text.Mathlib.Text.{◌==◌ as str_eq}
use energy_optimiser.Prelude.{
  ℕ, zero, suc, ◌+◌, ◌-◌, ◌*◌, ◌/◌, ◌%◌, leb, ltb, Bool, true, false, ◌&&◌, Option, none, some,
  List, [], ◌∷◌, ◌++◌, ℤ, pos, if◌then◌else◌, get_elem?,
}
use energy_optimiser.Lp.Scenarios.{PriceInterval}

abbrev pub minute : ℕ
minute = 60_000_000

-- `[snapped + step * t for t in range(n)]`, from the slot at `start`.
abbrev pub grid_from : ℕ → ℕ → ℕ → List ℕ
grid_from start step zero = []
grid_from start step (suc n) = start ∷ grid_from (start + step) step n

-- `start.replace(second=0, microsecond=0) - timedelta(minutes=start.minute % slot_minutes)`
abbrev pub snapped : ℕ → ℕ → ℕ
snapped start slot_minutes = start - start % minute - start / minute % 60 % slot_minutes * minute

unfoldable pub slot_grid : ℕ → ℕ → ℕ → List ℕ
slot_grid start horizon_hours slot_minutes =
    grid_from (snapped start slot_minutes) (slot_minutes * minute)
      (horizon_hours * 60 / slot_minutes)

abbrev pub later_end : ℕ → List PriceInterval → ℕ
later_end end [] = end
later_end end (p ∷ prices) = later_end (if ltb end p.end then p.end else end) prices

-- `max(p.end for p in prices)`
abbrev pub horizon_end : PriceInterval → List PriceInterval → ℕ
horizon_end p prices = later_end p.end prices

abbrev pub take_before : ℕ → List ℕ → List ℕ
take_before end [] = []
take_before end (s ∷ slots) = let rest = take_before end slots in if ltb s end then s ∷ rest else []

unfoldable pub truncate_to_priced : List ℕ → List PriceInterval → List ℕ
truncate_to_priced slots [] = []
truncate_to_priced slots (p ∷ prices) = take_before (horizon_end p prices) slots

-- None stands for the ValueError.
unfoldable pub price_at : List PriceInterval → ℕ → Option PriceInterval
price_at [] t = none
price_at (p ∷ prices) t =
    let rest = price_at prices t in if leb p.start t && ltb t p.end then some p else rest

pub record PvForecast : Type 0 where
  pub start : ℕ
  pub end : ℕ
  pub pv_estimate_kw : ℤ
  pub pv_estimate10_kw : ℤ
  pub pv_estimate90_kw : ℤ

abbrev pub estimate : String → PvForecast → ℤ
estimate percentile pv =
    if str_eq percentile "p10"
    then pv.pv_estimate10_kw
    else if str_eq percentile "p90"
    then pv.pv_estimate90_kw
    else pv.pv_estimate_kw

unfoldable pub pv_estimate_at : List PvForecast → ℕ → String → ℤ
pv_estimate_at [] t percentile = pos 0
pv_estimate_at (pv ∷ forecast) t percentile =
    let rest = pv_estimate_at forecast t percentile in
    if leb pv.start t && ltb t pv.end then estimate percentile pv else rest

-- None stands for the ValueError of a profile without the slot.
unfoldable pub house_load_at : (ℕ → ℕ) → List ℤ → ℕ → Option ℤ
house_load_at slot_index profile t = get_elem? profile (slot_index t)
