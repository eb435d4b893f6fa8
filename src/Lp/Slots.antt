-- ===== src/Lp/Slots.antt =====
-- src/optimiser/lp/formulation.py and constants.py: what the formulation looks up for each slot. The
-- exceptions of a lookup are none.
use Prim.Native.String.{String}
use energy_optimiser.Prelude.{
  ℕ, zero, suc, ◌+◌, ◌/◌, ◌%◌, ltb, Bool, false, Option, none, some, List, [], ◌∷◌, ℤ, pos, max_ℤ,
  if◌then◌else◌, get_elem?,
}
use energy_optimiser.Lp.Scenarios.{PriceInterval, PriceScenario, resolve_ip, resolve_ep}
use energy_optimiser.Lp.Forecast.{PvForecast, price_at, pv_estimate_at, house_load_at}
use energy_optimiser.Lp.Formulation.{Slot}
use energy_optimiser.Modes.{ModeOverrides}
use energy_optimiser.Modes.Values.{Json, as_number}

-- The exceptions of a lookup, ValueError or IndexError, are none.
infixl 5 ◌>>=◌
abbrev pub ◌>>=◌ {ℓ κ} : {A : Type ℓ} {B : Type κ} → Option A → (A → Option B) → Option B
none >>= f = none
some a >>= f = f a

-- `mode_overrides is not None and mode_overrides.buy_active_at[t]`
abbrev pub active_at : (ModeOverrides → List Bool) → Option ModeOverrides → ℕ → Option Bool
active_at flags none t = some false
active_at flags (some o) t = get_elem? (flags o) t

abbrev pub limit_of : (ModeOverrides → Json) → Option ModeOverrides → Option ℤ
limit_of field none = none
limit_of field (some o) = as_number (field o)

pub record Forecasts : Type 0 where
  pub prices : List PriceInterval
  pub pv_forecast : List PvForecast
  pub pv_percentile : String
  pub load_profile : List ℤ
  pub slot_index : ℕ → ℕ
  pub price_scenario : PriceScenario
  pub slot_0_pv_override_kw : Option ℤ
  pub mode_overrides : Option ModeOverrides

abbrev pub pv_at : Forecasts → ℕ → ℕ → ℤ
pv_at f zero start = elim f.slot_0_pv_override_kw [
  | none ↦ pv_estimate_at f.pv_forecast start f.pv_percentile
  | some kw ↦ max_ℤ (pos 0) kw
]
pv_at f (suc t) start = pv_estimate_at f.pv_forecast start f.pv_percentile

abbrev pub slot_with : Forecasts → ℕ → ℕ → ℤ → PriceInterval → Bool → Bool → Slot
slot_with f t start house_base price buy conserve = record {
  pv_avail = pv_at f t start;
  house_base = house_base;
  import_price = resolve_ip f.price_scenario price;
  export_price = resolve_ep f.price_scenario price;
  buy_active = buy;
  conserve_active = conserve;
}

-- What the loops look up for the slot `t` that begins at `start`.
unfoldable pub slot_of : Forecasts → ℕ → ℕ → Option Slot
slot_of f t start = do
  house_base ← house_load_at f.slot_index f.load_profile start
  price ← price_at f.prices start
  buy ← active_at (λ o. o.buy_active_at) f.mode_overrides t
  conserve ← active_at (λ o. o.conserve_active_at) f.mode_overrides t
  some (slot_with f t start house_base price buy conserve)

unfoldable pub slots_from : Forecasts → ℕ → List ℕ → Option (List Slot)
slots_from f t [] = some []
slots_from f t (start ∷ starts) = do
  s ← slot_of f t start
  slots ← slots_from f (suc t) starts
  some (s ∷ slots)

abbrev pub nem_hour : ℕ → ℕ
nem_hour t = (t + 36_000_000_000) / 3_600_000_000 % 24

-- `terminal_soc_floor_pct`, at an instant in UTC; NEM time is ten hours ahead.
abbrev pub terminal_soc_floor_pct : ℕ → ℤ
terminal_soc_floor_pct t =
    let h = nem_hour t in
    if ltb h 5
    then pos 28_000
    else if ltb h 7
    then pos 30_000
    else if ltb h 10
    then pos 22_000
    else if ltb h 14
    then pos 15_000
    else if ltb h 17
    then pos 20_000
    else if ltb h 20
    then pos 28_000
    else if ltb h 24
    then pos 22_000
    else pos 20_000
