-- ===== src/Lp/Problem/Feasible.antt =====
-- That the problem of a scenario has a solution.
use Prim.Native.String.{String}
use text.Mathlib.Text.{◌==◌ as str_eq}
use energy_optimiser.Prelude.{
  ℕ, zero, suc, ◌≡◌, Bool, ◌&&◌, Bool-cases, inl, inr, leb, ltb, Option, none, some, List, [], ◌∷◌,
  All, All-get, ℤ, pos, ◌≤ℤ◌, ◌+ℤ◌, max_ℤ, get_elem?, arith,
}
use energy_optimiser.Lp.Linear.{Assignment, Satisfied}
use energy_optimiser.Lp.Scenarios.{PriceInterval, PriceScenario}
use energy_optimiser.Lp.Forecast.{PvForecast, estimate, pv_estimate_at, house_load_at, price_at}
use energy_optimiser.Lp.Formulation.{Setting}
use energy_optimiser.Lp.Formulation.Idle.{IsServable, IsSound, idle, idle-Satisfied}
use energy_optimiser.Lp.Problem.{Request, Scenario, scenario, setting, forecasts}
use energy_optimiser.Lp.Slots.{Forecasts, active_at, pv_at, slot_with, slot_of, slots_from}
use energy_optimiser.Lp.Problem.Results.{Yields, yielded, any, next}

abbrev pub IsSunny : PvForecast → Type 0
IsSunny pv =
    (pos 0 ≤ℤ pv.pv_estimate_kw) × (pos 0 ≤ℤ pv.pv_estimate10_kw) × (pos 0 ≤ℤ pv.pv_estimate90_kw)

estimate_low :
    (percentile : String) (pv : PvForecast) → IsSunny pv → pos 0 ≤ℤ estimate percentile pv
estimate_low percentile pv (mid, low, high) = elim (Bool-cases (str_eq percentile "p10")) [
  | inl p10 ↦ rw p10 low
  | inr other ↦ elim (Bool-cases (str_eq percentile "p90")) [
    | inl p90 ↦ rw (other, p90) high
    | inr p50 ↦ rw (other, p50) mid
  ]
]

pv_estimate_at_low :
    (forecast : List PvForecast) (t : ℕ) (percentile : String)
    → All IsSunny forecast
    → pos 0 ≤ℤ pv_estimate_at forecast t percentile
unfolding pv_estimate_at
pv_estimate_at_low [] t percentile h = omega arith
pv_estimate_at_low (pv ∷ forecast) t percentile (now, later) =
    elim (Bool-cases (leb pv.start t && ltb t pv.end)) [
      | inl inside ↦ rw inside (estimate_low percentile pv now)
      | inr outside ↦ rw outside (pv_estimate_at_low forecast t percentile later)
    ]

pv_at_low : (f : Forecasts) (i t : ℕ) → All IsSunny f.pv_forecast → pos 0 ≤ℤ pv_at f i t
unfolding max_ℤ
pv_at_low f zero t h =
    elim f.slot_0_pv_override_kw
      as (λ o. pos 0 ≤ℤ (elim o [
        | none ↦ pv_estimate_at f.pv_forecast t f.pv_percentile
        | some kw ↦ max_ℤ (pos 0) kw
      ])) [ none ↦ pv_estimate_at_low f.pv_forecast t f.pv_percentile h | some kw ↦ ground arith ]
pv_at_low f (suc i) t h = pv_estimate_at_low f.pv_forecast t f.pv_percentile h

-- The load is one that the grid may serve.
abbrev pub InReach : Setting → ℤ → Type 0
InReach c kw = (pos 0 ≤ℤ kw) × (kw ≤ℤ c.battery.max_ac_charge_kw +ℤ pos 20_000)

get_elem?-yields : (P : ℤ → Type 0) (xs : List ℤ) (i : ℕ) → All P xs → Yields P (get_elem? xs i)
get_elem?-yields P [] i h = tt
get_elem?-yields P (x ∷ xs) zero h = h.0
get_elem?-yields P (x ∷ xs) (suc i) h = get_elem?-yields P xs i h.1

module _ (c : Setting) (f : Forecasts) (sunny : All IsSunny f.pv_forecast)
    (reach : All (InReach c) f.load_profile) where
  serves :
      (i t : ℕ) (kw : ℤ) (price : PriceInterval) (buy conserve : Bool)
      → InReach c kw
      → IsServable c (slot_with f i t kw price buy conserve)
  serves i t kw price buy conserve inside = record {
    sun = pv_at_low f i t sunny;
    demand = inside.0;
    supply = inside.1;
  }

  slot_of-IsServable : (i t : ℕ) → Yields (IsServable c) (slot_of f i t)
  unfolding slot_of house_load_at
  slot_of-IsServable i t =
      next (InReach c) (IsServable c) (house_load_at f.slot_index f.load_profile t) _
        (get_elem?-yields (InReach c) f.load_profile (f.slot_index t) reach)
        (λ kw inside. any (IsServable c) (price_at f.prices t) _ (λ price.
          any (IsServable c) (active_at (λ o. o.buy_active_at) f.mode_overrides i) _ (λ buy.
            any (IsServable c) (active_at (λ o. o.conserve_active_at) f.mode_overrides i)
              (λ conserve. some (slot_with f i t kw price buy conserve))
              (λ conserve. serves i t kw price buy conserve inside))))

  slots_from-IsServable :
      (i : ℕ) (starts : List ℕ) → Yields (All (IsServable c)) (slots_from f i starts)
  unfolding slots_from
  slots_from-IsServable i [] = tt
  slots_from-IsServable i (t ∷ starts) =
      next (IsServable c) (All (IsServable c)) _ _ (slot_of-IsServable i t) (λ s p.
        next (All (IsServable c)) (All (IsServable c)) _ _ (slots_from-IsServable (suc i) starts)
          (λ rest h. (p, h)))

abbrev pub Solvable : Scenario → Type 0
Solvable s = (a : Assignment) × Satisfied a s.constraints

-- Whatever the prices and the modes are, the problem of a scenario can be solved, for settings whose
-- limits are not negative, whose state of charge lies between 0 and 100 percent and under the cutoff
-- of the buy window, without loads of its own, with PV estimates that are not negative and with a
-- load profile between 0 and what the grid may deliver.
pub scenario-Solvable :
    (r : Request) (name prefix : String) (w : ℕ) (pct : String) (ps : PriceScenario) (o : Option ℤ)
    (start : ℕ) (starts : List ℕ) (s : Scenario)
    → IsSound (setting r prefix start starts)
    → All IsSunny r.pv_forecast
    → All (InReach (setting r prefix start starts)) r.load_profile
    → scenario r name prefix w pct ps o start starts ≡ some s
    → Solvable s
unfolding scenario
scenario-Solvable r name prefix w pct ps o start starts s sound sunny reach e =
    let c = setting r prefix start starts in
    let slots_served =
      slots_from-IsServable c (forecasts r pct ps o) sunny reach 0 (start ∷ starts) in
    yielded Solvable (scenario r name prefix w pct ps o start starts) s
      (next (All (IsServable c)) Solvable (slots_from (forecasts r pct ps o) 0 (start ∷ starts)) _
        slots_served
        (λ slots served. (
          idle c slots,
          idle-Satisfied c slots sound (λ i t. All-get (IsServable c) slots i t served),
        )))
      e
