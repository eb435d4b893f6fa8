-- ===== src/Lp/Problem/Lookups.antt =====
-- That no lookup of the formulation raises.
use Prim.Native.String.{String}
use energy_optimiser.Prelude.{
  ℕ, zero, suc, ◌+◌, ◌*◌, ◌/◌, ◌≤◌, ◌<◌, ◌≡◌, refl, ap, subst, ◌∙◌, none, some, List, [], ◌∷◌,
  get_elem?, get_elem?-some, length, arith,
}
use energy_optimiser.Lp.Scenarios.{PriceInterval}
use energy_optimiser.Lp.Forecast.{
  minute, price_at, house_load_at, grid_from, take_before, horizon_end, slot_grid, snapped,
  truncate_to_priced,
}
use energy_optimiser.Lp.Forecast.Coverage.{Contiguous, truncate_to_priced-Priced}
use energy_optimiser.Lp.Formulation.{Slot}
use energy_optimiser.Lp.Problem.{
  Request, Scenario, scenario, build_lp, single, priced_slots, forecasts, point_scenario,
}
use energy_optimiser.Lp.Slots.{Forecasts, slot_of, slots_from}

-- All lookups of a slot at `t` succeed.
pub record IsKnown (f : Forecasts) (t : ℕ) : Type 0 where
  pub price : PriceInterval
  pub priced : price_at f.prices t ≡ some price
  pub in_profile : f.slot_index t < length f.load_profile

module _ (f : Forecasts) (no_modes : f.mode_overrides ≡ none) where
  slot_of_total : (i t : ℕ) → IsKnown f t → (s : Slot) × (slot_of f i t ≡ some s)
  unfolding slot_of house_load_at
  slot_of_total i t k =
      let (kw, found) = get_elem?-some f.load_profile (f.slot_index t) k.in_profile in
      rw (found, k.priced, no_modes) (_, refl)

  slots_from_total :
      (i : ℕ) (starts : List ℕ)
      → ((j t : ℕ) → get_elem? starts j ≡ some t → IsKnown f t)
      → (slots : List Slot) × (slots_from f i starts ≡ some slots)
  unfolding slots_from
  slots_from_total i [] h = ([], refl)
  slots_from_total i (t ∷ starts) h =
      let (s, now) = slot_of_total i t (h 0 t refl) in
      let (slots, later) = slots_from_total (suc i) starts (λ j u e. h (suc j) u e) in
      rw (now, later) (_, refl)

-- The slots of a grid do not begin before it.
grid_from-get_low :
    (start step n i t : ℕ) → get_elem? (grid_from start step n) i ≡ some t → start ≤ t
grid_from-get_low start step zero i t e = cc
grid_from-get_low start step (suc n) zero t e = let same : start ≡ t = cc in omega (arith, same)
grid_from-get_low start step (suc n) (suc i) t e =
    omega (arith, grid_from-get_low (start + step) step n i t e)

-- And what the truncation keeps of a list belongs to it.
take_before-get :
    (end : ℕ) (slots : List ℕ) (i t : ℕ)
    → get_elem? (take_before end slots) i ≡ some t
    → get_elem? slots i ≡ some t
take_before-get end [] i t e = e
take_before-get end (s ∷ slots) zero t e = ground (arith, e)
take_before-get end (s ∷ slots) (suc i) t e = ground (arith, e, take_before-get end slots i t)

-- The first slot stays if prices reach beyond its start.
take_before-first :
    (end s : ℕ) (slots : List ℕ)
    → s < end
    → (rest : List ℕ) × (take_before end (s ∷ slots) ≡ s ∷ rest)
take_before-first end s slots lt = (take_before end slots, ground arith)

grid_from-first :
    (start step n : ℕ) → 0 < n → (rest : List ℕ) × (grid_from start step n ≡ start ∷ rest)
grid_from-first start step zero lt = elim lt [ ]
grid_from-first start step (suc n) lt = (grid_from (start + step) step n, refl)

module _ (r : Request) (percentile : String) (p : PriceInterval) (prices : List PriceInterval)
    (given : r.prices_planning ≡ p ∷ prices) (h : Contiguous p prices)
    (from : p.start ≤ snapped r.timestamp r.slot_minutes)
    (until : snapped r.timestamp r.slot_minutes < horizon_end p prices)
    (some_slot : 0 < r.horizon_hours * 60 / r.slot_minutes)
    (in_profile : (t : ℕ) → r.slot_index t < length r.load_profile)
    (no_modes : r.mode_overrides ≡ none) where
  abbrev grid : List ℕ
  grid = slot_grid r.timestamp r.horizon_hours r.slot_minutes

  known :
      (j t : ℕ)
      → get_elem? (priced_slots r) j ≡ some t
      → IsKnown (forecasts r percentile point_scenario none) t
  unfolding truncate_to_priced slot_grid
  known j t e =
      let kept = subst (λ ps. get_elem? (truncate_to_priced grid ps) j ≡ some t) given e in
      let low = grid_from-get_low _ _ _ j t (take_before-get (horizon_end p prices) _ j t kept) in
      let (q, found, _, _) =
        truncate_to_priced-Priced p prices _ j t h kept (omega (arith, low, from)) in
      record { price = q; priced = rw given found; in_profile = in_profile t }

  nonempty : (start : ℕ) × (starts : List ℕ) × (priced_slots r ≡ start ∷ starts)
  unfolding truncate_to_priced slot_grid
  nonempty =
      let (rest, cut) =
        grid_from-first (snapped r.timestamp r.slot_minutes) (r.slot_minutes * minute) _
          some_slot in
      let (kept, first) =
        take_before-first (horizon_end p prices) (snapped r.timestamp r.slot_minutes) rest until in
      (
        _,
        kept,
        ap (truncate_to_priced grid) given ∙ ap (take_before (horizon_end p prices)) cut ∙ first,
      )

  scenario_total :
      (starts : List ℕ)
      → ((j t : ℕ)
          → get_elem? starts j ≡ some t
          → IsKnown (forecasts r percentile point_scenario none) t)
      → (start : ℕ) × (rest : List ℕ) × (starts ≡ start ∷ rest)
      → (s : Scenario) × (single r percentile starts ≡ some s)
  unfolding scenario
  scenario_total [] k n = cc
  scenario_total (start ∷ starts) k n =
      let (slots, found) =
        slots_from_total (forecasts r percentile point_scenario none) no_modes 0 (start ∷ starts)
          k in
      rw found (_, refl)

  -- With price intervals that leave no gap and hold the first slot, a load profile that knows every
  -- slot of the day and no active modes, the problem of at least one slot is built: no lookup raises,
  -- however far the horizon reaches beyond the prices.
  pub build_lp_total : (s : Scenario) × (build_lp r percentile ≡ some s)
  unfolding build_lp
  build_lp_total = scenario_total (priced_slots r) known nonempty
