-- ===== src/Lp/Formulation/Idle.antt =====
-- A plan that is always there: the battery rests, the grid serves the house, the PV is curtailed.
use energy_optimiser.Prelude.{
  ℕ, zero, suc, ◌*◌, ◌-◌, ◌≡◌, refl, Bool, true, false, ◌&&◌, Option, none, some, List, [], ℤ, pos,
  ◌+ℤ◌, ◌-ℤ◌, ◌≤ℤ◌, scale, min_ℤ, max_ℤ, get_elem?, length, arith, subst, sym, map, int_laws,
  -ℤ_parts, parts_of_eq, ap,
}
use energy_optimiser.Lp.Linear.{
  lp_sum, Assignment, Constraint, Satisfied, value, grid_import, pv_curtailed, soc_pct,
  soc_over_ceiling, soc_terminal_slack,
}
use energy_optimiser.Lp.Linear.Laws.{for_slots-every, append-Satisfied}
use energy_optimiser.Lp.Formulation.{
  Setting, Slot, add_scenario, slot_constraints, variable_bounds, soc_dynamics, buy_constraints,
  conserve_constraints, terminal_soc, exceeds, undercuts, configured_floor, terminal_floor,
  cutoff_constraint, when, load_constraints, load_total,
}
use energy_optimiser.Lp.Formulation.Parts.{together}
use energy_optimiser.Lp.Formulation.Safety.{Under}

abbrev pub kw_at : (Slot → ℤ) → Option Slot → ℤ
kw_at kw none = pos 0
kw_at kw (some s) = kw s

-- The excess of x over y, if there is one.
abbrev pub excess : ℤ → ℤ → ℤ
excess x y = max_ℤ (pos 0) (x -ℤ y)

abbrev pub idle : Setting → List Slot → Assignment
idle c slots prefix grid_import t = kw_at (λ s. s.house_base) (get_elem? slots t)
idle c slots prefix pv_curtailed t = kw_at (λ s. s.pv_avail) (get_elem? slots t)
idle c slots prefix soc_pct t = c.state_soc_pct
idle c slots prefix soc_over_ceiling t = excess c.state_soc_pct c.battery.soc_ceiling_pct
idle c slots prefix soc_terminal_slack t = excess (terminal_floor c) c.state_soc_pct
idle c slots prefix _ t = pos 0

-- What a slot and the settings have to allow.
pub record IsServable (c : Setting) (s : Slot) : Type 0 where
  pub sun : pos 0 ≤ℤ s.pv_avail
  pub demand : pos 0 ≤ℤ s.house_base
  pub supply : s.house_base ≤ℤ c.battery.max_ac_charge_kw +ℤ pos 20_000

pub record IsSound (c : Setting) : Type 0 where
  pub grid_limit : pos 0 ≤ℤ c.battery.max_ac_charge_kw
  pub pv_limit : pos 0 ≤ℤ c.battery.max_dc_charge_kw
  pub discharge_limit : pos 0 ≤ℤ c.battery.max_discharge_kw
  pub export_limit : pos 0 ≤ℤ c.battery.export_limit_kw
  pub charge_low : pos 0 ≤ℤ c.state_soc_pct
  pub charge_high : c.state_soc_pct ≤ℤ pos 100_000
  pub cutoff : Under c.state_soc_pct c.buy_soc_cutoff
  pub no_loads : c.loads ≡ []

excess_low : (x y : ℤ) → pos 0 ≤ℤ excess x y
unfolding max_ℤ
excess_low x y = ground (arith, -ℤ_parts x y)

excess_enough : (x y : ℤ) → x ≤ℤ y +ℤ excess x y
unfolding max_ℤ ◌+ℤ◌ ◌-ℤ◌
excess_enough x y = ground arith

min_left : (x y : ℤ) → min_ℤ x y ≤ℤ x
unfolding min_ℤ
min_left x y = ground arith

scale_zero : (k : ℕ) → scale k (pos 0) ≡ pos 0
unfolding scale
scale_zero k = ground arith

when_holds :
    (a : Assignment) (b : Bool) (cs : List Constraint) → Satisfied a cs → Satisfied a (when b cs)
when_holds a true cs h = h
when_holds a false cs h = tt

module _ (c : Setting) (slots : List Slot) (ok : IsSound c)
    (served : (i : ℕ) (s : Slot) → get_elem? slots i ≡ some s → IsServable c s) where
  no_load : (i : ℕ) → value (idle c slots) (load_total c i) ≡ pos 0
  no_load i =
      ap (λ loads. value (idle c slots) (lp_sum (map (λ load. load.power_kw i) loads))) ok.no_loads

  below_cutoff :
      (i : ℕ) (cutoff : Option ℤ)
      → Under c.state_soc_pct cutoff
      → Satisfied (idle c slots) (cutoff_constraint c i cutoff)
  below_cutoff i none h = tt
  below_cutoff i (some limit) h = (h, tt)

  bounds_hold :
      (i : ℕ) (s : Slot)
      → get_elem? slots i ≡ some s
      → Satisfied (idle c slots) (variable_bounds c i s)
  unfolding variable_bounds
  bounds_hold i s e =
      let able = served i s e in
      rw e (
        omega arith,
        (
          ok.grid_limit,
          (
            omega arith,
            (
              ok.pv_limit,
              (
                omega arith,
                (
                  ok.discharge_limit,
                  (
                    able.demand,
                    (
                      able.supply,
                      (
                        omega arith,
                        (
                          ok.export_limit,
                          (
                            omega arith,
                            (
                              able.sun,
                              (
                                omega arith,
                                (
                                  able.sun,
                                  (
                                    omega arith,
                                    (
                                      able.sun,
                                      (
                                        able.sun,
                                        (
                                          omega arith,
                                          (
                                            ok.charge_low,
                                            (
                                              ok.charge_high,
                                              (
                                                excess_low c.state_soc_pct
                                                    c.battery.soc_ceiling_pct,
                                                tt,
                                              ),
                                            ),
                                          ),
                                        ),
                                      ),
                                    ),
                                  ),
                                ),
                              ),
                            ),
                          ),
                        ),
                      ),
                    ),
                  ),
                ),
              ),
            ),
          ),
        ),
      )

  rows_hold :
      (i : ℕ) (s : Slot)
      → get_elem? slots i ≡ some s
      → Satisfied (idle c slots) (slot_constraints c i s)
  unfolding slot_constraints
  rows_hold i s e =
      let able = served i s e in
      rw e (
        omega int_laws,
        (
          refl,
          (
            let none = no_load i in
                omega (int_laws, parts_of_eq (value (idle c slots) (load_total c i)) (pos 0) none),
            (
              able.demand,
              (
                let none = no_load i in
                    omega
                      (int_laws, parts_of_eq (value (idle c slots) (load_total c i)) (pos 0) none),
                (
                  omega arith,
                  (
                    excess_enough c.state_soc_pct c.battery.soc_ceiling_pct,
                    (min_left c.state_soc_pct (configured_floor c.battery), tt),
                  ),
                ),
              ),
            ),
          ),
        ),
      )

  rest :
      (d e : ℕ)
      → scale (60 * c.battery.capacity_kwh) c.state_soc_pct +ℤ scale d (pos 0)
        ≡ scale (60 * c.battery.capacity_kwh) c.state_soc_pct +ℤ scale e (pos 0 +ℤ pos 0)
  unfolding ◌+ℤ◌
  rest d e = rw (scale_zero d, scale_zero e) refl

  dynamics_hold :
      (i : ℕ) (s : Slot)
      → get_elem? slots i ≡ some s
      → Satisfied (idle c slots) (soc_dynamics c i s)
  unfolding soc_dynamics
  dynamics_hold zero s e = (rest _ _, tt)
  dynamics_hold (suc i) s e = (rest _ _, tt)

  buy_hold :
      (i : ℕ) (s : Slot)
      → get_elem? slots i ≡ some s
      → Satisfied (idle c slots) (buy_constraints c i s)
  unfolding buy_constraints
  buy_hold i s e = when_holds (idle c slots) s.buy_active _ (
      append-Satisfied (idle c slots) _ _
        (append-Satisfied (idle c slots) _ _
          (when_holds (idle c slots) (exceeds s.import_price c.buy_ceiling) _ (refl, tt))
          (omega arith, tt))
        (below_cutoff i c.buy_soc_cutoff ok.cutoff))

  conserve_hold :
      (i : ℕ) (s : Slot)
      → get_elem? slots i ≡ some s
      → Satisfied (idle c slots) (conserve_constraints c i s)
  unfolding conserve_constraints
  conserve_hold i s e =
      when_holds (idle c slots) (s.conserve_active && undercuts s.export_price c.conserve_floor) _
        (refl, tt)

  terminal_holds : (last : ℕ) → Satisfied (idle c slots) (terminal_soc c last)
  unfolding terminal_soc
  terminal_holds last =
      let enough = excess_enough (terminal_floor c) c.state_soc_pct in
      (excess_low (terminal_floor c) c.state_soc_pct, (omega (int_laws, enough), tt))

  loads_hold : Satisfied (idle c slots) (load_constraints c.loads)
  loads_hold =
      subst (λ loads. Satisfied (idle c slots) (load_constraints loads)) (sym ok.no_loads) tt

  -- For settings whose limits are not negative, whose state of charge lies between 0 and 100
  -- percent and under the cutoff of the buy window, and without loads of its own, the constraints
  -- of a scenario can be satisfied, whatever the prices, if each slot's PV is not negative and its
  -- house load lies between 0 and what the grid may deliver: `idle` satisfies them.
  pub idle-Satisfied : Satisfied (idle c slots) (add_scenario c slots)
  idle-Satisfied = together (idle c slots) c slots (record {
    bounds = for_slots-every (idle c slots) (variable_bounds c) slots bounds_hold;
    loads = loads_hold;
    rows = for_slots-every (idle c slots) (slot_constraints c) slots rows_hold;
    dynamics = for_slots-every (idle c slots) (soc_dynamics c) slots dynamics_hold;
    terminal = terminal_holds (length slots - 1);
    buy = for_slots-every (idle c slots) (buy_constraints c) slots buy_hold;
    conserve = for_slots-every (idle c slots) (conserve_constraints c) slots conserve_hold;
  })
