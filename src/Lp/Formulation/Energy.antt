-- ===== src/Lp/Formulation/Energy.antt =====
-- The state of charge over the slots of a solution.
use energy_optimiser.Prelude.{
  ℕ, zero, suc, ◌*◌, ◌<◌, ◌≡◌, List, ℤ, pos, ◌+ℤ◌, scale, get_elem?-some, length, arith, int_laws,
  scale_add, parts_of_eq,
}
use energy_optimiser.Lp.Linear.{
  Assignment, Satisfied, bat_charge_grid, bat_charge_pv, bat_discharge, soc_pct,
}
use energy_optimiser.Lp.Linear.Laws.{for_slots-at}
use energy_optimiser.Lp.Formulation.{Setting, Slot, add_scenario, soc_dynamics}
use energy_optimiser.Lp.Formulation.Parts.{groups}

-- The sum over the slots before the n-th.
abbrev pub sum_to : (ℕ → ℤ) → ℕ → ℤ
sum_to f zero = pos 0
sum_to f (suc n) = sum_to f n +ℤ f n

-- One step of the accounts, for the sums D and E so far: K x + d D = K y + c E goes on to the next
-- slot by its dynamics.
account :
    (K d c : ℕ) (x y z D E bd ch : ℤ)
    → scale K y +ℤ scale d D ≡ scale K z +ℤ scale c E
    → scale K x +ℤ scale d bd ≡ scale K y +ℤ scale c ch
    → scale K x +ℤ scale d (D +ℤ bd) ≡ scale K z +ℤ scale c (E +ℤ ch)
account K d c x y z D E bd ch before step =
    rw (scale_add d D bd, scale_add c E ch)
      (omega (
        int_laws,
        parts_of_eq (scale K y +ℤ scale d D) (scale K z +ℤ scale c E) before,
        parts_of_eq (scale K x +ℤ scale d bd) (scale K y +ℤ scale c ch) step,
      ))

scale_zero : (k : ℕ) → scale k (pos 0) ≡ pos 0
unfolding scale
scale_zero k = ground arith

module _ (a : Assignment) (c : Setting) (slots : List Slot)
    (h : Satisfied a (add_scenario c slots)) where
  abbrev pub discharge : ℕ → ℤ
  discharge t = a c.prefix bat_discharge t

  abbrev pub charge : ℕ → ℤ
  charge t = a c.prefix bat_charge_grid t +ℤ a c.prefix bat_charge_pv t

  abbrev pub soc : ℕ → ℤ
  soc t = a c.prefix soc_pct t

  -- In every solution, with energies as sums of powers over the slots up to t, in units that make
  -- the coefficients whole, the charge after slot t is the first one, with what was charged times the efficiency, and
  -- without what was discharged. Losses are taken on charging only.
  pub energy_account :
      (t : ℕ)
      → t < length slots
      → scale (60 * c.battery.capacity_kwh) (soc t)
          +ℤ scale (100_000 * c.slot_minutes) (sum_to discharge (suc t))
        ≡ scale (60 * c.battery.capacity_kwh) c.state_soc_pct
          +ℤ scale (100 * c.slot_minutes * c.battery.round_trip_efficiency) (sum_to charge (suc t))
  unfolding soc_dynamics
  energy_account zero lt =
      let (s, e) = get_elem?-some slots 0 lt in
      let step = (for_slots-at a (soc_dynamics c) slots 0 s (groups a c slots h).dynamics e).0 in
      account (60 * c.battery.capacity_kwh) (100_000 * c.slot_minutes)
        (100 * c.slot_minutes * c.battery.round_trip_efficiency) (soc 0) c.state_soc_pct
        c.state_soc_pct (pos 0) (pos 0) (discharge 0) (charge 0)
        (rw (
          scale_zero (100_000 * c.slot_minutes),
          scale_zero (100 * c.slot_minutes * c.battery.round_trip_efficiency),
        ))
        step
  energy_account (suc t) lt =
      let (s, e) = get_elem?-some slots (suc t) lt in
      let step =
        (for_slots-at a (soc_dynamics c) slots (suc t) s (groups a c slots h).dynamics e).0 in
      account (60 * c.battery.capacity_kwh) (100_000 * c.slot_minutes)
        (100 * c.slot_minutes * c.battery.round_trip_efficiency) (soc (suc t)) (soc t)
        c.state_soc_pct (sum_to discharge (suc t)) (sum_to charge (suc t)) (discharge (suc t))
        (charge (suc t)) (energy_account t (omega arith)) step
