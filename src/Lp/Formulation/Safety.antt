-- ===== src/Lp/Formulation/Safety.antt =====
-- What every solution of a scenario keeps to.
use energy_optimiser.Prelude.{
  ℕ, ◌≡◌, refl, Bool, true, false, ◌&&◌, Option, none, some, List, [], ◌∷◌, ℤ, pos, ◌+ℤ◌, ◌-ℤ◌,
  ◌≤ℤ◌, get_elem?, arith, int_laws, parts_of_eq, ◌⊎◌, inl, inr,
}
use energy_optimiser.Lp.Linear.{
  Assignment, Constraint, Holds, Satisfied, value, Column, bat_charge_grid, bat_charge_pv,
  bat_discharge, grid_import, grid_export, pv_to_house, pv_to_battery, pv_to_export, pv_curtailed,
  soc_pct, soc_over_ceiling,
}
use energy_optimiser.Lp.Linear.Laws.{Satisfied-append, for_slots-at}
use energy_optimiser.Lp.Formulation.{
  Setting, Slot, add_scenario, slot_constraints, variable_bounds, buy_constraints,
  conserve_constraints, exceeds, undercuts, effective_floor, load_total, cutoff_constraint, when,
}
use energy_optimiser.Lp.Formulation.Parts.{groups}

-- From the three equations of a slot.
house_balance :
    (pvh pvb pve pvc avail bcp bd gi house load bcg ge : ℤ)
    → pvh +ℤ pvb +ℤ pve +ℤ pvc ≡ avail
    → bcp ≡ pvb
    → avail -ℤ pvc +ℤ bd +ℤ gi ≡ house +ℤ load +ℤ bcg +ℤ bcp +ℤ ge
    → pvh +ℤ pve +ℤ bd +ℤ gi ≡ house +ℤ load +ℤ bcg +ℤ ge
house_balance pvh pvb pve pvc avail bcp bd gi house load bcg ge alloc link balance = omega (
  int_laws,
  parts_of_eq (pvh +ℤ pvb +ℤ pve +ℤ pvc) avail alloc,
  parts_of_eq bcp pvb link,
  parts_of_eq (avail -ℤ pvc +ℤ bd +ℤ gi) (house +ℤ load +ℤ bcg +ℤ bcp +ℤ ge) balance,
)

-- If nothing is exported but PV, the battery only serves the house.
discharge_bound :
    (pvh pve bd gi house bcg ge : ℤ)
    → pvh +ℤ pve +ℤ bd +ℤ gi ≡ house +ℤ bcg +ℤ ge
    → bcg ≤ℤ gi
    → ge ≤ℤ pve
    → bd +ℤ pvh ≤ℤ house
discharge_bound pvh pve bd gi house bcg ge balance source export =
    omega (int_laws, parts_of_eq (pvh +ℤ pve +ℤ bd +ℤ gi) (house +ℤ bcg +ℤ ge) balance)

exactly : (x y : ℤ) → x ≤ℤ y → y ≤ℤ x → x ≡ y
exactly x y p q = omega int_laws

-- No limit, or not above it.
abbrev pub Under : ℤ → Option ℤ → Type 0
Under x none = Unit
Under x (some limit) = x ≤ℤ limit

when_cases :
    (a : Assignment) (b : Bool) (x : Constraint)
    → Satisfied a (when b (x ∷ []))
    → (b ≡ false) ⊎ Holds a x
when_cases a true x h = inr h.0
when_cases a false x h = inl refl

when_true :
    (a : Assignment) (b : Bool) (cs : List Constraint)
    → b ≡ true
    → Satisfied a (when b cs)
    → Satisfied a cs
when_true a true cs e h = h
when_true a false cs e h = cc

cutoff-Under :
    (a : Assignment) (c : Setting) (t : ℕ) (cutoff : Option ℤ)
    → Satisfied a (cutoff_constraint c t cutoff)
    → Under (a c.prefix soc_pct t) cutoff
cutoff-Under a c t none h = tt
cutoff-Under a c t (some x) h = h.0

module _ (a : Assignment) (c : Setting) (slots : List Slot) (h : Satisfied a (add_scenario c slots))
    (i : ℕ) (s : Slot) (e : get_elem? slots i ≡ some s) where
  -- A variable of the slot.
  abbrev pub flow : Column → ℤ
  flow column = a c.prefix column i

  abbrev pub load_kw : ℤ
  load_kw = value a (load_total c i)

  balance :
      flow pv_to_house +ℤ flow pv_to_export +ℤ flow bat_discharge +ℤ flow grid_import
      ≡ s.house_base +ℤ load_kw +ℤ flow bat_charge_grid +ℤ flow grid_export
  unfolding slot_constraints
  balance =
      let (alloc, (link, (system, _))) =
        for_slots-at a (slot_constraints c) slots i s (groups a c slots h).rows e in
      house_balance (flow pv_to_house) (flow pv_to_battery) (flow pv_to_export) (flow pv_curtailed)
        s.pv_avail (flow bat_charge_pv) (flow bat_discharge) (flow grid_import) s.house_base load_kw
        (flow bat_charge_grid) (flow grid_export) alloc link system

  -- The rows about the sources of charge and export.
  sources :
      (flow bat_charge_grid ≤ℤ flow grid_import)
      × (flow pv_to_house ≤ℤ s.house_base +ℤ load_kw)
      × (flow pv_to_export ≤ℤ flow grid_export)
      × (flow soc_pct ≤ℤ c.battery.soc_ceiling_pct +ℤ flow soc_over_ceiling)
      × (effective_floor c ≤ℤ flow soc_pct)
  unfolding slot_constraints
  sources =
      let (_, (_, (_, (grid, (house, (export, (ceiling, (floor, _)))))))) =
        for_slots-at a (slot_constraints c) slots i s (groups a c slots h).rows e in
      (grid, house, export, ceiling, floor)

  serves_house :
      flow grid_export ≤ℤ flow pv_to_export
      → flow bat_discharge +ℤ flow pv_to_house ≤ℤ s.house_base +ℤ load_kw
  serves_house export =
      discharge_bound (flow pv_to_house) (flow pv_to_export) (flow bat_discharge) (flow grid_import)
        (s.house_base +ℤ load_kw) (flow bat_charge_grid) (flow grid_export) balance sources.0 export

  -- What the buy constraints of the slot say.
  bought :
      s.buy_active ≡ true
      → ((exceeds s.import_price c.buy_ceiling ≡ false) ⊎ (flow bat_charge_grid ≡ pos 0))
        × (flow grid_export ≤ℤ flow pv_to_export)
        × Under (flow soc_pct) c.buy_soc_cutoff
  unfolding buy_constraints
  bought on =
      let rows = for_slots-at a (buy_constraints c) slots i s (groups a c slots h).buy e in
      let (first, cutoff) =
        Satisfied-append a _ (cutoff_constraint c i c.buy_soc_cutoff)
          (when_true a s.buy_active _ on rows) in
      let (ceiling, export) =
        Satisfied-append a (when (exceeds s.import_price c.buy_ceiling) _) _ first in
      (
        when_cases a (exceeds s.import_price c.buy_ceiling) _ ceiling,
        export.0,
        cutoff-Under a c i c.buy_soc_cutoff cutoff,
      )

  -- In every solution, in a slot in which buy mode is on: no grid charging above the price ceiling, no state of charge
  -- above the cutoff, all export is PV, and the battery and the PV's house share together do not
  -- exceed what the house and the loads draw.
  pub buy_window :
      s.buy_active ≡ true
      → ((exceeds s.import_price c.buy_ceiling ≡ false) ⊎ (flow bat_charge_grid ≡ pos 0))
        × Under (flow soc_pct) c.buy_soc_cutoff
        × (flow grid_export ≡ flow pv_to_export)
        × (flow bat_discharge +ℤ flow pv_to_house ≤ℤ s.house_base +ℤ load_kw)
  buy_window on =
      let (ceiling, export, cutoff) = bought on in
      let (_, _, share, _, _) = sources in
      (
        ceiling,
        cutoff,
        exactly (flow grid_export) (flow pv_to_export) export share,
        serves_house export,
      )

  pv_export_lower : pos 0 ≤ℤ flow pv_to_export
  unfolding variable_bounds
  pv_export_lower =
      (for_slots-at a (variable_bounds c) slots i s (groups a c slots h).bounds
        e).1.1.1.1.1.1.1.1.1.1.1.1.1.1.0

  soc_bounds : (pos 0 ≤ℤ flow soc_pct) × (flow soc_pct ≤ℤ pos 100_000)
  unfolding variable_bounds
  soc_bounds =
      let rest =
        (for_slots-at a (variable_bounds c) slots i s (groups a c slots h).bounds
          e).1.1.1.1.1.1.1.1.1.1.1.1.1.1.1.1.1.1 in
      (rest.0, rest.1.0)

  -- In every solution, in a slot in which conserve mode is on and the export price is below its floor: nothing is
  -- exported, no PV either, and the battery and the PV's house share together do not exceed what the
  -- house and the loads draw.
  pub conserve_window :
      s.conserve_active ≡ true
      → undercuts s.export_price c.conserve_floor ≡ true
      → (flow grid_export ≡ pos 0)
        × (flow pv_to_export ≡ pos 0)
        × (flow bat_discharge +ℤ flow pv_to_house ≤ℤ s.house_base +ℤ load_kw)
  unfolding conserve_constraints
  conserve_window on under =
      let rows =
        for_slots-at a (conserve_constraints c) slots i s (groups a c slots h).conserve e in
      let none_exported =
        (when_true a (s.conserve_active && undercuts s.export_price c.conserve_floor) _
          (ground (arith, on, under)) rows).0 in
      let (_, _, share, _, _) = sources in
      let zero_kw = parts_of_eq (flow grid_export) (pos 0) none_exported in
      (
        none_exported,
        exactly (flow pv_to_export) (pos 0) (omega (int_laws, zero_kw, share)) pv_export_lower,
        serves_house (omega (int_laws, zero_kw, pv_export_lower)),
      )
