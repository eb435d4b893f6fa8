-- ===== src/Lp/Dispatch/Mapping.antt =====
-- Which command a slot yields.
use energy_optimiser.Prelude.{◌≡◌, ◌≢◌, ◌↔◌, Bool, Option, ℤ, pos, negsuc, ◌≤ℤ◌, ◌<ℤ◌, arith, abs}
use energy_optimiser.Lp.Dispatch.{
  BatteryConfig, SlotDecision, self_consume, charge, discharge, pcs_remote_control, standby,
  command_charging_grid_first, command_charging_pv_first, command_discharging_ess_first,
  deadband_kw, grid_charge_material_kw, pv_producing_threshold_kw, pv_signal_kw, safe_cutoff_pct,
  dispatch_from_slot,
}

module _ (s : SlotDecision) (c : BatteryConfig) (soc : ℤ) (pv : Option ℤ) (buy : Bool) where
  -- The kind of the command follows the planned battery power alone: idle exactly within the
  -- deadband of 0.1 kW, charge exactly from it upwards, discharge exactly from it downwards.
  -- The planned power is kept as the command's intent.
  pub dispatch_kind :
      ((dispatch_from_slot s c soc pv buy).kind ≡ self_consume ↔ (abs s.battery_kw <ℤ deadband_kw))
      × ((dispatch_from_slot s c soc pv buy).kind ≡ charge ↔ (deadband_kw ≤ℤ s.battery_kw))
      × ((dispatch_from_slot s c soc pv buy).kind ≡ discharge ↔ (s.battery_kw ≤ℤ negsuc 99))
      × ((dispatch_from_slot s c soc pv buy).signed_intent_kw ≡ s.battery_kw)
  unfolding dispatch_from_slot
  dispatch_kind = ground arith

  -- Modes 0, 1 and 3 are never commanded. Mode 4, the only one left that imports to charge, is
  -- commanded exactly for a charge with at least 0.25 kW from the grid. Mode 6, which stops PV,
  -- is commanded exactly for a discharge at a PV power of 0.2 kW or less.
  pub dispatch_mode :
      ((dispatch_from_slot s c soc pv buy).mode ≢ pcs_remote_control)
      × ((dispatch_from_slot s c soc pv buy).mode ≢ standby)
      × ((dispatch_from_slot s c soc pv buy).mode ≢ command_charging_grid_first)
      × ((dispatch_from_slot s c soc pv buy).mode ≡ command_charging_pv_first
          ↔ ((deadband_kw ≤ℤ s.battery_kw) × (grid_charge_material_kw ≤ℤ s.grid_to_battery_kw)))
      × ((dispatch_from_slot s c soc pv buy).mode ≡ command_discharging_ess_first
          ↔ ((s.battery_kw ≤ℤ negsuc 99) × (pv_signal_kw pv s ≤ℤ pv_producing_threshold_kw)))
  unfolding dispatch_from_slot
  dispatch_mode = ground arith

-- The advisory state of charge lies between 0 and 100 percent. It is at least the current one
-- wherever that is at most 100, and at least the planned one wherever that is.
pub safe_cutoff_bounds :
    (target current : ℤ)
    → (pos 0 ≤ℤ safe_cutoff_pct target current)
      × (safe_cutoff_pct target current ≤ℤ pos 100_000)
      × (current ≤ℤ pos 100_000 → current ≤ℤ safe_cutoff_pct target current)
      × (target ≤ℤ pos 100_000 → target ≤ℤ safe_cutoff_pct target current)
unfolding safe_cutoff_pct
safe_cutoff_bounds target current = ground arith
