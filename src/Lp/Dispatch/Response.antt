-- ===== src/Lp/Dispatch/Response.antt =====
-- Which measurements the verification accepts.
use energy_optimiser.Prelude.{
  ◌≡◌, ◌≢◌, ◌↔◌, ◌⊎◌, ◌≤◌, ◌+◌, ◌*◌, Bool, true, Option, ℤ, pos, ◌≤ℤ◌, ◌+ℤ◌, neg, +ℤ_parts, arith,
  pos_part, neg_part,
}
use energy_optimiser.Lp.Dispatch.{
  BatteryConfig, SlotDecision, LpDispatch, self_consume, charge, discharge,
  maximum_self_consumption, conforms, not_verified, dispatch_from_slot, verify_battery_response,
}

-- Within five percent of the cap: 20 m ≤ 21 cap.
abbrev pub WithinCap : ℤ → ℤ → Type 0
WithinCap m cap = 20 * pos_part m + 21 * neg_part cap ≤ 21 * pos_part cap + 20 * neg_part m

module _ (d : LpDispatch) (m floor : ℤ) where
  accepts_charge :
      d.kind ≡ charge
      → verify_battery_response d m floor ≡ conforms
        ↔ ((pos 0 ≤ℤ m +ℤ floor) × (d.mode ≢ maximum_self_consumption → WithinCap m d.cap_kw))
  unfolding verify_battery_response ◌+ℤ◌
  accepts_charge k = ground arith

  accepts_discharge :
      d.kind ≡ discharge
      → verify_battery_response d m floor ≡ conforms ↔ ((m ≤ℤ floor) × WithinCap (neg m) d.cap_kw)
  unfolding verify_battery_response
  accepts_discharge k = ground arith

  -- A charge is accepted exactly when the battery does not discharge by more than the floor and,
  -- outside mode 2, charges by at most 105 percent of the cap. A discharge is accepted exactly
  -- when the battery does not charge by more than the floor and discharges by at most 105 percent
  -- of the cap. Self-consumption, and only that, is not verified.
  pub verify_accepts :
      (d.kind ≡ charge
        → verify_battery_response d m floor ≡ conforms
          ↔ ((pos 0 ≤ℤ m +ℤ floor) × (d.mode ≢ maximum_self_consumption → WithinCap m d.cap_kw)))
      × (d.kind ≡ discharge
          → verify_battery_response d m floor ≡ conforms
            ↔ ((m ≤ℤ floor) × WithinCap (neg m) d.cap_kw))
      × (verify_battery_response d m floor ≡ not_verified ↔ (d.kind ≡ self_consume))
  unfolding verify_battery_response
  verify_accepts = (accepts_charge, accepts_discharge, ground arith)

module _ (s : SlotDecision) (c : BatteryConfig) (soc : ℤ) (pv : Option ℤ) (buy : Bool) where
  -- An inverter whose battery power lies between zero and the planned power is never flagged, for
  -- a floor that is not negative, a planned discharge within the battery's limit and, while buy
  -- mode is on, a planned charge within the AC and DC limits together.
  pub dispatch_tracked :
      (m floor : ℤ)
      → pos 0 ≤ℤ floor
      → (pos 0 ≤ℤ m) × (m ≤ℤ s.battery_kw) ⊎ (m ≤ℤ pos 0) × (s.battery_kw ≤ℤ m)
      → pos 0 ≤ℤ s.battery_kw +ℤ c.max_discharge_kw
      → (buy ≡ true → s.battery_kw ≤ℤ c.max_ac_charge_kw +ℤ c.max_dc_charge_kw)
      → (verify_battery_response (dispatch_from_slot s c soc pv buy) m floor ≡ conforms)
        ⊎ (verify_battery_response (dispatch_from_slot s c soc pv buy) m floor ≡ not_verified)
  unfolding verify_battery_response dispatch_from_slot
  dispatch_tracked m floor f tracks within bought =
      ground (arith, +ℤ_parts s.battery_kw c.max_discharge_kw)
