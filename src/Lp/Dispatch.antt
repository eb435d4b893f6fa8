-- ===== src/Lp/Dispatch.antt =====
-- src/optimiser/lp/dispatch.py: the command for the inverter from the plan's first slot, and the
-- comparison of the measured battery power with it. `SlotDecision` is from lp/result.py, the EMS
-- modes are from types.py. Powers are in watts, states of charge in thousandths of a percent.
-- `cap_kw * 1.05` against a measurement is compared as 21 times the cap against 20 times it.
pub mod Mapping
pub mod Response
use Prim.Native.String.{String}
use energy_optimiser.Prelude.{
  ℕ, ◌+◌, Bool, true, false, ◌&&◌, Option, none, some, List, ℤ, pos, ◌+ℤ◌, neg, scale, abs, max_ℤ,
  min_ℤ, ltb_ℤ, leb_ℤ, not, or_else, if◌then◌else◌,
}

pub data RemoteEmsControlMode : Type 0 where
  pcs_remote_control standby maximum_self_consumption : RemoteEmsControlMode
  command_charging_grid_first command_charging_pv_first : RemoteEmsControlMode
  command_discharging_pv_first command_discharging_ess_first : RemoteEmsControlMode

-- The fields of `BatteryConfig` that the mapping reads.
pub record BatteryConfig : Type 0 where
  pub max_ac_charge_kw : ℤ
  pub max_dc_charge_kw : ℤ
  pub max_discharge_kw : ℤ

pub record SlotDecision : Type 0 where
  pub slot_start : ℕ
  pub battery_kw : ℤ
  pub grid_import_kw : ℤ
  pub grid_export_kw : ℤ
  pub pv_to_house_kw : ℤ
  pub pv_to_battery_kw : ℤ
  pub pv_to_export_kw : ℤ
  pub soc_pct_end : ℤ
  pub grid_to_battery_kw : ℤ
  pub load_kw : List (String × ℤ)

abbrev pub deadband_kw : ℤ
deadband_kw = pos 100

abbrev pub pv_producing_threshold_kw : ℤ
pv_producing_threshold_kw = pos 200

abbrev pub grid_charge_material_kw : ℤ
grid_charge_material_kw = pos 250

abbrev pub cutoff_buffer_pct : ℤ
cutoff_buffer_pct = pos 100

pub data DispatchKind : Type 0 where
  self_consume charge discharge : DispatchKind

pub record LpDispatch : Type 0 where
  pub mode : RemoteEmsControlMode
  pub cap_kw : ℤ
  pub signed_intent_kw : ℤ
  pub kind : DispatchKind
  pub target_soc_pct : Option ℤ

unfoldable pub safe_cutoff_pct : ℤ → ℤ → ℤ
unfolding max_ℤ min_ℤ ◌+ℤ◌
safe_cutoff_pct target_pct current_soc_pct =
    max_ℤ (pos 0) (min_ℤ (pos 100_000) (max_ℤ target_pct (current_soc_pct +ℤ cutoff_buffer_pct)))

-- The PV power that picks the discharge mode: telemetry, or the plan's flows without it.
unfoldable pub pv_signal_kw : Option ℤ → SlotDecision → ℤ
unfolding ◌+ℤ◌
pv_signal_kw measured_pv_kw s =
    or_else measured_pv_kw (s.pv_to_house_kw +ℤ s.pv_to_battery_kw +ℤ s.pv_to_export_kw)

-- `safe_cutoff_pct` and `pv_signal_kw` are shut in proofs that do not name them.
unfoldable pub dispatch_from_slot : SlotDecision → BatteryConfig → ℤ → Option ℤ → Bool → LpDispatch
dispatch_from_slot slot_0 battery_config current_soc_pct measured_pv_kw buy_active =
    if ltb_ℤ (abs battery_kw) deadband_kw
    then record {
      mode = maximum_self_consumption;
      cap_kw = pos 0;
      signed_intent_kw = battery_kw;
      kind = self_consume;
      target_soc_pct = some (safe_cutoff_pct current_soc_pct current_soc_pct);
    }
    else if ltb_ℤ (pos 0) battery_kw
    then (if leb_ℤ grid_charge_material_kw slot_0.grid_to_battery_kw
        then record {
          mode = command_charging_pv_first;
          cap_kw =
              if buy_active
              then battery_config.max_ac_charge_kw +ℤ battery_config.max_dc_charge_kw
              else battery_kw;
          signed_intent_kw = battery_kw;
          kind = charge;
          target_soc_pct = none;
        }
        else record {
          mode = maximum_self_consumption;
          cap_kw = battery_kw;
          signed_intent_kw = battery_kw;
          kind = charge;
          target_soc_pct = some (safe_cutoff_pct slot_0.soc_pct_end current_soc_pct);
        })
    else record {
      mode =
          if ltb_ℤ pv_producing_threshold_kw (pv_signal_kw measured_pv_kw slot_0)
          then command_discharging_pv_first
          else command_discharging_ess_first;
      cap_kw = battery_config.max_discharge_kw;
      signed_intent_kw = battery_kw;
      kind = discharge;
      target_soc_pct = none;
    }
  where
    open slot_0 use {battery_kw}

pub data DeviationKind : Type 0 where
  conforms wrong_direction over_cap not_verified : DeviationKind

abbrev is_self_consumption : RemoteEmsControlMode → Bool
is_self_consumption maximum_self_consumption = true
is_self_consumption _ = false

-- `magnitude > dispatch.cap_kw * CAP_OVERSHOOT_TOLERANCE`
unfoldable pub exceeds_cap : ℤ → ℤ → Bool
unfolding scale
exceeds_cap magnitude cap_kw = ltb_ℤ (scale 21 cap_kw) (scale 20 magnitude)

abbrev verify_charge : LpDispatch → ℤ → ℤ → DeviationKind
verify_charge d measured_kw floor =
    if ltb_ℤ measured_kw (neg floor)
    then wrong_direction
    else if not (is_self_consumption d.mode) && exceeds_cap measured_kw d.cap_kw
    then over_cap
    else conforms

abbrev verify_discharge : LpDispatch → ℤ → ℤ → DeviationKind
verify_discharge d measured_kw floor =
    if ltb_ℤ floor measured_kw
    then wrong_direction
    else if exceeds_cap (neg measured_kw) d.cap_kw
    then over_cap
    else conforms

-- The branches on `dispatch.kind`.
abbrev verify_kind : DispatchKind → LpDispatch → ℤ → ℤ → DeviationKind
verify_kind self_consume d measured_kw floor = not_verified
verify_kind charge d measured_kw floor = verify_charge d measured_kw floor
verify_kind discharge d measured_kw floor = verify_discharge d measured_kw floor

unfoldable pub verify_battery_response : LpDispatch → ℤ → ℤ → DeviationKind
unfolding exceeds_cap neg
verify_battery_response d measured_kw floor = verify_kind d.kind d measured_kw floor
