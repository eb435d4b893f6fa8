-- ===== src/Tests/Inverter.antt =====
-- The dispatch, the fallback and the watcher at concrete inputs.
use Prim.Native.String.{String}
use text.Mathlib.Text.{◌==◌ as str_eq}
use energy_optimiser.Prelude.{
  if◌then◌else◌, ℕ, ◌≡◌, ◌≢◌, ◌↔◌, ◌≤◌, ◌+◌, refl, true, false, none, some, List, [], ◌∷◌, ℤ, pos,
  negsuc, ◌≤ℤ◌, ◌+ℤ◌, neg, arith,
}
use energy_optimiser.Lp.Dispatch.{
  BatteryConfig, SlotDecision, LpDispatch, dispatch_from_slot, verify_battery_response,
  self_consume, charge, discharge, conforms, not_verified, pcs_remote_control, standby,
  command_charging_grid_first, maximum_self_consumption, command_charging_pv_first,
  command_discharging_ess_first, deadband_kw, grid_charge_material_kw, pv_producing_threshold_kw,
  pv_signal_kw,
}
use energy_optimiser.Lp.Dispatch.Response.{WithinCap}
use energy_optimiser.Lp.Runtime.{lp_timeout, default_runtime, CommandedState}
use energy_optimiser.Lp.Fallback.{Plant, returned, raised, Controller, trigger_fallback}
use energy_optimiser.Lp.Fallback.Relays.{relay_ids, command_all, acknowledged, trigger_fallback_lem}
use energy_optimiser.Lp.Watcher.{
  World, Action, waiting, wake, read_returns, lock_taken, tick_commands, tick_latches, act, run,
}
use energy_optimiser.Lp.Watcher.Breaker.{IsSound, initial, run-initial-IsSound}
use energy_optimiser.Lp.Watcher.Probe.{streak, extend, mark, clear_needs_streak}
use energy_optimiser.Lp.Watcher.Deviations.{Poll, poll, polls, Deviates, polls_latch}

abbrev pub config : BatteryConfig
config = record {
  max_ac_charge_kw = pos 10_000;
  max_dc_charge_kw = pos 15_810;
  max_discharge_kw = pos 10_000;
}

-- A discharge of 3 kW at night.
abbrev pub evening : SlotDecision
evening = record {
  slot_start = 0;
  battery_kw = negsuc 2_999;
  grid_import_kw = pos 0;
  grid_export_kw = pos 1_000;
  pv_to_house_kw = pos 100;
  pv_to_battery_kw = pos 0;
  pv_to_export_kw = pos 50;
  soc_pct_end = pos 59_000;
  grid_to_battery_kw = pos 0;
  load_kw = [];
}

abbrev discharging : LpDispatch
discharging = record {
  mode = command_discharging_ess_first;
  cap_kw = pos 10_000;
  signed_intent_kw = negsuc 2_999;
  kind = discharge;
  target_soc_pct = none;
}

evening_dispatch : dispatch_from_slot evening config (pos 60_000) none false ≡ discharging
unfolding dispatch_from_slot pv_signal_kw
evening_dispatch = refl

abbrev NeverUsed : LpDispatch → Type 0
NeverUsed d =
    (d.mode ≢ pcs_remote_control)
    × (d.mode ≢ standby)
    × (d.mode ≢ command_charging_grid_first)
    × (d.mode ≡ command_charging_pv_first ↔ (
        (deadband_kw ≤ℤ evening.battery_kw)
        × (grid_charge_material_kw ≤ℤ evening.grid_to_battery_kw)))
    × (d.mode ≡ command_discharging_ess_first ↔ (
        (evening.battery_kw ≤ℤ negsuc 99)
        × (pv_signal_kw none evening ≤ℤ pv_producing_threshold_kw)))

abbrev Accepts : LpDispatch → ℤ → ℤ → Type 0
Accepts d m floor =
    (d.kind ≡ charge
      → verify_battery_response d m floor ≡ conforms
        ↔ ((pos 0 ≤ℤ m +ℤ floor) × (d.mode ≢ maximum_self_consumption → WithinCap m d.cap_kw)))
    × (d.kind ≡ discharge
        → verify_battery_response d m floor ≡ conforms
          ↔ ((m ≤ℤ floor) × WithinCap (neg m) d.cap_kw))
    × (verify_battery_response d m floor ≡ not_verified ↔ (d.kind ≡ self_consume))

-- A plant that notes each call. The relay "pump" raises.
abbrev noting : Plant
noting = record {
  State = List String;
  set_fallback = λ price block s. (returned true, "inverter" ∷ s);
  set_relay = λ id on s. ((if str_eq id "pump" then raised else returned true), id ∷ s);
}

abbrev controllers : List Controller
controllers =
    record { load_id = "pump"; has_relay = true }
    ∷ record { load_id = "meter"; has_relay = false }
    ∷ record { load_id = "heater"; has_relay = true }
    ∷ []

trigger_fallback_example :
    let after = (noting.set_fallback none true []).1 in
    let r = trigger_fallback noting controllers lp_timeout none none none true none [] in
    (r.2 ≡ command_all noting (relay_ids controllers) after)
    × (r.0.set_self_consume ≡ true)
    × (r.0.relays_opened ≡ acknowledged noting (relay_ids controllers) after)
    × (r.1.relays_opened ≡ r.0.relays_opened)
    × (r.1.set_self_consume ≡ r.0.set_self_consume)
    × (r.0.reason ≡ lp_timeout)
trigger_fallback_example =
    trigger_fallback_lem noting controllers lp_timeout none none none true none []

-- The relay that raised is passed over in the result, and the next one is still opened.
relays_reported : acknowledged noting (relay_ids controllers) ("inverter" ∷ []) ≡ "heater" ∷ []
relays_reported = refl

abbrev deviating : List Action
deviating =
    tick_commands discharging 0
    ∷ wake 40_000_000
    ∷ read_returns (some (pos 2_000))
    ∷ lock_taken
    ∷ wake 50_000_000
    ∷ tick_latches lp_timeout 51_000_000
    ∷ []

run-initial-IsSound_example : IsSound (run initial deviating).0
run-initial-IsSound_example = run-initial-IsSound deviating

-- Three clean polls under a command given while latched.
abbrev clean_poll : ℕ → List Action
clean_poll now = wake now ∷ read_returns (some (negsuc 999)) ∷ lock_taken ∷ []

abbrev probing : List Action
probing =
    tick_latches lp_timeout 0
    ∷ tick_commands discharging 400_000_000
    ∷ wake 440_000_000
    ∷ read_returns (some (negsuc 999))
    ∷ lock_taken
    ∷ wake 450_000_000
    ∷ read_returns (some (negsuc 999))
    ∷ lock_taken
    ∷ wake 460_000_000
    ∷ read_returns (some (negsuc 999))
    ∷ []

clear_needs_streak_example :
    3 ≤ extend (streak 0 initial probing) (mark (run initial probing).0.phase lock_taken)
unfolding run act verify_battery_response
clear_needs_streak_example = clear_needs_streak probing lock_taken refl refl

abbrev commanded : CommandedState
commanded = record { dispatch = discharging; write_timestamp = 0 }

abbrev watched : World
watched = record {
  runtime = record default_runtime { commanded = some commanded };
  phase = waiting;
}

abbrev rogue : ℕ → Poll
rogue now = record { now = now; measured = pos 2_000; fallback_ends = now + 5 }

rogue-Deviates : (now : ℕ) → 30_000_000 ≤ now → Deviates commanded 30_000_000 (pos 300) (rogue now)
unfolding verify_battery_response
rogue-Deviates now h = ground arith

polls_latch_example :
    let after =
      poll (polls watched (rogue 40_000_000 ∷ rogue 50_000_000 ∷ [])) (rogue 60_000_000) in
    (after.runtime.breaker.latched ≡ true)
    × (after.runtime.breaker.latched_at ≡ some 60_000_005)
    × (after.runtime.commanded ≡ none)
polls_latch_example =
    polls_latch commanded 30_000_000 (pos 300) watched (rogue 40_000_000 ∷ rogue 50_000_000 ∷ [])
      (rogue 60_000_000)
      (record { idle = refl; command = refl; grace_kept = refl; floor_kept = refl })
      (rogue-Deviates 40_000_000 (omega arith), (rogue-Deviates 50_000_000 (omega arith), tt))
      (rogue-Deviates 60_000_000 (omega arith)) refl refl

abbrev probed : World
probed = record {
  runtime = record default_runtime {
    commanded = some commanded;
    breaker = record (default_runtime.breaker) { latched = true; latched_at = some 3 };
  };
  phase = waiting;
}
