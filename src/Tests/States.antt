-- ===== src/Tests/States.antt =====
-- Reads of the state at concrete registers, and the limits of the state of charge.
use energy_optimiser.Prelude.{
  ◌/◌, ℕ, ◌==◌, ◌≤◌, ◌≡◌, ◌⊎◌, refl, true, false, none, some, List, [], ◌∷◌, pos, if◌then◌else◌,
  scale, ◌-ℤ◌, ◌+ℤ◌,
}
use energy_optimiser.Watchdog.Client.{acknowledged, raised}
use energy_optimiser.Sigenergy.{
  registers, read_raised, read, u16, s32, read_input_u16, read_input_s32,
}
use energy_optimiser.Sigenergy.Telemetry.{Bus, Extended, read_extended_telemetry}
use energy_optimiser.Sigenergy.State.{
  SigenergyController, SystemState, Poll, read_state, read_connected, read_critical, state_from,
  required, grid_and_house, house_load, attempt_reconnect, mark_connected,
}
use energy_optimiser.Sigenergy.State.Warned.{read_states, offline_warnings, warned_once}
use energy_optimiser.Sigenergy.Commands.SocLimits.{
  SocLimits, reg_charge_cutoff_soc, reasserted, assert_battery_soc_limits,
  assert_discharge_soc_limits, Stops,
}
use energy_optimiser.Sigenergy.Commands.Ceiling.{reasserted_lem}
use energy_optimiser.Sigenergy.Commands.{write_u16}
use energy_optimiser.Tests.Deadman.{Device, scripted, scripted-IsFaithful, blank}

-- 3 kW of PV, 1 kW of import, 2.5 kW of charging at 64 %; the extended registers fail.
abbrev noon : ℕ → Bus
noon status slave address =
    if address == 30004
    then registers (status ∷ [])
    else if address == 30003
    then registers (7 ∷ [])
    else if address == 30014
    then registers (640 ∷ [])
    else if address == 30005
    then registers (0 ∷ 1000 ∷ [])
    else if address == 30037
    then registers (0 ∷ 2500 ∷ [])
    else if address == 30035
    then registers (0 ∷ 3000 ∷ [])
    else read_raised

abbrev at_noon : ℕ → Poll
at_noon status = record {
  bus = noon status;
  reply = acknowledged;
  ms = 12;
  outdoor_temp_c = none;
  occupied = true;
}

abbrev dropped : SigenergyController
dropped = record {
  reader = record { connected = false; reads_total = 40; reads_failed = 3 };
  grid_sensor_status = pos 0;
  warned_grid_sensor_offline = false;
  warned_absurd_derivation = false;
  reconnect_attempts = 4;
  last_reconnect_ms = none;
}

abbrev unread : Extended
unread =
    (read_extended_telemetry (noon 1)
      (record { connected = true; reads_total = 46; reads_failed = 3 })).0

abbrev seen_at_noon : SystemState
seen_at_noon = record {
  soc_pct = pos 64_000;
  battery_power_kw = pos 2500;
  pv_power_kw = pos 3000;
  grid_power_kw = some (pos 1000);
  house_load_kw = some (pos 1500);
  ems_mode = pos 7;
  outdoor_temp_c = none;
  occupied = true;
  extended = unread;
}

-- The link is down at first, then the sensor is offline twice.
abbrev afternoon : List Poll
afternoon = record (at_noon 0) { reply = raised } ∷ at_noon 0 ∷ at_noon 3 ∷ []

warned_once_example : offline_warnings (read_states afternoon dropped).1 ≤ 1
unfolding u16
warned_once_example = warned_once afternoon dropped (refl, (refl, (refl, tt)))

one_warning : offline_warnings (read_states (at_noon 0 ∷ []) dropped).1 ≡ 1
unfolding read_states read_state read_connected read_critical state_from required grid_and_house
    house_load attempt_reconnect mark_connected read_input_u16 read_input_s32 read u16 s32 scale
    ◌-ℤ◌ ◌+ℤ◌
one_warning = refl

abbrev limits_of_charge : SocLimits
limits_of_charge = record {
  soc_ceiling_pct = 95_000;
  discharge_cutoff_pct = 5000;
  backup_soc_pct = 10_000;
}

-- The inverter forgets its registers.
abbrev forgets : Device → Device
forgets s = (blank, s.1)

reasserted_lem_example :
    let first = reasserted scripted [] limits_of_charge (blank, []) in
    let before = forgets first.1 in
    let o = reasserted scripted (forgets ∷ []) limits_of_charge (blank, []) in
    ((first.0 ≡ false)
      ⊎ ((first.1.0 reg_charge_cutoff_soc ≡ 95_000 / 100)
          × Stops scripted limits_of_charge first.1))
    × ((o.0 ≡ false) ⊎ Stops scripted limits_of_charge o.1)
    × (o.1.0 reg_charge_cutoff_soc ≡ before.0 reg_charge_cutoff_soc)
reasserted_lem_example =
    reasserted_lem scripted scripted-IsFaithful limits_of_charge (blank, []) forgets []

-- With no failure: the hourly assertion does not bring back the charge cut-off.
forgotten :
    (reasserted scripted (forgets ∷ []) limits_of_charge (blank, [])).1.0 40047 ≡ blank 40047
unfolding reasserted assert_discharge_soc_limits assert_battery_soc_limits write_u16
forgotten = refl

recovered : (reasserted scripted (forgets ∷ []) limits_of_charge (blank, [])).1.0 40048 ≡ 50
unfolding reasserted assert_discharge_soc_limits assert_battery_soc_limits write_u16
recovered = refl
