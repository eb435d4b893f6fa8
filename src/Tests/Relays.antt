-- ===== src/Tests/Relays.antt =====
-- The relay of a heat pump over four slots.
use energy_optimiser.Prelude.{
  ◌*◌, ◌+◌, zero, ◌≡◌, refl, true, false, none, some, [], ◌∷◌, ◌-ℤ◌, ◌+ℤ◌, scale, pos, arith,
}
use energy_optimiser.Tests.Solved.{satisfied}
use energy_optimiser.Lp.Linear.{Assignment, Satisfied, relay}
use energy_optimiser.Lp.Loads.{RelayConfig, Calendar, RelayStatus, Horizon, auto, signal_driven}
use energy_optimiser.Lp.Loads.Continuous.{continuous}
use energy_optimiser.Lp.Loads.Blocks.{state, stays_on}
use energy_optimiser.Lp.Loads.Carried.{carry_over_lem}

abbrev heat_pump : RelayConfig
heat_pump = record {
  load_id = "heat_pump";
  draw_kw = 900;
  daily_target_kwh = none;
  daily_run_minutes = some 10;
  schedule_overrides = λ date. auto;
}

abbrev one_day : Calendar
one_day = record {
  local_date = λ t. 0;
  date = λ day. day;
  midnight = λ day. day * 86_400_000_000;
  deadline = λ day. day * 86_400_000_000 + 1_200_000_000;
}

abbrev quarter : Horizon
quarter = record {
  prefix = "";
  slot_minutes = 5;
  slots = 600_000_000 ∷ 900_000_000 ∷ 1_200_000_000 ∷ 1_500_000_000 ∷ [];
}

-- The relay went off five minutes before the first slot, or on.
abbrev resting : RelayStatus
resting = record {
  relay_on_minutes_today = some 300_000_000;
  energy_today_kwh = pos 0;
  relay_on = some false;
  relay_state_since = some 300_000_000;
}

abbrev heating : RelayStatus
heating = record resting { relay_on = some true }

abbrev rises : Assignment
rises prefix (relay load) zero = pos 0
rises prefix _ t = pos 1000

abbrev falls : Assignment
falls prefix (relay load) zero = pos 1000
falls prefix _ t = pos 0

rises-Satisfied : Satisfied rises (continuous quarter heat_pump one_day resting 2 2).constraints
unfolding continuous signal_driven ◌+ℤ◌ ◌-ℤ◌ scale
rises-Satisfied =
    satisfied rises (continuous quarter heat_pump one_day resting 2 2).constraints refl

falls-Satisfied : Satisfied falls (continuous quarter heat_pump one_day heating 2 2).constraints
unfolding continuous signal_driven ◌+ℤ◌ ◌-ℤ◌ scale
falls-Satisfied =
    satisfied falls (continuous quarter heat_pump one_day heating 2 2).constraints refl

stays_on_example : state rises quarter heat_pump 2 ≡ pos 1000
stays_on_example =
    stays_on rises quarter heat_pump one_day resting 2 2 rises-Satisfied 0 2 refl refl (omega arith)
      (omega arith) (omega arith)

carry_over_example : state falls quarter heat_pump 0 ≡ pos 1000
carry_over_example =
    carry_over_lem falls quarter heat_pump one_day heating 2 2 falls-Satisfied true 300_000_000
      600_000_000 (900_000_000 ∷ 1_200_000_000 ∷ 1_500_000_000 ∷ []) 0 600_000_000 refl refl refl
      (omega arith) refl refl
