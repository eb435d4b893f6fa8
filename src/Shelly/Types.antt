-- ===== src/Shelly/Types.antt =====
-- src/optimiser/clients/shelly.py and types.py: the configuration, the events and the status of a load.
use Prim.Native.String.{String}
use energy_optimiser.Prelude.{ℕ, ◌/◌, Bool, Option, ℤ}

pub data LoadCategory : Type 0 where
  shiftable signal_driven signal_driven_continuous preconditionable observable : LoadCategory

pub data LoadCycleState : Type 0 where
  idle running complete_today : LoadCycleState

-- The fields of `ManagedLoadConfig` that the client reads.
pub record ManagedLoadConfig : Type 0 where
  pub load_id : String
  pub category : LoadCategory
  pub has_relay : Bool
  pub daily_energy_kwh : Option ℤ
  pub daily_target_kwh : Option ℤ
  pub daily_run_minutes : Option ℕ
  pub power_zero_threshold_kw : ℤ

pub data Event : Type 0 where
  load_cycle_start load_cycle_complete load_cycle_fault validation_warning : Event

pub record ManagedLoadStatus : Type 0 where
  pub load_id : String
  pub category : LoadCategory
  pub power_kw : ℤ
  pub energy_today_kwh : ℤ
  pub relay_on : Option Bool
  pub cycle_state : Option LoadCycleState
  pub relay_state_since : Option ℕ
  pub relay_on_minutes_today : Option ℕ

-- The date of an instant in UTC, as a count of days.
abbrev pub utc_date : ℕ → ℕ
utc_date t = t / 86_400_000_000
