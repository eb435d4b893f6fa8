-- ===== src/Shelly/Cycle.antt =====
-- src/optimiser/clients/shelly.py: the cycle state of a load. `_pending_relay_stop` queues the stop
-- of the relay for the next status.
use energy_optimiser.Prelude.{
  ℕ, ◌-◌, ◌*◌, leb, ltb, Bool, true, false, ◌&&◌, ◌||◌, not, Option, none, some, List, [], ◌∷◌, ℤ,
  pos, ltb_ℤ, leb_ℤ, if◌then◌else◌,
}
use energy_optimiser.Shelly.Types.{
  LoadCycleState, idle, running, complete_today, ManagedLoadConfig, Event, load_cycle_complete,
  load_cycle_fault,
}

pub record Cycle : Type 0 where
  pub state : LoadCycleState
  pub started : Option ℕ
  pub pending_relay_stop : Bool

abbrev pub minutes : ℕ → ℕ
minutes n = n * 60_000_000

-- `daily_energy_kwh and energy_today_kwh >= daily_energy_kwh`: zero counts as no target.
abbrev pub meets_target : Option ℤ → ℤ → Bool
meets_target none energy_today_kwh = false
meets_target (some target) energy_today_kwh =
    not (leb_ℤ target (pos 0) && leb_ℤ (pos 0) target) && leb_ℤ target energy_today_kwh

-- `_cycle_started` and more than five minutes ago
abbrev pub started_long_ago : Option ℕ → ℕ → Bool
started_long_ago none now = false
started_long_ago (some started) now = ltb (minutes 5) (now - started)

abbrev pub finish_cycle : ManagedLoadConfig → ℤ → Cycle → Cycle
finish_cycle config energy_today_kwh c = record c {
  state = if meets_target config.daily_energy_kwh energy_today_kwh then complete_today else idle;
  pending_relay_stop = true;
}

-- The branch for each state.
abbrev pub cycle_from : ManagedLoadConfig → ℤ → ℕ → ℤ → Cycle → LoadCycleState → Cycle × List Event
cycle_from config energy_today_kwh now power_kw c idle = (c, [])
cycle_from config energy_today_kwh now power_kw c running =
    if ltb_ℤ power_kw config.power_zero_threshold_kw
    then (finish_cycle config energy_today_kwh c, load_cycle_complete ∷ [])
    else if started_long_ago c.started now && ltb_ℤ power_kw config.power_zero_threshold_kw
    then (record c { state = idle }, load_cycle_fault ∷ [])
    else (c, [])
cycle_from config energy_today_kwh now power_kw c complete_today = (c, [])

unfoldable pub update_cycle_state : ManagedLoadConfig → ℤ → ℕ → ℤ → Cycle → Cycle × List Event
update_cycle_state config energy_today_kwh now power_kw c =
    cycle_from config energy_today_kwh now power_kw c c.state

-- `target is not None and value >= target`
abbrev pub kwh_met : Option ℤ → ℤ → Bool
kwh_met none energy_today_kwh = false
kwh_met (some target) energy_today_kwh = leb_ℤ target energy_today_kwh

abbrev pub minutes_met : Option ℕ → ℕ → Bool
minutes_met none on_minutes = false
minutes_met (some target) on_minutes = leb (minutes target) on_minutes

unfoldable pub update_cycle_state_continuous :
    ManagedLoadConfig → ℤ → ℕ → Option Bool → Cycle → Cycle
update_cycle_state_continuous config energy_today_kwh on_minutes relay_on c =
    if kwh_met config.daily_target_kwh energy_today_kwh
      || minutes_met config.daily_run_minutes on_minutes
    then record c { state = complete_today }
    else elim relay_on [
      | none ↦ record c { state = idle }
      | some on ↦ record c { state = if on then running else idle }
    ]
