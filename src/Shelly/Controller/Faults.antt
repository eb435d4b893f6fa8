-- ===== src/Shelly/Controller/Faults.antt =====
-- The fault of a cycle: a relay that is on without power.
use energy_optimiser.Prelude.{
  ℕ, ◌≡◌, refl, Bool, true, false, Bool-cases, inl, inr, Option, none, some, List, [], ◌∷◌, ℤ, ◌||◌,
  ltb_ℤ, All, append-All, if_either,
}
use energy_optimiser.Shelly.Types.{
  LoadCategory, LoadCycleState, idle, running, complete_today, shiftable, signal_driven,
  signal_driven_continuous, preconditionable, observable, ManagedLoadConfig, Event, utc_date,
  load_cycle_fault, validation_warning, load_cycle_complete, load_cycle_start,
}
use energy_optimiser.Shelly.Meter.{Meter, track_daily_energy, is_day, is_reset}
use energy_optimiser.Shelly.Cycle.{Cycle, cycle_from, update_cycle_state, started_long_ago}
use energy_optimiser.Shelly.Controller.{
  Load, Poll, Outcome, apply_queued_stop, energy_read, relay_read, track_energy, after_reads,
  cycle_for, power_read, status, start_from, start_cycle, set_relay,
}
use energy_optimiser.Shelly.Controller.Actions.{Action, poll, start, set, act, run}

abbrev is_fault : Event → Bool
is_fault load_cycle_fault = true
is_fault load_cycle_start = false
is_fault load_cycle_complete = false
is_fault validation_warning = false

abbrev pub Faultless : List Event → Type 0
Faultless = All (λ e. is_fault e ≡ false)

cycle_from-Faultless :
    (config : ManagedLoadConfig) (energy : ℤ) (now : ℕ) (power : ℤ) (c : Cycle) (s : LoadCycleState)
    → Faultless (cycle_from config energy now power c s).1
cycle_from-Faultless config energy now power c idle = tt
cycle_from-Faultless config energy now power c running =
    elim (Bool-cases (ltb_ℤ power config.power_zero_threshold_kw)) [
      | inl low ↦ rw low (refl, tt)
      | inr high ↦ elim (Bool-cases (started_long_ago c.started now)) [
        | inl long ↦ rw (high, long) tt
        | inr short ↦ rw (high, short) tt
      ]
    ]
cycle_from-Faultless config energy now power c complete_today = tt

cycle_for-Faultless :
    (k : LoadCategory) (config : ManagedLoadConfig) (energy : ℤ) (minutes : ℕ) (p : Poll)
    (c : Cycle)
    → Faultless (cycle_for k config energy minutes p c).1
unfolding update_cycle_state
cycle_for-Faultless shiftable config energy minutes p c =
    cycle_from-Faultless config energy p.cycle_at (power_read p) c c.state
cycle_for-Faultless signal_driven config energy minutes p c = tt
cycle_for-Faultless signal_driven_continuous config energy minutes p c = tt
cycle_for-Faultless preconditionable config energy minutes p c = tt
cycle_for-Faultless observable config energy minutes p c = tt

start_from-Faultless :
    (acknowledged : Bool) (now : ℕ) (l : Load) (s : LoadCycleState)
    → Faultless (start_from s acknowledged now l).0.events
start_from-Faultless acknowledged now l idle =
    if_either (λ (r : Outcome × Bool). Faultless r.0.events) acknowledged (refl, tt) tt
start_from-Faultless acknowledged now l running = tt
start_from-Faultless acknowledged now l complete_today = tt

track_daily_energy-Faultless :
    (now : ℕ) (imp ret : ℤ) (m : Meter) → Faultless (track_daily_energy now imp ret m).1
unfolding track_daily_energy
track_daily_energy-Faultless now imp ret m =
    if_either (λ (r : Meter × List Event). Faultless r.1) (is_day m.today_date (utc_date now))
      (if_either Faultless
        (is_reset m.imp.last_total_energy_kwh imp || is_reset m.ret.last_total_energy_kwh ret)
        (refl, tt) tt)
      tt

module _ (local_date : ℕ → ℕ) where
  after_reads-Faultless :
      (p : Poll) (energy : Option (ℤ × ℤ)) (relay_on : Option Bool) (l : Load)
      → Faultless (after_reads local_date p energy relay_on l).1
  unfolding track_energy
  after_reads-Faultless p none relay_on l = tt
  after_reads-Faultless p (some (imp, ret)) none l =
      append-All (λ e. is_fault e ≡ false) _ _
        (track_daily_energy-Faultless p.energy_at imp ret l.meter)
        (cycle_for-Faultless l.config.category l.config _ _ p l.cycle)
  after_reads-Faultless p (some (imp, ret)) (some on) l =
      append-All (λ e. is_fault e ≡ false) _ _
        (track_daily_energy-Faultless p.energy_at imp ret l.meter)
        (cycle_for-Faultless l.config.category l.config _ _ p l.cycle)

  act-Faultless : (a : Action) (l : Load) → Faultless (act local_date a l).events
  unfolding status start_cycle set_relay
  act-Faultless (poll p) l =
      after_reads-Faultless p (energy_read p) (relay_read l.config p) (apply_queued_stop l).0
  act-Faultless (start acknowledged now) l =
      if_either (λ (r : Outcome × Bool). Faultless r.0.events) l.config.has_relay
        (start_from-Faultless acknowledged now l l.cycle.state) tt
  act-Faultless (set acknowledged on) l =
      if_either (λ (r : Outcome × Bool). Faultless r.0.events) l.config.has_relay tt tt

  -- No call ever tells of a fault of a cycle: the event for a relay that is on without power for
  -- five minutes is never emitted, whatever the readings.
  pub run-Faultless :
      (actions : List Action) (l : Load) → Faultless (run local_date actions l).events
  run-Faultless [] l = tt
  run-Faultless (a ∷ actions) l =
      append-All (λ e. is_fault e ≡ false) _ _ (act-Faultless a l)
        (run-Faultless actions (act local_date a l).load)
