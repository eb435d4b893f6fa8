-- ===== src/Service/Tick.antt =====
-- src/optimiser/service.py: one planning tick. `probe` is the PV probe of the tick if there was one.
use Prim.Native.String.{String}
use energy_optimiser.Prelude.{
  ℕ, zero, suc, ◌++◌, Bool, true, false, ◌&&◌, Option, none, some, List, [], ◌∷◌, ℤ, pos, leb_ℤ,
  not, or_else, if◌then◌else◌,
}
use energy_optimiser.Amber.{AmberClient, current_5min_price}
use energy_optimiser.Curtailment.{evaluate}
use energy_optimiser.Lifecycle.{
  StateMachine, Outcome, on_modbus_success, on_modbus_failure, on_price_age_check,
  should_run_planner, should_apply_commands, should_fallback,
}
use energy_optimiser.Lp.Dispatch.{LpDispatch}
use energy_optimiser.Lp.Runtime.{lp_error, can_probe, record_command}
use energy_optimiser.Lp.Scenarios.{PriceInterval}
use energy_optimiser.Modes.{Python, active}
use energy_optimiser.Lp.Solution.{LoadCommand}
use energy_optimiser.Service.{
  SystemState, PvProbe, poll_occupancy, read_state, all_statuses, build_load_profile, keep_records,
  touch_heartbeat, set_export_limit_kw, apply_lp_dispatch, set_fallback, set_relay, start_cycle,
  Site, Config, Service, World, Action, pure, ◌>>=◌, ◌>>◌, call, look, modify, attempted,
  is_export_stale, price_age,
}
use energy_optimiser.Service.Solve.{
  Plan, maybe_run_pv_probe, fall_back_and_latch, run_lp, set_modes,
}

-- The slot-0 override: the measured power, unless it is only a lower bound.
abbrev pub override_of : Option PvProbe → Option ℤ
override_of none = none
override_of (some probe) = if probe.saturated then none else probe.pv_kw

abbrev pub export_of : Option PriceInterval → Option ℤ
export_of none = none
export_of (some p) = some p.export_per_kwh

-- The plan's export limit, or 0 where it rests on a price that is too old.
unfoldable pub resolve_export_limit_kw : Option ℤ → Option ℤ → Option ℤ
resolve_export_limit_kw age none = none
resolve_export_limit_kw age (some limit) =
    if leb_ℤ limit (pos 0)
    then some limit
    else if is_export_stale age
    then some (pos 0)
    else some limit

-- A call of a method of the state machine, without its events.
abbrev pub machine_does : (StateMachine → Outcome) → Action (Unit {0})
machine_does f = modify (λ s. record s { state_machine = (f s.state_machine).0 })

-- `if self._state_machine.should_fallback:`
abbrev pub in_fallback : StateMachine → Action (Unit {0}) → Action (Unit {0})
in_fallback m action = if should_fallback m then action else pure tt

module _ (E : Site) (c : Config) where
  abbrev pub price_now : World → Option ℤ
  price_now w = price_age E w.calls

  -- The state could not be read: try the fallback if the machine asks for it.
  unfoldable pub without_state : ℕ → Action (Unit {0})
  without_state now = do
    machine_does (on_modbus_failure now)
    w ← look
    in_fallback w.service.state_machine (attempted (call (set_fallback none false) E.accepts))

  -- The export cap, if the plan has one, before the dispatch.
  abbrev pub set_cap : Option ℤ → Action (Unit {0})
  set_cap none = pure tt
  set_cap (some limit) = do
    call (set_export_limit_kw limit) E.accepts
    modify (λ s. record s { last_export_limit_kw = some limit })

  abbrev pub dispatched : LpDispatch → Option PriceInterval → Bool → Action (Unit {0})
  dispatched d current_5min true = do
    w ← look
    modify (λ s. record s { lp_runtime = record_command d (E.clock w.calls) s.lp_runtime })
  dispatched d current_5min false = fall_back_and_latch E c lp_error (export_of current_5min)

  -- By `desired_relay_on` and `start_cycle`.
  abbrev pub command_of : String → Option Bool → Bool → Action (Unit {0})
  command_of id (some on) starts = do call (set_relay id on) E.accepts; pure tt
  command_of id none true = do call (start_cycle id) E.accepts; pure tt
  command_of id none false = pure tt

  abbrev pub command_load : LoadCommand → Action (Unit {0})
  command_load cmd = command_of cmd.load_id cmd.desired_relay_on cmd.start_cycle

  abbrev pub command_loads : List LoadCommand → Action (Unit {0})
  command_loads [] = pure tt
  command_loads (cmd ∷ cmds) = do command_load cmd; command_loads cmds

  unfoldable pub apply_plan : Plan → Option PvProbe → Option PriceInterval → Action (Unit {0})
  apply_plan (solution, dispatch) probe current_5min = do
    w ← look
    let limit = resolve_export_limit_kw (price_now w) solution.grid_export_limit_kw
    set_cap limit
    apply_ok ← call (apply_lp_dispatch dispatch (or_else limit (pos 0)) probe) E.accepts
    dispatched dispatch current_5min apply_ok
    command_loads solution.load_commands

  -- The fallback of the state machine, with the guard against a price that is too old.
  unfoldable pub guarded_fallback : Option PriceInterval → Action (Unit {0})
  guarded_fallback current_5min = do
    w ← look
    call (set_fallback (export_of current_5min) (is_export_stale (price_now w))) E.accepts
    pure tt

  abbrev pub apply_in :
      StateMachine → Plan → Option PvProbe → Option PriceInterval → Action (Unit {0})
  apply_in m plan probe current_5min =
      if should_apply_commands m
      then apply_plan plan probe current_5min
      else in_fallback m (guarded_fallback current_5min)

  unfoldable pub apply_commands :
      Option Plan → Option PvProbe → Option PriceInterval → Action (Unit {0})
  unfolding apply_plan guarded_fallback
  apply_commands none probe current_5min = do
    w ← look
    in_fallback w.service.state_machine (guarded_fallback current_5min)
  apply_commands (some plan) probe current_5min = do
    w ← look
    apply_in w.service.state_machine plan probe current_5min

  abbrev pub check_curtailment : SystemState → Service → Service
  check_curtailment state s = record s {
    curtailment_state =
        (evaluate
          (record {
            soc_pct = state.soc_pct;
            battery_power_kw = state.battery_power_kw;
            pv_kw = state.pv_power_kw;
            house_load_kw = state.house_load_kw;
            grid_export_limit_kw = s.last_export_limit_kw;
            soc_ceiling_pct = c.soc_ceiling_pct;
          })
          s.curtailment_state).0;
  }

  module _ (P : Python) where
    abbrev pub run_with :
        SystemState → List PriceInterval → Option PvProbe → Action (Option Plan × Option PvProbe)
    run_with state prices probe = do
      plan ← run_lp E c P state prices (override_of probe)
      pure (plan, probe)

    -- The LP, as a probe of the breaker too, after the measurement of the PV power.
    abbrev pub plan_with_probe :
        SystemState → List PriceInterval → Action (Option Plan × Option PvProbe)
    plan_with_probe state prices = do
      probe ← maybe_run_pv_probe E c state
      run_with state prices probe

    -- The decision tree of what reaches the inverter.
    -- Past the state machine: prices are needed, and a latched breaker has to be out of cooldown.
    abbrev pub decide_on :
        Bool → SystemState → List PriceInterval → Action (Option Plan × Option PvProbe)
    decide_on in_cooldown state [] = pure (none, none)
    decide_on in_cooldown state (p ∷ prices) =
        if in_cooldown then pure (none, none) else plan_with_probe state (p ∷ prices)

    abbrev pub decide_in :
        StateMachine
        → Bool
        → SystemState
        → List PriceInterval
        → Action (Option Plan × Option PvProbe)
    decide_in m in_cooldown state prices =
        if not (should_run_planner m) then pure (none, none) else decide_on in_cooldown state prices

    unfoldable pub decide :
        ℕ → SystemState → List PriceInterval → Action (Option Plan × Option PvProbe)
    decide now state prices = do
      w ← look
      let breaker = w.service.lp_runtime.breaker
      decide_in w.service.state_machine (breaker.latched && not (can_probe breaker now)) state
          prices

    -- What follows the commands: the second read, whose failure is caught, the records with the
    -- active modes, and the heartbeat.
    unfoldable pub wind_up : SystemState → Action (Unit {0})
    wind_up state = do
      attempted (call read_state E.reads)
      call keep_records E.completes
      w ← look
      set_modes (active P state.timestamp w.service.mode_manager).0.0
      modify (check_curtailment state)
      attempted (call touch_heartbeat E.completes)

    -- From the decision to the end.
    abbrev pub command_by :
        Option PriceInterval → SystemState → Option Plan × Option PvProbe → Action (Unit {0})
    command_by current_5min state planned = do
      apply_commands planned.0 planned.1 current_5min
      wind_up state

    abbrev pub act_on :
        ℕ → SystemState → List PriceInterval → Option PriceInterval → Action (Unit {0})
    act_on now state prices current_5min = do
      modify (λ s. record s { last_prices_planning = some prices })
      planned ← decide now state prices
      command_by current_5min state planned

    -- The cached prices, those for 5 minutes first, are the ones of before the load profile.
    abbrev pub with_prices : ℕ → SystemState → AmberClient → Action (Unit {0})
    with_prices now state amber = do
      call build_load_profile E.completes
      act_on now state (or_else amber.last_5min_prices [] ++ or_else amber.last_prices [])
          (current_5min_price now amber)

    unfoldable pub with_state : ℕ → SystemState → Action (Unit {0})
    unfolding decide apply_commands wind_up
    with_state now state = do
      machine_does on_modbus_success
      aged ← look
      machine_does (on_price_age_check (price_now aged))
      call all_statuses E.completes
      cached ← look
      with_prices now state (E.amber cached.calls)

    abbrev pub on_read : ℕ → Option SystemState → Action (Unit {0})
    on_read now none = without_state now
    on_read now (some state) = with_state now state

    unfoldable pub tick_body : Action (Unit {0})
    unfolding without_state with_state
    tick_body w = after_poll (E.clock w.calls) w
      where
        after_poll : ℕ → Action (Unit {0})
        after_poll now = do
          call poll_occupancy E.completes
          state ← call read_state E.reads
          on_read now state

    -- The wake loop catches what a tick raises.
    unfoldable pub ticks : ℕ → World → World
    ticks zero w = w
    ticks (suc n) w = ticks n (tick_body w).1
