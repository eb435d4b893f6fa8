-- ===== src/Service/Export.antt =====
-- The export cap over a tick, and over the ticks of a run.
use energy_optimiser.Prelude.{
  ℕ, zero, suc, ◌≡◌, refl, inl, inr, ◌⊎◌, Bool, true, false, Option, none, some, List, [], ◌∷◌, ℤ,
  pos, ◌≤ℤ◌, arith, Bool-cases, ltb_ℤ,
}
use energy_optimiser.Lp.Solution.{LpSolution}
use energy_optimiser.Service.{
  read_state, poll_occupancy, all_statuses, build_load_profile, keep_records, set_fallback, Site,
  History, Config, World, Action, call, pure, is_export_stale, price_age, PvProbe, SystemState,
  Service, attempted, SolveReply, timed_out, crashed, solved,
}
use energy_optimiser.Amber.{AmberClient}
use energy_optimiser.Lp.Runtime.{FallbackReason, lp_error, lp_timeout}
use energy_optimiser.Lp.Dispatch.{LpDispatch, SlotDecision}
use energy_optimiser.Lp.Scenarios.{PriceInterval}
use energy_optimiser.Lifecycle.{
  StateMachine, should_run_planner, should_apply_commands, should_fallback, on_modbus_failure,
}
use energy_optimiser.Modes.{Python, ModeOverrides, prune_soc_reached}
use energy_optimiser.Modes.Values.{Result, ok, caught, uncaught}
use energy_optimiser.Service.Kept.{Keeps, bind-Keeps, then-Keeps, after_keeps}
use energy_optimiser.Service.Capped.{
  IsFresh, is_export_stale_lem, Safe, IsPlanSafe, fall_back-Safe, capped-Safe, from_dispatch-Safe,
}
use energy_optimiser.Service.Solve.{
  Plan, lp_fallback, from_result, first_export, reason_of, maybe_run_pv_probe, failed_with, usable,
  judged, conclude, consult_modes, solve, run_lp, pv_probe_min_kw,
}
use energy_optimiser.Service.Tick.{
  ticks, with_prices, act_on, command_by, in_fallback, resolve_export_limit_kw, apply_plan,
  apply_commands, guarded_fallback, without_state, with_state, on_read, tick_body, decide,
  decide_on, wind_up, run_with, override_of,
}

stale_capped :
    (age plan : Option ℤ) (limit : ℤ)
    → resolve_export_limit_kw age plan ≡ some limit
    → is_export_stale age ≡ true
    → limit ≤ℤ pos 0
unfolding resolve_export_limit_kw
stale_capped age none limit e h = cc
stale_capped age (some l) limit e h = ground (arith, e, h)

module _ (E : Site) (c : Config) where
  -- A limit above 0 passes only with a fresh price.
  resolve_export_limit_kw-IsFresh :
      (h : History) (plan : Option ℤ) (limit : ℤ)
      → resolve_export_limit_kw (price_age E h) plan ≡ some limit
      → (limit ≤ℤ pos 0) ⊎ IsFresh E h
  resolve_export_limit_kw-IsFresh h plan limit e =
      elim (Bool-cases (is_export_stale (price_age E h))) [
        | inl stale ↦ inl (stale_capped (price_age E h) plan limit e stale)
        | inr fresh ↦ inr (is_export_stale_lem E h fresh)
      ]

  in_fallback-Safe :
      (m : StateMachine) (action : Action (Unit {0}))
      → Keeps (Safe E) action
      → Keeps (Safe E) (in_fallback m action)
  in_fallback-Safe m action h w i = elim (Bool-cases (should_fallback m)) [
    | inl e ↦ rw e (h w i)
    | inr e ↦ rw e i
  ]

  guarded_fallback-Safe :
      (price : Option PriceInterval) → Keeps (Safe E) (guarded_fallback E c price)
  unfolding guarded_fallback
  guarded_fallback-Safe price w i =
      after_keeps (Safe E) (call (set_fallback _ _) E.accepts w) _ (tt, i) (λ _ w i. i)

  module _ (dispatch : LpDispatch) (solution : LpSolution) (probe : Option PvProbe)
      (current_5min : Option PriceInterval) where
    planned-Safe :
        (w : World) (limit : Option ℤ)
        → resolve_export_limit_kw (price_age E w.calls) solution.grid_export_limit_kw ≡ limit
        → Safe E w
        → Safe E (apply_plan E c (solution, dispatch) probe current_5min w).1
    unfolding apply_plan
    planned-Safe w none e i = rw e (
        from_dispatch-Safe E c dispatch probe current_5min solution.load_commands (pos 0) w
          (inl refl) i)
    planned-Safe w (some limit) e i = rw e (
        capped-Safe E c dispatch probe current_5min solution.load_commands limit (E.accepts w.calls)
          _ (resolve_export_limit_kw-IsFresh w.calls solution.grid_export_limit_kw limit e, i)
          (inr (w.calls, refl)))

  apply_commands-Safe :
      (plan : Option Plan) (probe : Option PvProbe) (price : Option PriceInterval)
      → Keeps (Safe E) (apply_commands E c plan probe price)
  unfolding apply_commands
  apply_commands-Safe none probe price w i =
      in_fallback-Safe w.service.state_machine _ (guarded_fallback-Safe price) w i
  apply_commands-Safe (some (solution, dispatch)) probe price w i =
      elim (Bool-cases (should_apply_commands w.service.state_machine)) [
        | inl e ↦ rw e (planned-Safe dispatch solution probe price w _ refl i)
        | inr e ↦
            rw e (in_fallback-Safe w.service.state_machine _ (guarded_fallback-Safe price) w i)
      ]

  abbrev no_plan : Option Plan
  no_plan = none

  failed_with-Safe : (reason : FallbackReason) → Keeps (Safe E) (failed_with E c reason)
  unfolding lp_fallback
  failed_with-Safe reason =
      then-Keeps (Safe E) (lp_fallback E c reason) (pure no_plan)
        (λ w i. fall_back-Safe E c reason (first_export (E.amber w.calls).last_5min_prices) w i)
        (λ w i. i)

  usable-Safe :
      (state : SystemState) (overrides : ModeOverrides) (solution : LpSolution)
      (slot : Option SlotDecision)
      → Keeps (Safe E) (usable E c state overrides solution slot)
  usable-Safe state overrides solution none = failed_with-Safe lp_error
  usable-Safe state overrides solution (some slot_0) = λ w i. i

  judged-Safe :
      (state : SystemState) (overrides : ModeOverrides) (solution : LpSolution)
      (r : Option FallbackReason)
      → Keeps (Safe E) (judged E c state overrides solution r)
  judged-Safe state overrides solution (some reason) = failed_with-Safe reason
  judged-Safe state overrides solution none = usable-Safe state overrides solution solution.slot_0

  conclude-Safe :
      (state : SystemState) (overrides : ModeOverrides) (reply : SolveReply)
      → Keeps (Safe E) (conclude E c state overrides reply)
  unfolding conclude
  conclude-Safe state overrides timed_out = failed_with-Safe lp_timeout
  conclude-Safe state overrides crashed = failed_with-Safe lp_error
  conclude-Safe state overrides (solved solution) =
      judged-Safe state overrides solution (reason_of solution.status)

  maybe_run_pv_probe-Safe : (state : SystemState) → Keeps (Safe E) (maybe_run_pv_probe E c state)
  unfolding maybe_run_pv_probe
  maybe_run_pv_probe-Safe state w i = elim (Bool-cases (ltb_ℤ state.pv_power_kw pv_probe_min_kw)) [
    | inl e ↦ rw e i
    | inr e ↦ rw e (tt, i)
  ]

  module _ (P : Python) where
    from_result-Safe {ℓ} : {A : Type ℓ} (r : Result A) → Keeps (Safe E) (from_result r)
    from_result-Safe (ok a) = λ w i. i
    from_result-Safe caught = λ w i. i
    from_result-Safe uncaught = λ w i. i

    consult_modes-Safe : (state : SystemState) → Keeps (Safe E) (consult_modes E c P state)
    consult_modes-Safe state w i =
        after_keeps (Safe E)
          (from_result (prune_soc_reached P state.soc_pct w.service.mode_manager) w) _
          (from_result-Safe _ w i) (λ pruned w i. from_result-Safe _ _ i)

    run_lp-Safe :
        (state : SystemState) (prices : List PriceInterval) (override : Option ℤ)
        → Keeps (Safe E) (run_lp E c P state prices override)
    unfolding run_lp
    run_lp-Safe state prices override =
        bind-Keeps (Safe E) (consult_modes E c P state) _ (consult_modes-Safe state) (λ overrides.
          bind-Keeps (Safe E) (solve E c P prices override overrides) (conclude E c state overrides)
            (λ w i. (tt, i)) (conclude-Safe state overrides))

    decide_on-Safe :
        (cooling : Bool) (state : SystemState) (prices : List PriceInterval)
        → Keeps (Safe E) (decide_on E c P cooling state prices)
    decide_on-Safe cooling state [] = λ w i. i
    decide_on-Safe true state (p ∷ prices) = λ w i. i
    decide_on-Safe false state (p ∷ prices) =
        bind-Keeps (Safe E) (maybe_run_pv_probe E c state) (run_with E c P state (p ∷ prices))
          (maybe_run_pv_probe-Safe state)
          (λ probe.
            bind-Keeps (Safe E) (run_lp E c P state (p ∷ prices) (override_of probe)) _
              (run_lp-Safe state (p ∷ prices) (override_of probe)) (λ _ w i. i))

    decide-Safe :
        (now : ℕ) (state : SystemState) (prices : List PriceInterval)
        → Keeps (Safe E) (decide E c P now state prices)
    unfolding decide
    decide-Safe now state prices w i =
        elim (Bool-cases (should_run_planner w.service.state_machine)) [
          | inl e ↦ rw e (decide_on-Safe _ state prices w i)
          | inr e ↦ rw e i
        ]

    wind_up-Safe : (state : SystemState) → Keeps (Safe E) (wind_up E c P state)
    unfolding wind_up
    wind_up-Safe state w i =
        after_keeps (Safe E) (call keep_records E.completes _) _ (tt, (tt, i)) (λ _ w i. (tt, i))

    command_by-Safe :
        (current : Option PriceInterval) (state : SystemState)
        (planned : Option Plan × Option PvProbe)
        → Keeps (Safe E) (command_by E c P current state planned)
    command_by-Safe current state planned =
        then-Keeps (Safe E) (apply_commands E c planned.0 planned.1 current) (wind_up E c P state)
          (apply_commands-Safe planned.0 planned.1 current) (wind_up-Safe state)

    act_on-Safe :
        (now : ℕ) (state : SystemState) (prices : List PriceInterval)
        (current : Option PriceInterval)
        → Keeps (Safe E) (act_on E c P now state prices current)
    act_on-Safe now state prices current w i =
        bind-Keeps (Safe E) (decide E c P now state prices) (command_by E c P current state)
          (decide-Safe now state prices) (command_by-Safe current state) _ i

    with_prices-Safe :
        (now : ℕ) (state : SystemState) (amber : AmberClient)
        → Keeps (Safe E) (with_prices E c P now state amber)
    with_prices-Safe now state amber =
        then-Keeps (Safe E) (call build_load_profile E.completes) (act_on E c P now state _ _)
          (λ w i. (tt, i)) (act_on-Safe now state _ _)

    with_state-Safe : (now : ℕ) (state : SystemState) → Keeps (Safe E) (with_state E c P now state)
    unfolding with_state
    with_state-Safe now state w i =
        after_keeps (Safe E) (call all_statuses E.completes _) _ (tt, i)
          (λ _ cached. with_prices-Safe now state (E.amber cached.calls) cached)

    without_state-Safe : (now : ℕ) → Keeps (Safe E) (without_state E c now)
    unfolding without_state
    without_state-Safe now w i =
        in_fallback-Safe (on_modbus_failure now w.service.state_machine).0
          (attempted (call (set_fallback none false) E.accepts)) (λ w i. (tt, i)) _ i

    on_read-Safe : (now : ℕ) (state : Option SystemState) → Keeps (Safe E) (on_read E c P now state)
    on_read-Safe now none = without_state-Safe now
    on_read-Safe now (some state) = with_state-Safe now state

    -- Over a tick.
    pub tick_body-Safe : Keeps (Safe E) (tick_body E c P)
    unfolding tick_body
    tick_body-Safe w i =
        after_keeps (Safe E) (call poll_occupancy E.completes w) _ (tt, i)
          (λ _.
            bind-Keeps (Safe E) (call read_state E.reads) _ (λ w i. (tt, i))
              (on_read-Safe (E.clock w.calls)))

    ticks_from : (n : ℕ) (w : World) → Safe E w → Safe E (ticks E c P n w)
    unfolding ticks
    ticks_from zero w i = i
    ticks_from (suc n) w i = ticks_from n _ (tick_body-Safe w i)

    -- Over any number of ticks from a start with no calls, whatever they are answered and also
    -- where they raise: `set_export_limit_kw`, which writes the limit of a plan, gets a limit above
    -- 0 only while the prices for 5 minutes were fetched at most 15 minutes ago, and a dispatch is
    -- given the limit that the call just before it wrote, or 0. It says nothing of the limits that
    -- `set_fallback` writes.
    pub ticks-IsPlanSafe :
        (n : ℕ) (s : Service)
        → IsPlanSafe E (ticks E c P n (record { service = s; calls = [] })).calls
    ticks-IsPlanSafe n s = ticks_from n (record { service = s; calls = [] }) tt
