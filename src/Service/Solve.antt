-- ===== src/Service/Solve.antt =====
-- src/optimiser/service.py: the probe of the PV power, the run of the LP, and its fallback.
use energy_optimiser.Prelude.{
  ℕ, Bool, false, Option, none, some, List, [], ◌∷◌, ℤ, pos, ltb_ℤ, if◌then◌else◌,
}
use energy_optimiser.Lp.Dispatch.{SlotDecision, LpDispatch, dispatch_from_slot}
use energy_optimiser.Lp.Fallback.{returned, raised, trigger_fallback}
use energy_optimiser.Lp.Forecast.{snapped, slot_grid}
use energy_optimiser.Lp.Runtime.{FallbackReason, lp_timeout, lp_infeasible, lp_error, latch}
use energy_optimiser.Lp.Scenarios.{PriceInterval}
use energy_optimiser.Modes.{Python, ModeManager, ModeOverrides, prune_soc_reached, to_overrides}
use energy_optimiser.Modes.Values.{Result, ok, caught, uncaught}
use energy_optimiser.Lp.Solution.{
  SolveStatus, optimal, feasible, infeasible, unbounded, timeout, error, LpSolution,
}
use energy_optimiser.Service.{
  SystemState, PvProbe, SolveReply, timed_out, crashed, solved, measure_uncapped_pv,
  solve_stochastic, Site, Config, Action, pure, ◌>>=◌, ◌>>◌, call, look, modify, plant,
}

abbrev pub pv_probe_min_kw : ℤ
pv_probe_min_kw = pos 500

abbrev pub horizon_hours : ℕ
horizon_hours = 48

abbrev pub slot_minutes : ℕ
slot_minutes = 5

-- `prices[0].export_per_kwh if prices else None`
abbrev pub first_export : Option (List PriceInterval) → Option ℤ
first_export none = none
first_export (some []) = none
first_export (some (p ∷ _)) = some p.export_per_kwh

-- None for a status that yields a usable first slot.
abbrev pub reason_of : SolveStatus → Option FallbackReason
reason_of optimal = none
reason_of feasible = none
reason_of infeasible = some lp_infeasible
reason_of unbounded = some lp_infeasible
reason_of timeout = some lp_timeout
reason_of error = some lp_error

abbrev pub is_active_now : List Bool → Bool
is_active_now [] = false
is_active_now (b ∷ _) = b

-- An exception of the mode manager, of whatever kind, leaves the handler.
abbrev pub from_result {ℓ} : {A : Type ℓ} → Result A → Action A
from_result (ok a) w = (returned a, w)
from_result caught w = (raised, w)
from_result uncaught w = (raised, w)

abbrev pub set_modes : ModeManager → Action (Unit {0})
set_modes m = modify (λ s. record s { mode_manager = m })

abbrev pub Plan : Type 0
Plan = LpSolution × LpDispatch

module _ (E : Site) (c : Config) where
  -- The inverter and the relays go to the safe state, whatever their calls do; then the latch.
  abbrev pub fall_back_and_latch : FallbackReason → Option ℤ → Action (Unit {0})
  fall_back_and_latch reason price w =
      let (_, _, w') =
        trigger_fallback (plant E) c.controllers reason none none price false none w in
      modify (λ s. record s { lp_runtime = latch reason (E.clock w'.calls) s.lp_runtime }) w'

  unfoldable pub lp_fallback : FallbackReason → Action (Unit {0})
  lp_fallback reason w =
      fall_back_and_latch reason (first_export (E.amber w.calls).last_5min_prices) w

  unfoldable pub maybe_run_pv_probe : SystemState → Action (Option PvProbe)
  maybe_run_pv_probe state w =
      if ltb_ℤ state.pv_power_kw pv_probe_min_kw
      then (returned none, w)
      else call (measure_uncapped_pv w.service.last_export_limit_kw) E.probes w

  abbrev pub failed_with : FallbackReason → Action (Option Plan)
  failed_with reason = do lp_fallback reason; pure none

  -- The dispatch of a usable solution. One without a first slot counts as an error.
  abbrev pub usable :
      SystemState → ModeOverrides → LpSolution → Option SlotDecision → Action (Option Plan)
  usable state overrides solution none = failed_with lp_error
  usable state overrides solution (some slot_0) = pure (
      some (
        solution,
        dispatch_from_slot slot_0 c.battery state.soc_pct (some state.pv_power_kw)
            (is_active_now overrides.buy_active_at),
      ))

  abbrev pub judged :
      SystemState → ModeOverrides → LpSolution → Option FallbackReason → Action (Option Plan)
  judged state overrides solution (some reason) = failed_with reason
  judged state overrides solution none = usable state overrides solution solution.slot_0

  -- After the solver: every failure falls back.
  unfoldable pub conclude : SystemState → ModeOverrides → SolveReply → Action (Option Plan)
  conclude state overrides timed_out = failed_with lp_timeout
  conclude state overrides crashed = failed_with lp_error
  conclude state overrides (solved solution) =
      judged state overrides solution (reason_of solution.status)

  module _ (P : Python) where
    -- The two calls of the mode manager before the solver.
    abbrev pub consult_modes : SystemState → Action ModeOverrides
    consult_modes state = do
      w ← look
      pruned ← from_result (prune_soc_reached P state.soc_pct w.service.mode_manager)
      let slots = slot_grid (snapped state.timestamp slot_minutes) horizon_hours slot_minutes
      let overridden = to_overrides P state.timestamp slots pruned.0
      set_modes overridden.0.0
      from_result overridden.1

    abbrev pub solve : List PriceInterval → Option ℤ → ModeOverrides → Action SolveReply
    solve prices override overrides =
        call (solve_stochastic prices override overrides) (λ h. returned (E.solves h))

    unfoldable pub run_lp : SystemState → List PriceInterval → Option ℤ → Action (Option Plan)
    unfolding conclude
    run_lp state prices slot_0_pv_override_kw = do
      overrides ← consult_modes state
      reply ← solve prices slot_0_pv_override_kw overrides
      conclude state overrides reply
