-- ===== src/Service/Failing.antt =====
-- What a tick does when the solver or the dispatch fails.
use Prim.Native.String.{String}
use energy_optimiser.Prelude.{
  ap, ◌≡◌, ◌∙◌, refl, Bool, true, false, Option, none, some, List, [], ◌∷◌, ℤ, pos, or_else,
}
use energy_optimiser.Lp.Dispatch.{LpDispatch, SlotDecision, dispatch_from_slot}
use energy_optimiser.Lp.Runtime.{FallbackReason, lp_error, lp_timeout, lp_infeasible, latch}
use energy_optimiser.Lp.Fallback.{Attempt, returned}
use energy_optimiser.Lp.Fallback.Relays.{relay_ids, command_all, trigger_fallback_lem}
use energy_optimiser.Lp.Scenarios.{PriceInterval}
use energy_optimiser.Modes.{ModeOverrides}
use energy_optimiser.Lp.Solution.{
  SolveStatus, optimal, feasible, infeasible, unbounded, timeout, error, LpSolution, LoadCommand,
}
use energy_optimiser.Service.{
  Site, Config, World, History, SystemState, PvProbe, SolveReply, timed_out, crashed, solved,
  Action, set_relay, start_cycle, set_fallback, set_export_limit_kw, apply_lp_dispatch, pure, after,
  plant, price_age,
}
use energy_optimiser.Service.Solve.{
  Plan, failed_with, judged, conclude, reason_of, fall_back_and_latch, lp_fallback, first_export,
  is_active_now,
}
use energy_optimiser.Service.Capped.{from_dispatch}
use energy_optimiser.Service.Tick.{
  set_cap, apply_plan, command_loads, command_of, resolve_export_limit_kw, export_of,
}

-- The export price of the first cached interval, if there is one.
abbrev pub FirstCached : Option (List PriceInterval) → Option ℤ → Type 0
FirstCached none price = price ≡ none
FirstCached (some []) price = price ≡ none
FirstCached (some (p ∷ _)) price = price ≡ some p.export_per_kwh

first_export-FirstCached :
    (prices : Option (List PriceInterval)) → FirstCached prices (first_export prices)
first_export-FirstCached none = refl
first_export-FirstCached (some []) = refl
first_export-FirstCached (some (_ ∷ _)) = refl

-- The history after each of the relays has been told to open.
abbrev pub relays_opened : List String → History → History
relays_opened [] h = h
relays_opened (id ∷ ids) h = relays_opened ids (set_relay id false ∷ h)

abbrev pub told_one : String → Option Bool → Bool → History → History
told_one id (some on) starts h = set_relay id on ∷ h
told_one id none true h = start_cycle id ∷ h
told_one id none false h = h

-- The history after the export cap, if there is one.
abbrev pub with_cap : Option ℤ → History → History
with_cap none h = h
with_cap (some limit) h = set_export_limit_kw limit ∷ h

module _ (E : Site) (c : Config) where
  -- The history after the paranoid fallback: the inverter first, then the relays.
  abbrev pub safe_state : Option ℤ → History → History
  safe_state price h = relays_opened (relay_ids c.controllers) (set_fallback price false ∷ h)

  command_all_calls :
      (ids : List String) (w : World)
      → command_all (plant E) ids w ≡ record w { calls = relays_opened ids w.calls }
  command_all_calls [] w = refl
  command_all_calls (id ∷ ids) w =
      command_all_calls ids (record w { calls = set_relay id false ∷ w.calls })

  -- The world after the fallback and the latch.
  abbrev pub fallen_back : FallbackReason → Option ℤ → World → World
  fallen_back reason price w = record {
    service = record (w.service) {
      lp_runtime = latch reason (E.clock (safe_state price w.calls)) w.service.lp_runtime;
    };
    calls = safe_state price w.calls;
  }

  latched_after : FallbackReason → World → World
  latched_after reason w = record w {
    service = record (w.service) {
      lp_runtime = latch reason (E.clock w.calls) w.service.lp_runtime;
    };
  }

  fall_back_lem :
      (reason : FallbackReason) (price : Option ℤ) (w : World)
      → fall_back_and_latch E c reason price w ≡ (returned tt, fallen_back reason price w)
  unfolding latched_after
  fall_back_lem reason price w =
      ap (λ x. (returned tt, latched_after reason x))
        ((trigger_fallback_lem (plant E) c.controllers reason none none price false none w).0
          ∙ command_all_calls (relay_ids c.controllers)
              (record w { calls = set_fallback price false ∷ w.calls }))

  -- A plan that leaves the world as it was: the solution, with the dispatch of its first slot.
  abbrev pub Planned :
      SystemState
      → ModeOverrides
      → LpSolution
      → SlotDecision
      → World
      → Attempt (Option Plan) × World
      → Type 0
  Planned state overrides s slot w o = o ≡ (
    returned (
        some (
          s,
          dispatch_from_slot slot c.battery state.soc_pct (some state.pv_power_kw)
              (is_active_now overrides.buy_active_at),
        )),
    w,
  )

  -- No plan: the fallback was called for with the first cached price, then every relay told to open, and the breaker is
  -- latched with the reason and no command in force.
  abbrev pub FellBack : FallbackReason → World → Attempt (Option Plan) × World → Type 0
  FellBack reason w o =
      (o.0 ≡ returned none)
      × ((price : Option ℤ) × FirstCached (E.amber w.calls).last_5min_prices price
          × (o.1.calls
              ≡ relays_opened (relay_ids c.controllers) (set_fallback price false ∷ w.calls)))
      × (o.1.service.lp_runtime.breaker.latched ≡ true)
      × (o.1.service.lp_runtime.breaker.last_fallback_reason ≡ reason)
      × (o.1.service.lp_runtime.commanded ≡ none)

  -- What becomes of a solution, by its status and its first slot.
  abbrev pub Judged :
      SystemState
      → ModeOverrides
      → LpSolution
      → SolveStatus
      → Option SlotDecision
      → World
      → Attempt (Option Plan) × World
      → Type 0
  Judged state overrides s optimal (some slot) w o = Planned state overrides s slot w o
  Judged state overrides s feasible (some slot) w o = Planned state overrides s slot w o
  Judged state overrides s optimal none w o = FellBack lp_error w o
  Judged state overrides s feasible none w o = FellBack lp_error w o
  Judged state overrides s infeasible slot w o = FellBack lp_infeasible w o
  Judged state overrides s unbounded slot w o = FellBack lp_infeasible w o
  Judged state overrides s timeout slot w o = FellBack lp_timeout w o
  Judged state overrides s error slot w o = FellBack lp_error w o

  abbrev pub Concluded :
      SystemState → ModeOverrides → SolveReply → World → Attempt (Option Plan) × World → Type 0
  Concluded state overrides timed_out w o = FellBack lp_timeout w o
  Concluded state overrides crashed w o = FellBack lp_error w o
  Concluded state overrides (solved s) w o = Judged state overrides s s.status s.slot_0 w o

  abbrev no_plan : Action (Option Plan)
  no_plan = pure none

  failed_eq :
      (reason : FallbackReason) (w : World)
      → failed_with E c reason w
        ≡ (returned none, fallen_back reason (first_export (E.amber w.calls).last_5min_prices) w)
  unfolding lp_fallback
  failed_eq reason w =
      ap (λ o. after o (λ _. no_plan))
        (fall_back_lem reason (first_export (E.amber w.calls).last_5min_prices) w)

  failed_lem : (reason : FallbackReason) (w : World) → FellBack reason w (failed_with E c reason w)
  unfolding latch
  failed_lem reason w =
      let e = failed_eq reason w in
      (
        ap (λ o. o.0) e,
        (
          first_export (E.amber w.calls).last_5min_prices,
          first_export-FirstCached (E.amber w.calls).last_5min_prices,
          ap (λ o. o.1.calls) e,
        ),
        ap (λ o. o.1.service.lp_runtime.breaker.latched) e,
        ap (λ o. o.1.service.lp_runtime.breaker.last_fallback_reason) e,
        ap (λ o. o.1.service.lp_runtime.commanded) e,
      )

  module _ (state : SystemState) (overrides : ModeOverrides) (s : LpSolution) (w : World) where
    judged_lem :
        (status : SolveStatus) (slot : Option SlotDecision)
        → s.slot_0 ≡ slot
        → Judged state overrides s status slot w (judged E c state overrides s (reason_of status) w)
    judged_lem optimal (some slot) e = rw e refl
    judged_lem feasible (some slot) e = rw e refl
    judged_lem optimal none e = rw e (failed_lem lp_error w)
    judged_lem feasible none e = rw e (failed_lem lp_error w)
    judged_lem infeasible slot e = failed_lem lp_infeasible w
    judged_lem unbounded slot e = failed_lem lp_infeasible w
    judged_lem timeout slot e = failed_lem lp_timeout w
    judged_lem error slot e = failed_lem lp_error w

  -- After the solver has answered, the run of the LP ends in one of two ways. If the solution is
  -- optimal or feasible and has a first slot, the plan is that solution with the dispatch of that
  -- slot, and nothing was called or changed. Otherwise there is no plan: the inverter was told to
  -- fall back, with the export price of the first cached interval, and then every relay to open,
  -- whatever those calls did, and the breaker is latched: for a timeout of the thread or of the
  -- solver as a timeout, for an infeasible or unbounded problem as infeasible, for all else as an
  -- error. No command is in force.
  pub conclude_lem :
      (state : SystemState) (overrides : ModeOverrides) (reply : SolveReply) (w : World)
      → Concluded state overrides reply w (conclude E c state overrides reply w)
  unfolding conclude
  conclude_lem state overrides timed_out w = failed_lem lp_timeout w
  conclude_lem state overrides crashed w = failed_lem lp_error w
  conclude_lem state overrides (solved s) w = judged_lem state overrides s w s.status s.slot_0 refl

  -- The history after the plan's commands for the loads.
  abbrev pub told : List LoadCommand → History → History
  told [] h = h
  told (cmd ∷ cmds) h = told cmds (told_one cmd.load_id cmd.desired_relay_on cmd.start_cycle h)

  -- From the history of the failed dispatch: the safe state, then the commands of the plan.
  abbrev pub AnsweredBy :
      List LoadCommand → Option ℤ → History → Attempt (Unit {0}) × World → Type 0
  AnsweredBy cmds price h o =
      (o.1.calls ≡ told cmds (safe_state price h))
      × (o.1.service.lp_runtime.breaker.latched ≡ true)
      × (o.1.service.lp_runtime.commanded ≡ none)

  -- The export limit of a plan as it is applied.
  abbrev pub limit_at : LpSolution → World → Option ℤ
  limit_at s w = resolve_export_limit_kw (price_age E w.calls) s.grid_export_limit_kw

  module _ (answers : (h : History) → (b : Bool) × (E.accepts h ≡ returned b)) where
    command_of_lem :
        (id : String) (on : Option Bool) (starts : Bool) (w : World)
        → command_of E c id on starts w
          ≡ (returned tt, record w { calls = told_one id on starts w.calls })
    command_of_lem id (some on) starts w = rw (answers w.calls).1 refl
    command_of_lem id none true w = rw (answers w.calls).1 refl
    command_of_lem id none false w = refl

    command_loads_lem :
        (cmds : List LoadCommand) (w : World)
        → command_loads E c cmds w ≡ (returned tt, record w { calls = told cmds w.calls })
    command_loads_lem [] w = refl
    command_loads_lem (cmd ∷ cmds) w =
        ap (λ o. after o (λ _. command_loads E c cmds))
          (command_of_lem cmd.load_id cmd.desired_relay_on cmd.start_cycle w)
        ∙ command_loads_lem cmds _

    module _ (dispatch : LpDispatch) (probe : Option PvProbe) (current : Option PriceInterval)
        (cmds : List LoadCommand) where
      from_failure :
          (cap : ℤ) (w : World)
          → E.accepts w.calls ≡ returned false
          → from_dispatch E c dispatch probe current cmds cap w ≡ (
              let w' =
                fallen_back lp_error
                  (export_of current)
                  (record w { calls = apply_lp_dispatch dispatch cap probe ∷ w.calls }) in
              (returned tt, record w' { calls = told cmds w'.calls }))
      from_failure cap w e = rw e (
          ap (λ o. after o (λ _. command_loads E c cmds))
            (fall_back_lem lp_error (export_of current) _)
          ∙ command_loads_lem cmds _)

      failure_parts :
          (cap : ℤ) (w : World)
          → E.accepts w.calls ≡ returned false
          → AnsweredBy cmds
              (export_of current)
              (apply_lp_dispatch dispatch cap probe ∷ w.calls)
              (from_dispatch E c dispatch probe current cmds cap w)
      unfolding latch
      failure_parts cap w e =
          let h = from_failure cap w e in
          (
            ap (λ o. o.1.calls) h,
            ap (λ o. o.1.service.lp_runtime.breaker.latched) h,
            ap (λ o. o.1.service.lp_runtime.commanded) h,
          )

      from_failed_cap :
          (limit : Option ℤ) (w : World)
          → E.accepts (with_cap limit w.calls) ≡ returned false
          → AnsweredBy cmds
              (export_of current)
              (apply_lp_dispatch dispatch (or_else limit (pos 0)) probe ∷ with_cap limit w.calls)
              (after
                (set_cap E c limit w)
                (λ _. from_dispatch E c dispatch probe current cmds (or_else limit (pos 0))))
      from_failed_cap none w e = failure_parts (pos 0) w e
      from_failed_cap (some limit) w e = rw (answers w.calls).1 (failure_parts limit _ e)

    -- Where calls do not raise: a dispatch that fails is answered at once by the fallback of the
    -- inverter and of every relay, and the breaker is latched with no command in force. After that
    -- the plan's commands for the loads are sent all the same, those that close a relay too.
    pub failed_dispatch :
        (dispatch : LpDispatch) (probe : Option PvProbe) (current : Option PriceInterval)
        (s : LpSolution) (w : World)
        → E.accepts (with_cap (limit_at s w) w.calls) ≡ returned false
        → AnsweredBy s.load_commands
            (export_of current)
            (apply_lp_dispatch dispatch (or_else (limit_at s w) (pos 0)) probe
              ∷ with_cap (limit_at s w) w.calls)
            (apply_plan E c (s, dispatch) probe current w)
    unfolding apply_plan
    failed_dispatch dispatch probe current s w e =
        from_failed_cap dispatch probe current s.load_commands _ w e
