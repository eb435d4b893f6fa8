-- ===== src/Service/Capped.antt =====
-- What stands in the history of calls when the inverter is commanded by a plan.
use Prim.Native.String.{String}
use energy_optimiser.Prelude.{
  ℕ, ◌+◌, ◌≤◌, refl, arith, sub_ℕ, sym, subst, ◌≡◌, ◌⊎◌, Bool, true, false, Option, none, some,
  List, [], ◌∷◌, ℤ, pos, ◌≤ℤ◌,
}
use energy_optimiser.Amber.{prices_5min_age}
use energy_optimiser.Lp.Fallback.{Attempt, returned, raised}
use energy_optimiser.Lp.Fallback.Relays.{relay_ids, command_all, trigger_fallback_lem}
use energy_optimiser.Lp.Runtime.{FallbackReason}
use energy_optimiser.Service.{
  Call, set_export_limit_kw, apply_lp_dispatch, History, Site, Config, World, Action, after, call,
  pure, modify, is_export_stale, price_age, plant,
}
use energy_optimiser.Service.Kept.{Keeps, then-Keeps}
use energy_optimiser.Service.Solve.{fall_back_and_latch}
use energy_optimiser.Service.Tick.{command_of, command_load, command_loads, dispatched, export_of}
use energy_optimiser.Lp.Solution.{LoadCommand}
use energy_optimiser.Service.{PvProbe, set_relay, start_cycle, ◌>>=◌, ◌>>◌}
use energy_optimiser.Lp.Dispatch.{LpDispatch}
use energy_optimiser.Lp.Scenarios.{PriceInterval}
use energy_optimiser.Lp.Runtime.{lp_error}
use energy_optimiser.Service.Kept.{after_keeps}

-- The dispatch's export cap is the one that was written by the call before it, or 0.
abbrev pub CapWritten : ℤ → History → Type 0
CapWritten cap h = (cap ≡ pos 0) ⊎ ((rest : History) × (h ≡ set_export_limit_kw cap ∷ rest))

fetched_at :
    (o : Option ℕ) (now : ℕ)
    → is_export_stale (elim o [ none ↦ none | some t ↦ some (sub_ℕ now t) ]) ≡ false
    → (t : ℕ) × (o ≡ some t) × (now ≤ t + 900_000_000)
fetched_at none now e = cc
fetched_at (some t) now e = (t, refl, ground (arith, e))

module _ (E : Site) where
  -- The price for 5 minutes was fetched, at most 15 minutes ago.
  abbrev pub IsFresh : History → Type 0
  IsFresh h =
      (fetched : ℕ) × ((E.amber h).last_5min_fetch ≡ some fetched)
      × (E.clock h ≤ fetched + 900_000_000)

  -- By its export limit. A fallback writes one of its own, on which this says nothing.
  abbrev pub PlanCallIsSafe : Call → History → Type 0
  PlanCallIsSafe (set_export_limit_kw limit) h = (limit ≤ℤ pos 0) ⊎ IsFresh h
  PlanCallIsSafe (apply_lp_dispatch dispatch cap probe) h = CapWritten cap h
  PlanCallIsSafe _ h = Unit

  -- Each call of a plan was safe when it was made.
  abbrev pub IsPlanSafe : History → Type 0
  IsPlanSafe [] = Unit
  IsPlanSafe (c ∷ h) = PlanCallIsSafe c h × IsPlanSafe h

  abbrev pub Safe : World → Type 0
  Safe w = IsPlanSafe w.calls

  pub is_export_stale_lem : (h : History) → is_export_stale (price_age E h) ≡ false → IsFresh h
  unfolding prices_5min_age
  is_export_stale_lem h e = fetched_at (E.amber h).last_5min_fetch (E.clock h) e

  module _ (c : Config) where
    relays-Safe : (ids : _) (w : World) → Safe w → Safe (command_all (plant E) ids w)
    relays-Safe [] w i = i
    relays-Safe (id ∷ ids) w i = relays-Safe ids _ (tt, i)

    pub fall_back-Safe :
        (reason : FallbackReason) (price : Option ℤ)
        → Keeps Safe (fall_back_and_latch E c reason price)
    fall_back-Safe reason price w i =
        subst Safe
          (sym (trigger_fallback_lem (plant E) c.controllers reason none none price false none w).0)
          (relays-Safe (relay_ids c.controllers) _ (tt, i))

    module _ (dispatch : LpDispatch) (probe : Option PvProbe) (current_5min : Option PriceInterval)
        (cmds : List LoadCommand) where
      command_of-Safe :
          (id : String) (on : Option Bool) (starts : Bool)
          → Keeps Safe (command_of E c id on starts)
      command_of-Safe id (some on) starts =
          then-Keeps Safe (call (set_relay id on) E.accepts) (pure tt) (λ w i. (tt, i)) (λ w i. i)
      command_of-Safe id none true =
          then-Keeps Safe (call (start_cycle id) E.accepts) (pure tt) (λ w i. (tt, i)) (λ w i. i)
      command_of-Safe id none false = λ w i. i

      command_loads-Safe : (cmds : List LoadCommand) → Keeps Safe (command_loads E c cmds)
      command_loads-Safe [] = λ w i. i
      command_loads-Safe (cmd ∷ cmds) =
          then-Keeps Safe (command_load E c cmd) (command_loads E c cmds)
            (command_of-Safe cmd.load_id cmd.desired_relay_on cmd.start_cycle)
            (command_loads-Safe cmds)

      dispatched-Safe : (ok : Bool) → Keeps Safe (dispatched E c dispatch current_5min ok)
      dispatched-Safe true = λ w i. i
      dispatched-Safe false = fall_back-Safe lp_error (export_of current_5min)

      abbrev pub from_dispatch : ℤ → Action (Unit {0})
      from_dispatch cap = do
        apply_ok ← call (apply_lp_dispatch dispatch cap probe) E.accepts
        dispatched E c dispatch current_5min apply_ok
        command_loads E c cmds

      pub from_dispatch-Safe :
          (cap : ℤ) (w : World) → CapWritten cap w.calls → Safe w → Safe (from_dispatch cap w).1
      from_dispatch-Safe cap w h i =
          after_keeps Safe (call (apply_lp_dispatch dispatch cap probe) E.accepts w) _ (h, i)
            (λ ok.
              then-Keeps Safe (dispatched E c dispatch current_5min ok) (command_loads E c cmds)
                (dispatched-Safe ok) (command_loads-Safe cmds))

      pub capped-Safe :
          (limit : ℤ) (a : Attempt Bool) (w : World)
          → Safe w
          → CapWritten limit w.calls
          → Safe
              (after
                (after (a, w) (λ _. modify (λ s. record s { last_export_limit_kw = some limit })))
                (λ _. from_dispatch limit)).1
      capped-Safe limit (returned b) w i h = from_dispatch-Safe limit _ h i
      capped-Safe limit raised w i h = i
