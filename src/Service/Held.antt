-- ===== src/Service/Held.antt =====
-- What a tick does when it does not plan.
use energy_optimiser.Prelude.{
  ℕ, ◌≡◌, ◌≢◌, ◌<◌, ◌+◌, ◌⊎◌, Bool, true, Option, none, some, List, [], ◌∷◌, ℤ, arith,
}
use energy_optimiser.Lifecycle.{
  active, active_no_price, fallback, StateMachine, should_fallback, on_modbus_success,
  on_price_age_check, transition,
}
use energy_optimiser.Lp.Scenarios.{PriceInterval}
use energy_optimiser.Modes.{Python}
use energy_optimiser.Service.{
  History, set_fallback, read_state, keep_records, touch_heartbeat, Site, Config, World, PvProbe,
  Action, is_export_stale, pure,
}
use energy_optimiser.Service.Capped.{IsFresh}
use energy_optimiser.Service.Solve.{Plan}

-- The machine is in a state in which nothing is planned, there is no price at all, or the breaker
-- is latched and its cooldown is not over.
abbrev pub HeldBack : ℕ → List PriceInterval → World → Type 0
HeldBack now prices w =
    ((w.service.state_machine.state ≢ active) × (w.service.state_machine.state ≢ active_no_price))
    ⊎ (prices ≡ [])
    ⊎ ((since : ℕ) × (w.service.lp_runtime.breaker.latched ≡ true)
        × (w.service.lp_runtime.breaker.latched_at ≡ some since)
        × (now < since + w.service.lp_runtime.breaker.cooldown))

-- The calls of the end of a tick, and no others, after a history.
pub data Upkeep (start : History) : History → Type 0 where
  nothing : Upkeep start start
  reads : (h : History) → Upkeep start h → Upkeep start (read_state ∷ h)
  records : (h : History) → Upkeep start h → Upkeep start (keep_records ∷ h)
  beats : (h : History) → Upkeep start h → Upkeep start (touch_heartbeat ∷ h)

-- The export price of the current interval, if there is one.
abbrev pub ExportPrice : Option PriceInterval → Option ℤ → Type 0
ExportPrice none price = price ≡ none
ExportPrice (some p) price = price ≡ some p.export_per_kwh

abbrev nothing_planned : Action (Option Plan × Option PvProbe)
nothing_planned = pure (none, none)

module _ (E : Site) (c : Config) (P : Python) where
  -- After a history, one fallback, which blocks export unless the price is fresh, and upkeep.
  abbrev pub Guarded : Option PriceInterval → History → History → Type 0
  Guarded current h after =
      (price : Option ℤ) × (block : Bool) × ExportPrice current price
      × ((block ≡ true) ⊎ IsFresh E h)
      × Upkeep (set_fallback price block ∷ h) after

  -- What a tick that has read the state has called at its end, by the state of the machine.
  abbrev pub Held : Option PriceInterval → World → History → Type 0
  Held current w after =
      ((w.service.state_machine.state ≢ fallback) × Upkeep w.calls after)
      ⊎ ((w.service.state_machine.state ≡ fallback) × Guarded current w.calls after)

-- If the machine is in fallback after a tick has read the state and tested the age of the prices,
-- then that age blocks export in the fallback.
pub fallback_blocks_export :
    (m : StateMachine) (age : Option ℤ)
    → should_fallback (on_price_age_check age (on_modbus_success m).0).0 ≡ true
    → is_export_stale age ≡ true
unfolding on_modbus_success on_price_age_check transition
fallback_blocks_export m none e = ground (arith, e)
fallback_blocks_export m (some age) e = ground (arith, e)
