-- ===== src/Service.antt =====
-- src/optimiser/service.py: the state of the service and what its handlers do to the world. The
-- components that it calls answer by what has been called so far, so a history of calls, the latest
-- first, is the state of the world. Events, metrics and log lines are left out.
pub mod Solve
pub mod Tick
pub mod Kept
pub mod Capped
pub mod Export
pub mod Held
pub mod Failing
pub mod Prices
pub mod Cooldown
pub mod PriceLog
pub mod Backfill
use Prim.Native.String.{String}
use energy_optimiser.Prelude.{
  ℕ, Bool, true, false, ◌||◌, Option, none, some, List, [], ◌∷◌, ℤ, pos, ltb_ℤ, leb_ℤ,
}
use energy_optimiser.Amber.{AmberClient, prices_5min_age}
use energy_optimiser.Curtailment.{CurtailmentState}
use energy_optimiser.Lifecycle.{StateMachine}
use energy_optimiser.Lp.Dispatch.{BatteryConfig, SlotDecision, LpDispatch}
use energy_optimiser.Lp.Fallback.{Attempt, returned, raised, Plant, Controller}
use energy_optimiser.Lp.Runtime.{LpRuntime}
use energy_optimiser.Lp.Scenarios.{PriceInterval}
use energy_optimiser.Lp.Solution.{LpSolution}
use energy_optimiser.Modes.{ModeManager, ModeOverrides, Python}

-- The fields of `SystemState` that the handlers read.
pub record SystemState : Type 0 where
  pub timestamp : ℕ
  pub soc_pct : ℤ
  pub battery_power_kw : ℤ
  pub pv_power_kw : ℤ
  pub house_load_kw : Option ℤ

pub record PvProbe : Type 0 where
  pub pv_kw : Option ℤ
  pub saturated : Bool

-- What becomes of the solver's thread within the wall-clock timeout.
pub data SolveReply : Type 0 where
  timed_out crashed : SolveReply
  solved : LpSolution → SolveReply

-- A call of another component, with its arguments. The records of telemetry and the snapshot are
-- one call.
pub data Call : Type 0 where
  poll_occupancy read_state all_statuses build_load_profile keep_records touch_heartbeat : Call
  measure_uncapped_pv : Option ℤ → Call
  solve_stochastic : List PriceInterval → Option ℤ → ModeOverrides → Call
  set_export_limit_kw : ℤ → Call
  apply_lp_dispatch : LpDispatch → ℤ → Option PvProbe → Call
  set_fallback : Option ℤ → Bool → Call
  set_relay : String → Bool → Call
  start_cycle : String → Call

abbrev pub History : Type 0
History = List Call

-- The answers, the Amber client as the other wake loops have left it, and the clock.
pub record Site : Type 0 where
  pub clock : History → ℕ
  pub amber : History → AmberClient
  pub reads : History → Attempt (Option SystemState)
  pub probes : History → Attempt (Option PvProbe)
  pub solves : History → SolveReply
  pub accepts : History → Attempt Bool
  pub completes : History → Attempt (Unit {0})

pub record Config : Type 0 where
  pub battery : BatteryConfig
  pub soc_ceiling_pct : ℤ
  pub controllers : List Controller

pub record Service : Type 0 where
  pub state_machine : StateMachine
  pub lp_runtime : LpRuntime
  pub mode_manager : ModeManager
  pub last_export_limit_kw : Option ℤ
  pub last_prices_planning : Option (List PriceInterval)
  pub curtailment_state : CurtailmentState

pub record World : Type 0 where
  pub service : Service
  pub calls : History

-- A handler returns or raises; what it did to the world stays done.
abbrev pub Action {ℓ} : Type ℓ → Type ℓ
Action A = World → Attempt A × World

module _ {ℓ} {A : Type ℓ} where
  abbrev pub pure : A → Action A
  pure a w = (returned a, w)

module _ {ℓ κ} {A : Type ℓ} {B : Type κ} where
  abbrev pub after : Attempt A × World → (A → Action B) → Attempt B × World
  after (returned a, w) f = f a w
  after (raised, w) f = (raised, w)

infixl 5 ◌>>=◌ ◌>>◌
abbrev pub ◌>>=◌ {ℓ κ} : {A : Type ℓ} {B : Type κ} → Action A → (A → Action B) → Action B
◌>>=◌ m f w = after (m w) f

abbrev pub ◌>>◌ {ℓ κ} : {A : Type ℓ} {B : Type κ} → Action A → Action B → Action B
◌>>◌ m k w = after (m w) (λ _. k)

module _ {ℓ} {A : Type ℓ} where
  -- A call: the answer is by the history before it.
  abbrev pub call : Call → (History → Attempt A) → Action A
  call c answer w = (answer w.calls, record w { calls = c ∷ w.calls })

abbrev pub look : Action World
look w = (returned w, w)

abbrev pub modify : (Service → Service) → Action (Unit {0})
modify f w = (returned tt, record w { service = f w.service })

-- `try: ... except Exception: logger.exception(...)`
abbrev pub attempted {ℓ} : {A : Type ℓ} → Action A → Action (Unit {0})
attempted m w = (returned tt, (m w).1)

-- 15 minutes.
abbrev pub export_price_stale_threshold : ℤ
export_price_stale_threshold = pos 900_000_000

-- `price_age is None or price_age > EXPORT_PRICE_STALE_THRESHOLD`
abbrev pub is_export_stale : Option ℤ → Bool
is_export_stale none = true
is_export_stale (some age) = ltb_ℤ export_price_stale_threshold age

module _ (E : Site) where
  abbrev pub price_age : History → Option ℤ
  price_age h = prices_5min_age (E.clock h) (E.amber h)

  -- The inverter and the relays, as the paranoid fallback drives them.
  abbrev pub plant : Plant
  plant = record {
    State = World;
    set_fallback = λ price block. call (set_fallback price block) E.accepts;
    set_relay = λ id on. call (set_relay id on) E.accepts;
  }
