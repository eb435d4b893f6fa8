-- ===== src/Lp/Fallback.antt =====
-- src/optimiser/lp/fallback.py: the drive to the safe state. The inverter and the relay controllers
-- are an interface over a state of their own: a call returns or raises, and may change that state.
pub mod Relays
use Prim.Native.String.{String}
use energy_optimiser.Prelude.{Bool, false, Option, List, [], ◌∷◌, ◌++◌, ℤ, if◌then◌else◌}
use energy_optimiser.Lp.Runtime.{FallbackReason}

pub data Attempt {ℓ} (A : Type ℓ) : Type ℓ where
  returned : A → Attempt A
  raised : Attempt A

-- `SigenergyController.set_fallback` and `ShellyLoadController.set_relay`, by load id.
pub record Plant : Type 1 where
  pub State : Type 0
  pub set_fallback : Option ℤ → Bool → State → Attempt Bool × State
  pub set_relay : String → Bool → State → Attempt Bool × State

pub record Controller : Type 0 where
  pub load_id : String
  pub has_relay : Bool

pub record FallbackResult : Type 0 where
  pub set_self_consume : Bool
  pub relays_opened : List String
  pub reason : FallbackReason

-- The FALLBACK_TRIGGERED event. `extra_context` is merged into it in the source.
pub record FallbackEvent : Type 0 where
  pub reason : FallbackReason
  pub set_self_consume : Bool
  pub relays_opened : List String
  pub commanded_kw : Option ℤ
  pub measured_kw : Option ℤ
  pub extra_context : Option (List (String × String))

abbrev pub succeeded : Attempt Bool → Bool
succeeded (returned b) = b
succeeded raised = false

abbrev pub note_relay : Attempt Bool → String → List String → List String
note_relay (returned _) id ids = ids ++ (id ∷ [])
note_relay raised id ids = ids

module _ (P : Plant) where
  -- The body of the loop over the controllers, with `relay_load_ids` so far.
  visit : Controller → List String × P.State → List String × P.State
  visit ctl (ids, s) =
      if ctl.has_relay
      then (let (outcome, s') = P.set_relay ctl.load_id false s in
          (note_relay outcome ctl.load_id ids, s'))
      else (ids, s)

  unfoldable pub open_relays : List Controller → List String × P.State → List String × P.State
  unfolding visit
  open_relays [] seen = seen
  open_relays (ctl ∷ ctls) seen = open_relays ctls (visit ctl seen)

  unfoldable pub trigger_fallback :
      List Controller
      → FallbackReason
      → Option ℤ
      → Option ℤ
      → Option ℤ
      → Bool
      → Option (List (String × String))
      → P.State
      → FallbackResult × FallbackEvent × P.State
  unfolding open_relays
  trigger_fallback ctls reason commanded_kw measured_kw export_price_ckwh block_export extra_context
        s =
      let (outcome, s') = P.set_fallback export_price_ckwh block_export s in
      let (ids, s'') = open_relays ctls ([], s') in
      let ok = succeeded outcome in
      (
        record { set_self_consume = ok; relays_opened = ids; reason = reason },
        record {
          reason = reason;
          set_self_consume = ok;
          relays_opened = ids;
          commanded_kw = commanded_kw;
          measured_kw = measured_kw;
          extra_context = extra_context;
        },
        s'',
      )
