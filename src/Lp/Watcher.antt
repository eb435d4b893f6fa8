-- ===== src/Lp/Watcher.antt =====
-- src/optimiser/lp/watcher.py as steps that interleave with the tick loop: a poll takes the lock
-- twice and suspends for Modbus in between, so it is cut at those points. A step that the watcher
-- is not ready for changes nothing. One poll runs at a time, since the wake loop skips overruns.
pub mod Breaker
pub mod Probe
pub mod Deviations
use energy_optimiser.Prelude.{
  ℕ, ◌+◌, Bool, false, ◌&&◌, Option, none, some, List, [], ◌∷◌, ◌++◌, ℤ, leb, not, if◌then◌else◌,
}
use energy_optimiser.Lp.Dispatch.{
  LpDispatch, DeviationKind, conforms, not_verified, verify_battery_response,
}
use energy_optimiser.Lp.Runtime.{
  LpRuntime, CommandedState, FallbackReason, verify_deviation, no_reason, within_span,
  record_command, latch,
}

pub data Event : Type 0 where
  breaker_cleared : FallbackReason → Event
  deviation : DeviationKind → ℤ → ℤ → ℕ → ℕ → Event
  breaker_latched : FallbackReason → DeviationKind → Event

-- Where the poll stands: not running, reading the battery power, about to take the lock with a
-- verdict, or inside the fallback.
pub data Phase : Type 0 where
  waiting : Phase
  reading : CommandedState → Bool → Phase
  judged : DeviationKind → CommandedState → Bool → ℤ → Phase
  falling_back : DeviationKind → Phase

pub record World : Type 0 where
  pub runtime : LpRuntime
  pub phase : Phase

abbrev pub Outcome : Type 0
Outcome = World × List Event

-- Up to the read: the snapshot under the lock, and the tests for a command and its grace period.
unfoldable pub begin_poll : ℕ → World → World
begin_poll now w = elim w.runtime.commanded [
  | none ↦ w
  | some c ↦
      if within_span now c.write_timestamp w.runtime.grace_period
      then w
      else record w { phase = reading c w.runtime.breaker.latched }
]

-- The read has returned: no value ends the poll, and so does a verdict that asserts nothing.
unfoldable pub finish_read : Option ℤ → CommandedState → Bool → World → World
finish_read none c latched w = record w { phase = waiting }
finish_read (some measured) c latched w =
    elim (verify_battery_response c.dispatch measured w.runtime.deviation_floor_kw) [
      | not_verified ↦ record w { phase = waiting }
      | outcome ↦ record w { phase = judged outcome c latched measured }
    ]

unfoldable pub on_clean_verification : Bool → LpRuntime → LpRuntime × List Event
on_clean_verification was_latched r =
    let b = record (r.breaker) { consecutive_deviations = 0 } in
    if not was_latched
    then (record r { breaker = b }, [])
    else (let probes = b.consecutive_clean_probes + 1 in
        if leb b.clean_probe_threshold probes
        then (
          record r {
            breaker = record b {
              latched = false;
              latched_at = none;
              consecutive_clean_probes = 0;
              last_fallback_reason = no_reason;
            };
          },
          breaker_cleared b.last_fallback_reason ∷ [],
        )
        else (record r { breaker = record b { consecutive_clean_probes = probes } }, []))

-- The locked part of `_on_deviation`, and its test for the fallback.
unfoldable pub on_deviation : DeviationKind → ℤ → ℤ → LpRuntime → LpRuntime × Bool × List Event
on_deviation outcome commanded_kw measured_kw r =
    let count = r.breaker.consecutive_deviations + 1 in
    let threshold = r.breaker.deviation_threshold_count in
    (
      record r {
        breaker = record (r.breaker) {
          consecutive_deviations = count;
          consecutive_clean_probes = 0;
        };
      },
      leb threshold count && not r.breaker.latched,
      deviation outcome commanded_kw measured_kw count threshold ∷ [],
    )

-- Takes the lock with a verdict; a deviation goes on to the fallback if the test says so.
unfoldable pub handle : DeviationKind → CommandedState → Bool → ℤ → World → Outcome
unfolding on_clean_verification on_deviation
handle conforms c latched measured w =
    let (r, events) = on_clean_verification latched w.runtime in
    (record w { runtime = r; phase = waiting }, events)
handle outcome c latched measured w =
    let (r, triggered, events) =
      on_deviation outcome c.dispatch.signed_intent_kw measured w.runtime in
    (record w { runtime = r; phase = if triggered then falling_back outcome else waiting }, events)

-- The fallback's calls have ended: latch, and tell.
unfoldable pub finish_fallback : ℕ → DeviationKind → World → Outcome
unfolding latch
finish_fallback now outcome w = (
  record w { runtime = latch verify_deviation now w.runtime; phase = waiting },
  breaker_latched verify_deviation outcome ∷ [],
)

-- What can happen next: a wake of the watcher, the end of one of its waits, or the tick loop's
-- own use of the runtime. The times and the measurement are the environment's.
pub data Action : Type 0 where
  wake : ℕ → Action
  read_returns : Option ℤ → Action
  lock_taken : Action
  fallback_returns : ℕ → Action
  tick_commands : LpDispatch → ℕ → Action
  tick_latches : FallbackReason → ℕ → Action

abbrev act_in : Phase → Action → World → Outcome
act_in waiting (wake now) w = (begin_poll now w, [])
act_in (reading c latched) (read_returns measured) w = (finish_read measured c latched w, [])
act_in (judged outcome c latched measured) lock_taken w = handle outcome c latched measured w
act_in (falling_back outcome) (fallback_returns now) w = finish_fallback now outcome w
act_in _ (tick_commands dispatch now) w =
    (record w { runtime = record_command dispatch now w.runtime }, [])
act_in _ (tick_latches reason now) w = (record w { runtime = latch reason now w.runtime }, [])
act_in _ _ w = (w, [])

unfoldable pub act : World → Action → Outcome
unfolding begin_poll finish_read handle finish_fallback record_command latch
act w a = act_in w.phase a w

unfoldable pub run : World → List Action → Outcome
run w [] = (w, [])
run w (a ∷ rest) =
    let (w', events) = act w a in let (w'', more) = run w' rest in (w'', events ++ more)
