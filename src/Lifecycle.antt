-- ===== src/Lifecycle.antt =====
-- src/optimiser/state_machine.py, the states of src/optimiser/types.py, and the events that the
-- machine emits. A call returns the new machine and the events in order; log lines are left out.
-- `now` is the wall clock in microseconds, which may go back between two calls.
pub mod Invariant
pub mod Trace
pub mod Outage
use energy_optimiser.Prelude.{
  ℕ, ◌+◌, Bool, true, false, ◌&&◌, ◌||◌, Option, none, some, List, [], ◌∷◌, ◌++◌, ℤ, pos, sub_ℕ,
  ltb, ltb_ℤ, leb, leb_ℤ, ◌==◌, not, is_some, if◌then◌else◌,
}

pub data ServiceState : Type 0 where
  initialise active active_no_price degraded fallback : ServiceState

-- The `reason` text of a transition, with the values that it shows.
pub data Reason : Type 0 where
  startup_complete startup_amber_unavailable startup_modbus_unavailable : Reason
  modbus_reconnected modbus_reconnected_amber_down modbus_reconnected_amber_ok : Reason
  modbus_lost amber_recovered amber_recovered_modbus_ok : Reason
  modbus_unreachable : ℤ → Reason
  amber_failed : ℕ → Reason
  price_data_stale : ℤ → Reason

pub data Event : Type 0 where
  state_transition : ServiceState → ServiceState → Reason → Event
  price_stale : ℕ → Event

pub record StateMachine : Type 0 where
  pub state : ServiceState
  pub modbus_lost_at : Option ℕ
  pub amber_failures : ℕ
  pub price_stale_since : Option ℕ

abbrev pub degraded_timeout : ℕ
degraded_timeout = 300_000_000

abbrev pub price_stale_threshold : ℕ
price_stale_threshold = 3_600_000_000

abbrev pub amber_retry_threshold : ℕ
amber_retry_threshold = 3

-- `==` on states.
abbrev pub same : ServiceState → ServiceState → Bool
same initialise initialise = true
same active active = true
same active_no_price active_no_price = true
same degraded degraded = true
same fallback fallback = true
same _ _ = false

abbrev pub Outcome : Type 0
Outcome = StateMachine × List Event

unfoldable pub new : StateMachine
new = record {
  state = initialise;
  modbus_lost_at = none;
  amber_failures = 0;
  price_stale_since = none;
}

unfoldable pub transition : StateMachine → ServiceState → Reason → Outcome
transition m new_state reason =
    if same new_state m.state
    then (m, [])
    else (record m { state = new_state }, state_transition m.state new_state reason ∷ [])

unfoldable pub on_startup_complete : Bool → Bool → StateMachine → Outcome
unfolding transition
on_startup_complete modbus_ok amber_ok m =
    if modbus_ok && amber_ok
    then transition m active startup_complete
    else if modbus_ok && not amber_ok
    then transition m active_no_price startup_amber_unavailable
    else if not modbus_ok
    then transition m fallback startup_modbus_unavailable
    else (m, [])

unfoldable pub on_modbus_success : StateMachine → Outcome
unfolding transition
on_modbus_success m₀ =
    let m = record m₀ { modbus_lost_at = none } in
    if same m.state degraded
    then (if ltb m.amber_failures amber_retry_threshold
        then transition m active modbus_reconnected
        else transition m active_no_price modbus_reconnected_amber_down)
    else if same m.state fallback
    then (if ltb m.amber_failures amber_retry_threshold
        then transition m active modbus_reconnected_amber_ok
        else transition m active_no_price modbus_reconnected_amber_down)
    else (m, [])

-- `self._modbus_lost_at` once the first test of `on_modbus_failure` has set it.
abbrev pub lost_since : ℕ → Option ℕ → ℕ
lost_since now none = now
lost_since now (some t) = t

-- The second test of `on_modbus_failure`, on the state that the first one left.
unfoldable pub escalate : ℕ → ℕ → StateMachine → Outcome
unfolding transition
escalate now since m =
    let elapsed = sub_ℕ now since in
    if same m.state degraded && leb_ℤ (pos degraded_timeout) elapsed
    then transition m fallback (modbus_unreachable elapsed)
    else (m, [])

unfoldable pub on_modbus_failure : ℕ → StateMachine → Outcome
unfolding escalate
on_modbus_failure now m =
    let since = lost_since now m.modbus_lost_at in
    let lost = record m { modbus_lost_at = some since } in
    let (m', events) =
      if same lost.state active || same lost.state active_no_price
      then transition lost degraded modbus_lost
      else (lost, []) in
    let (m'', more) = escalate now since m' in (m'', events ++ more)

unfoldable pub on_amber_success : StateMachine → Outcome
unfolding transition
on_amber_success m₀ =
    let m = record m₀ { amber_failures = 0; price_stale_since = none } in
    if same m.state active_no_price
    then transition m active amber_recovered
    else if same m.state fallback && not (is_some m.modbus_lost_at)
    then transition m active amber_recovered_modbus_ok
    else (m, [])

unfoldable pub on_amber_failure : StateMachine → Outcome
unfolding transition
on_amber_failure m₀ =
    let m = record m₀ { amber_failures = m₀.amber_failures + 1 } in
    if leb amber_retry_threshold m.amber_failures && same m.state active
    then (let (m', events) = transition m active_no_price (amber_failed m.amber_failures) in
        (m', events ++ (price_stale m.amber_failures ∷ [])))
    else (m, [])

-- `if price_age and price_age > PRICE_STALE_THRESHOLD`: a zero age is falsy.
abbrev pub is_stale : Option ℤ → Bool
is_stale none = false
is_stale (some age) = ltb_ℤ (pos price_stale_threshold) age

unfoldable pub on_price_age_check : Option ℤ → StateMachine → Outcome
unfolding transition
on_price_age_check none m = (m, [])
on_price_age_check (some age) m =
    if is_stale (some age) && same m.state active_no_price
    then transition m fallback (price_data_stale age)
    else (m, [])

abbrev pub should_run_planner : StateMachine → Bool
should_run_planner m = same m.state active || same m.state active_no_price

abbrev pub should_apply_commands : StateMachine → Bool
should_apply_commands m = same m.state active || same m.state active_no_price

abbrev pub should_fallback : StateMachine → Bool
should_fallback m = same m.state fallback

-- The calls that the service makes after startup.
pub data Call : Type 0 where
  modbus_success : Call
  modbus_failure : ℕ → Call
  amber_success : Call
  amber_failure : Call
  price_age_check : Option ℤ → Call

unfoldable pub step : StateMachine → Call → Outcome
unfolding on_modbus_success on_modbus_failure on_amber_success on_amber_failure on_price_age_check
step m modbus_success = on_modbus_success m
step m (modbus_failure now) = on_modbus_failure now m
step m amber_success = on_amber_success m
step m amber_failure = on_amber_failure m
step m (price_age_check age) = on_price_age_check age m

-- The machine after a sequence of calls, and all that they emitted.
unfoldable pub run : StateMachine → List Call → Outcome
run m [] = (m, [])
run m (c ∷ cs) = let (m', events) = step m c in let (m'', more) = run m' cs in (m'', events ++ more)
