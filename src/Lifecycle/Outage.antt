-- ===== src/Lifecycle/Outage.antt =====
-- A Modbus outage, from the first failed call to FALLBACK and to the recovery.
use energy_optimiser.Prelude.{
  ℕ, ◌+◌, ◌≤◌, ◌≡◌, ◌≢◌, ◌⊎◌, Bool, true, false, none, some, List, [], ◌∷◌, arith, ltb,
  if◌then◌else◌, All,
}
use energy_optimiser.Lifecycle.{
  StateMachine, Call, modbus_success, active, active_no_price, degraded, fallback, initialise,
  degraded_timeout, amber_retry_threshold, should_run_planner, on_modbus_success, on_modbus_failure,
  step, run,
}

abbrev pub is_contact : Call → Bool
is_contact modbus_success = true
is_contact _ = false

-- No call of the sequence reports a working Modbus link.
abbrev pub NoContact : List Call → Type 0
NoContact cs = All (λ c. is_contact c ≡ false) cs

-- The link is lost since `t`, and the planner is stopped.
pub record IsLost (t : ℕ) (m : StateMachine) : Type 0 where
  pub since : m.modbus_lost_at ≡ some t
  pub stopped : (m.state ≡ degraded) ⊎ (m.state ≡ fallback)

on_modbus_failure-IsLost :
    (t : ℕ) (m : StateMachine)
    → should_run_planner m ≡ true
    → m.modbus_lost_at ≡ none
    → IsLost t (on_modbus_failure t m).0
unfolding on_modbus_failure
on_modbus_failure-IsLost t m h e = ground arith

step-IsLost :
    (t : ℕ) (m : StateMachine) (c : Call)
    → is_contact c ≡ false
    → IsLost t m
    → IsLost t (step m c).0
unfolding step
step-IsLost t m c n h = ground arith

run-IsLost :
    (t : ℕ) (m : StateMachine) (cs : List Call) → NoContact cs → IsLost t m → IsLost t (run m cs).0
unfolding run
run-IsLost t m [] n h = h
run-IsLost t m (c ∷ cs) (n, ns) h = run-IsLost t (step m c).0 cs ns (step-IsLost t m c n h)

on_modbus_failure_late :
    (t now : ℕ) (m : StateMachine)
    → IsLost t m
    → t + degraded_timeout ≤ now
    → (on_modbus_failure now m).0.state ≡ fallback
unfolding on_modbus_failure
on_modbus_failure_late t now m h late = ground arith

-- From a machine that may plan and has not lost Modbus: if a call fails at `t`, no later call
-- reports a working link, and a call fails five minutes after `t` or later, the machine is in
-- FALLBACK. Amber successes in between do not end the outage.
pub outage_falls_back :
    (t now : ℕ) (m : StateMachine) (cs : List Call)
    → should_run_planner m ≡ true
    → m.modbus_lost_at ≡ none
    → NoContact cs
    → t + degraded_timeout ≤ now
    → (on_modbus_failure now (run (on_modbus_failure t m).0 cs).0).0.state ≡ fallback
outage_falls_back t now m cs ready e n late =
    on_modbus_failure_late t now _ (run-IsLost t _ cs n (on_modbus_failure-IsLost t m ready e)) late

-- Once started, a Modbus success clears the loss and lets the planner run, from every state.
-- It keeps ACTIVE and ACTIVE_NO_PRICE, and from DEGRADED and FALLBACK it chooses ACTIVE exactly
-- when Amber has failed fewer than three times in a row.
pub on_modbus_success_recovers :
    (m : StateMachine)
    → m.state ≢ initialise
    → ((on_modbus_success m).0.modbus_lost_at ≡ none)
      × (should_run_planner (on_modbus_success m).0 ≡ true)
      × (should_run_planner m ≡ true → (on_modbus_success m).0.state ≡ m.state)
      × ((m.state ≡ degraded) ⊎ (m.state ≡ fallback)
          → (on_modbus_success m).0.state
            ≡ (if ltb m.amber_failures amber_retry_threshold then active else active_no_price))
unfolding on_modbus_success
on_modbus_success_recovers m started = ground arith
