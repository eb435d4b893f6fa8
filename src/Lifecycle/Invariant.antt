-- ===== src/Lifecycle/Invariant.antt =====
-- What holds of the state machine after startup, whatever calls follow.
use energy_optimiser.Prelude.{◌<◌, ◌≡◌, ◌≢◌, Bool, true, false, none, List, [], ◌∷◌, arith}
use energy_optimiser.Lifecycle.{
  StateMachine, Call, initialise, active, degraded, amber_retry_threshold, should_run_planner, new,
  on_startup_complete, step, run,
}

pub record IsConsistent (m : StateMachine) : Type 0 where
  pub started : m.state ≢ initialise
  pub planner_has_modbus : should_run_planner m ≡ true → m.modbus_lost_at ≡ none
  pub degraded_is_dated : m.state ≡ degraded → m.modbus_lost_at ≢ none
  pub active_has_prices : m.state ≡ active → m.amber_failures < amber_retry_threshold

pub on_startup_complete-IsConsistent :
    (modbus_ok amber_ok : Bool) → IsConsistent (on_startup_complete modbus_ok amber_ok new).0
unfolding on_startup_complete new
on_startup_complete-IsConsistent true true = ground arith
on_startup_complete-IsConsistent true false = ground arith
on_startup_complete-IsConsistent false _ = ground arith

pub step-IsConsistent : (m : StateMachine) (c : Call) → IsConsistent m → IsConsistent (step m c).0
unfolding step
step-IsConsistent m c h = ground arith

pub run-IsConsistent :
    (m : StateMachine) (cs : List Call) → IsConsistent m → IsConsistent (run m cs).0
unfolding run
run-IsConsistent m [] h = h
run-IsConsistent m (c ∷ cs) h = run-IsConsistent (step m c).0 cs (step-IsConsistent m c h)

-- After startup, whatever its outcome, and any sequence of calls, the machine has left INITIALISE.
-- If the planner may run, Modbus is not marked lost. DEGRADED has the time of the loss, and
-- ACTIVE has fewer than three Amber failures in a row.
pub run-startup-IsConsistent :
    (modbus_ok amber_ok : Bool) (cs : List Call)
    → IsConsistent (run (on_startup_complete modbus_ok amber_ok new).0 cs).0
run-startup-IsConsistent modbus_ok amber_ok cs =
    run-IsConsistent _ cs (on_startup_complete-IsConsistent modbus_ok amber_ok)
