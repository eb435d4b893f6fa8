-- ===== src/Lifecycle/Trace.antt =====
-- The transition events as a record of the machine's history.
use energy_optimiser.Prelude.{◌≡◌, ◌≢◌, refl, List, [], ◌∷◌, ◌++◌, arith}
use energy_optimiser.Lifecycle.{
  ServiceState, StateMachine, Call, Event, state_transition, price_stale, step, run,
}

-- The events lead from one state to the other: each transition starts where the one before it
-- ended, and changes the state.
abbrev pub Leads : ServiceState → List Event → ServiceState → Type 0
Leads s [] t = s ≡ t
Leads s (state_transition a b _ ∷ es) t = (s ≡ a) × (a ≢ b) × Leads b es t
Leads s (price_stale _ ∷ es) t = Leads s es t

pub Leads-append :
    (s t u : ServiceState) (es fs : List Event) → Leads s es t → Leads t fs u → Leads s (es ++ fs) u
Leads-append s t u [] fs h k = ground arith
Leads-append s t u (state_transition a b _ ∷ es) fs (p, q, h) k =
    (p, q, Leads-append b t u es fs h k)
Leads-append s t u (price_stale _ ∷ es) fs h k = Leads-append s t u es fs h k

pub step-Leads : (m : StateMachine) (c : Call) → Leads m.state (step m c).1 (step m c).0.state
unfolding step
step-Leads m c = ground arith

-- The STATE_TRANSITION events of any sequence of calls lead from the first state to the last one,
-- with no gap and no transition from a state to itself.
pub run-Leads : (m : StateMachine) (cs : List Call) → Leads m.state (run m cs).1 (run m cs).0.state
unfolding run
run-Leads m [] = refl
run-Leads m (c ∷ cs) =
    Leads-append m.state (step m c).0.state (run (step m c).0 cs).0.state (step m c).1
      (run (step m c).0 cs).1 (step-Leads m c) (run-Leads (step m c).0 cs)
