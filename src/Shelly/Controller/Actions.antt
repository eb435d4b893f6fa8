-- ===== src/Shelly/Controller/Actions.antt =====
-- Sequences of calls of a load.
use energy_optimiser.Prelude.{ℕ, Bool, List, [], ◌∷◌, ◌++◌}
use energy_optimiser.Shelly.Controller.{Load, Poll, Outcome, status, start_cycle, set_relay}

pub data Action : Type 0 where
  poll : Poll → Action
  start : Bool → ℕ → Action
  set : Bool → Bool → Action

module _ (local_date : ℕ → ℕ) where
  abbrev pub act : Action → Load → Outcome
  act (poll p) l = (status local_date p l).0
  act (start acknowledged now) l = (start_cycle acknowledged now l).0
  act (set acknowledged on) l = (set_relay acknowledged on l).0

  abbrev pub run : List Action → Load → Outcome
  run [] l = record { load = l; writes = []; events = [] }
  run (a ∷ actions) l =
      let now = act a l in
      let later = run actions now.load in
      record {
        load = later.load;
        writes = now.writes ++ later.writes;
        events = now.events ++ later.events;
      }
