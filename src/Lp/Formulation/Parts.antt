-- ===== src/Lp/Formulation/Parts.antt =====
-- The constraints of a scenario, taken apart and put together.
use energy_optimiser.Prelude.{◌-◌, List, length}
use energy_optimiser.Lp.Linear.{Assignment, Satisfied, for_slots}
use energy_optimiser.Lp.Linear.Laws.{Satisfied-append, append-Satisfied}
use energy_optimiser.Lp.Formulation.{
  Setting, Slot, variable_bounds, load_constraints, slot_constraints, soc_dynamics, terminal_soc,
  buy_constraints, conserve_constraints, add_scenario,
}

module _ (a : Assignment) (c : Setting) (slots : List Slot) where
  -- The seven groups, each over all slots.
  pub record Groups : Type 0 where
    pub bounds : Satisfied a (for_slots 0 slots (variable_bounds c))
    pub loads : Satisfied a (load_constraints c.loads)
    pub rows : Satisfied a (for_slots 0 slots (slot_constraints c))
    pub dynamics : Satisfied a (for_slots 0 slots (soc_dynamics c))
    pub terminal : Satisfied a (terminal_soc c (length slots - 1))
    pub buy : Satisfied a (for_slots 0 slots (buy_constraints c))
    pub conserve : Satisfied a (for_slots 0 slots (conserve_constraints c))

  pub groups : Satisfied a (add_scenario c slots) → Groups
  unfolding add_scenario
  groups h =
      let (h₆, conserve) = Satisfied-append a _ (for_slots 0 slots (conserve_constraints c)) h in
      let (h₅, buy) = Satisfied-append a _ (for_slots 0 slots (buy_constraints c)) h₆ in
      let (h₄, terminal) = Satisfied-append a _ (terminal_soc c (length slots - 1)) h₅ in
      let (h₃, dynamics) = Satisfied-append a _ (for_slots 0 slots (soc_dynamics c)) h₄ in
      let (h₂, rows) = Satisfied-append a _ (for_slots 0 slots (slot_constraints c)) h₃ in
      let (bounds, loads) = Satisfied-append a _ (load_constraints c.loads) h₂ in
      record {
        bounds = bounds;
        loads = loads;
        rows = rows;
        dynamics = dynamics;
        terminal = terminal;
        buy = buy;
        conserve = conserve;
      }

  pub together : Groups → Satisfied a (add_scenario c slots)
  unfolding add_scenario
  together g =
      append-Satisfied a _ _
        (append-Satisfied a _ _
          (append-Satisfied a _ _
            (append-Satisfied a _ _
              (append-Satisfied a _ _ (append-Satisfied a _ _ g.bounds g.loads) g.rows) g.dynamics)
            g.terminal)
          g.buy)
        g.conserve
