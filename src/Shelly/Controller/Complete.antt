-- ===== src/Shelly/Controller/Complete.antt =====
-- What the states of a cycle allow.
use energy_optimiser.Prelude.{
  ℕ, ◌≡◌, refl, Bool, false, Bool-cases, inl, inr, Option, none, some, List, [], ◌∷◌, ℤ, if_either,
  ap, subst, sym, ◌∙◌,
}
use energy_optimiser.Shelly.Types.{complete_today, shiftable, ManagedLoadConfig}
use energy_optimiser.Shelly.Cycle.{Cycle, update_cycle_state}
use energy_optimiser.Shelly.Controller.{
  Load, Poll, Outcome, apply_queued_stop, energy_read, relay_read, track_energy, track_relay,
  after_reads, nothing_done, update_cycle, status, start_cycle, set_relay,
}
use energy_optimiser.Shelly.Controller.Actions.{Action, poll, start, set, act, run}

-- A shiftable load that has completed its day.
pub record IsComplete (l : Load) : Type 0 where
  pub category : l.config.category ≡ shiftable
  pub state : l.cycle.state ≡ complete_today

update_complete :
    (config : ManagedLoadConfig) (energy : ℤ) (minutes : ℕ) (p : Poll) (c : Cycle)
    → config.category ≡ shiftable
    → c.state ≡ complete_today
    → update_cycle config energy minutes p c ≡ (c, [])
unfolding update_cycle_state
update_complete config energy minutes p c category state = rw (category, state) refl

apply_queued_stop-IsComplete : (l : Load) → IsComplete l → IsComplete (apply_queued_stop l).0
unfolding apply_queued_stop
apply_queued_stop-IsComplete l h =
    if_either (λ (r : Load × List Bool). IsComplete r.0) l.cycle.pending_relay_stop
      (record { category = h.category; state = h.state }) h

track_energy-IsComplete :
    (p : Poll) (energy : ℤ × ℤ) (l : Load) → IsComplete l → IsComplete (track_energy p energy l).0
unfolding track_energy
track_energy-IsComplete p (imp, ret) l h = record {
  category = h.category;
  state = ap (λ r. r.0.state) (update_complete l.config _ _ p l.cycle h.category h.state) ∙ h.state;
}

module _ (local_date : ℕ → ℕ) where
  after_reads-IsComplete :
      (p : Poll) (energy : Option (ℤ × ℤ)) (relay_on : Option Bool) (l : Load)
      → IsComplete l
      → IsComplete (after_reads local_date p energy relay_on l).0
  unfolding track_relay
  after_reads-IsComplete p none relay_on l h = h
  after_reads-IsComplete p (some energy) none l h = track_energy-IsComplete p energy l h
  after_reads-IsComplete p (some energy) (some on) l h =
      let k = track_energy-IsComplete p energy l h in
      record { category = k.category; state = k.state }

  start_refused :
      (acknowledged : Bool) (now : ℕ) (l : Load)
      → IsComplete l
      → start_cycle acknowledged now l ≡ (nothing_done l, false)
  unfolding start_cycle
  start_refused acknowledged now l h = elim (Bool-cases l.config.has_relay) [
    | inl wired ↦ simp (wired, h.state)
    | inr bare ↦ simp bare
  ]

  act-IsComplete : (a : Action) (l : Load) → IsComplete l → IsComplete (act local_date a l).load
  unfolding status set_relay
  act-IsComplete (poll p) l h =
      after_reads-IsComplete p (energy_read p) (relay_read l.config p) (apply_queued_stop l).0
        (apply_queued_stop-IsComplete l h)
  act-IsComplete (start acknowledged now) l h =
      subst (λ r. IsComplete r.0.load) (sym (start_refused acknowledged now l h)) h
  act-IsComplete (set acknowledged on) l h =
      if_either (λ (r : Outcome × Bool). IsComplete r.0.load) l.config.has_relay h h

  run-IsComplete :
      (actions : List Action) (l : Load) → IsComplete l → IsComplete (run local_date actions l).load
  run-IsComplete [] l h = h
  run-IsComplete (a ∷ actions) l h =
      run-IsComplete actions (act local_date a l).load (act-IsComplete a l h)

  -- A shiftable load that has completed its day stays complete whatever happens next, also over
  -- midnight, and from then on every start of a cycle is refused without a call of the device.
  pub complete_for_good :
      (actions : List Action) (l : Load) (acknowledged : Bool) (now : ℕ)
      → l.config.category ≡ shiftable
      → l.cycle.state ≡ complete_today
      → let after = (run local_date actions l).load in
        (after.cycle.state ≡ complete_today)
        × (start_cycle acknowledged now after ≡ (nothing_done after, false))
  complete_for_good actions l acknowledged now category state =
      let h = run-IsComplete actions l (record { category = category; state = state }) in
      (h.state, start_refused acknowledged now _ h)
