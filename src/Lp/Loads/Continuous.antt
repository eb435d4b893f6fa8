-- ===== src/Lp/Loads/Continuous.antt =====
-- src/optimiser/lp/loads.py: the load that runs in blocks.
use energy_optimiser.Prelude.{
  ℕ, zero, suc, ◌-◌, ◌*◌, ◌/◌, Bool, true, Option, some, List, [], ◌∷◌, ◌++◌, ℤ, pos, length,
  if◌then◌else◌,
}
use energy_optimiser.Lp.Linear.{Expr, const, minus, times, Constraint, at_most, equals, lp_sum}
use energy_optimiser.Lp.Formulation.{LoadVars}
use energy_optimiser.Lp.Loads.{
  Horizon, RelayConfig, Calendar, RelayStatus, relay_at, min, is_auto, slot_state, signal_driven,
}

-- `range(t, t + block)`
abbrev pub block_from : Horizon → RelayConfig → ℕ → ℕ → List Expr
block_from h c t zero = []
block_from h c t (suc block) = relay_at h c t ∷ block_from h c (suc t) block

abbrev pub rise : Horizon → RelayConfig → ℕ → Expr
rise h c t = minus (relay_at h c (suc t)) (relay_at h c t)

abbrev pub fall : Horizon → RelayConfig → ℕ → Expr
fall h c t = minus (relay_at h c t) (relay_at h c (suc t))

-- The rows for the slots after `t`, of which there are `left`.
abbrev pub min_on_rows : Horizon → RelayConfig → ℕ → ℕ → ℕ → List Constraint
min_on_rows h c min_on t zero = []
min_on_rows h c min_on t (suc left) =
    let block = min min_on (suc left) in
    at_most (times block (rise h c t)) (lp_sum (block_from h c (suc t) block))
    ∷ min_on_rows h c min_on (suc t) left

abbrev pub min_off_rows : Horizon → RelayConfig → ℕ → ℕ → ℕ → List Constraint
min_off_rows h c min_off t zero = []
min_off_rows h c min_off t (suc left) =
    let block = min min_off (suc left) in
    at_most (lp_sum (block_from h c (suc t) block))
      (times block (minus (const (pos 1000)) (fall h c t)))
    ∷ min_off_rows h c min_off (suc t) left

-- The slots that the state observed now is carried over to, but for those with an override.
abbrev pub carried : Horizon → RelayConfig → Calendar → ℤ → ℕ → ℕ → List ℕ → List Constraint
carried h c calendar value t remaining [] = []
carried h c calendar value t zero (s ∷ slots) = []
carried h c calendar value t (suc remaining) (s ∷ slots) =
    (if is_auto (slot_state c calendar s) then equals (relay_at h c t) (const value) ∷ [] else [])
    ++ carried h c calendar value (suc t) remaining slots

abbrev pub carry_over :
    Horizon → RelayConfig → Calendar → ℕ → ℕ → Option Bool → Option ℕ → List ℕ → List Constraint
carry_over h c calendar min_on min_off (some state) (some since) (start ∷ slots) =
    let elapsed_slots = (start - since) / (h.slot_minutes * 60_000_000) in
    if state
    then carried h c calendar (pos 1000) 0 (min_on - elapsed_slots) (start ∷ slots)
    else carried h c calendar (pos 0) 0 (min_off - elapsed_slots) (start ∷ slots)
carry_over h c calendar min_on min_off _ _ _ = []

-- `BinarySignalDrivenContinuousLoad.add_to`
unfoldable pub continuous : Horizon → RelayConfig → Calendar → RelayStatus → ℕ → ℕ → LoadVars
continuous h c calendar status min_on min_off =
    let load = signal_driven h c calendar status true in
    record load {
      constraints =
          load.constraints
          ++ min_on_rows h c min_on 0 (length h.slots - 1)
          ++ min_off_rows h c min_off 0 (length h.slots - 1)
          ++ carry_over h c calendar min_on min_off status.relay_on status.relay_state_since
              h.slots;
    }
