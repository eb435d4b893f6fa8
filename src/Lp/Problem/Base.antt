-- ===== src/Lp/Problem/Base.antt =====
-- The base scenario: `max(..., key=weight)` takes the first of the heaviest.
use energy_optimiser.Prelude.{
  ◌≤◌, ◌<◌, ◌≡◌, refl, sym, subst, true, false, Bool-cases, ◌⊎◌, inl, inr, ltb, List, [], ◌∷◌, All,
  arith,
}
use energy_optimiser.Lp.Problem.{Scenario, heaviest}

-- The first of the heaviest: those before it are lighter, those after it are not heavier.
abbrev pub IsHeaviest : Scenario → List Scenario → Type 0
IsHeaviest h [] = ⊥
IsHeaviest h (s ∷ ss) =
    (s ≡ h) × All (λ t. t.weight ≤ h.weight) ss ⊎ (s.weight < h.weight) × IsHeaviest h ss

heaviest_heavier :
    (best s : Scenario) (ss : List Scenario)
    → ltb best.weight s.weight ≡ true
    → heaviest best (s ∷ ss) ≡ heaviest s ss
unfolding heaviest
heaviest_heavier best s ss e = rw e refl

heaviest_lighter :
    (best s : Scenario) (ss : List Scenario)
    → ltb best.weight s.weight ≡ false
    → heaviest best (s ∷ ss) ≡ heaviest best ss
unfolding heaviest
heaviest_lighter best s ss e = rw e refl

heaviest_bound : (best : Scenario) (ss : List Scenario) → best.weight ≤ (heaviest best ss).weight
unfolding heaviest
heaviest_bound best [] = omega arith
heaviest_bound best (s ∷ ss) = elim (Bool-cases (ltb best.weight s.weight)) [
  | inl heavier ↦
      rw (heaviest_heavier best s ss heavier) (ground (arith, heavier, heaviest_bound s ss))
  | inr lighter ↦ rw (heaviest_lighter best s ss lighter) (heaviest_bound best ss)
]

-- A scenario that is not heavier goes behind the best so far.
behind :
    (h best s : Scenario) (ss : List Scenario)
    → s.weight ≤ best.weight
    → IsHeaviest h (best ∷ ss)
    → IsHeaviest h (best ∷ s ∷ ss)
behind h best s ss le (inl (same, rest)) = inl (same, (rw (← same) le, rest))
behind h best s ss le (inr (lt, rest)) = inr (lt, inr (omega arith, rest))

-- The base scenario is the first of the heaviest.
pub heaviest-IsHeaviest :
    (best : Scenario) (ss : List Scenario) → IsHeaviest (heaviest best ss) (best ∷ ss)
unfolding heaviest
heaviest-IsHeaviest best [] = inl (refl, tt)
heaviest-IsHeaviest best (s ∷ ss) = elim (Bool-cases (ltb best.weight s.weight)) [
  | inl heavier ↦
      subst (λ h. IsHeaviest h (best ∷ s ∷ ss)) (sym (heaviest_heavier best s ss heavier))
        (inr (ground (arith, heavier, heaviest_bound s ss), heaviest-IsHeaviest s ss))
  | inr lighter ↦
      subst (λ h. IsHeaviest h (best ∷ s ∷ ss)) (sym (heaviest_lighter best s ss lighter))
        (behind (heaviest best ss) best s ss (ground (arith, lighter))
          (heaviest-IsHeaviest best ss))
]
