-- ===== src/Tests/Solved.antt =====
-- A solution of constraints is checked by computing them.
use energy_optimiser.Prelude.{
  ℤ, pos, leb_ℤ, Bool, true, ◌&&◌, ◌||◌, ◌≡◌, List, [], ◌∷◌, arith, Bool-cases, inl, inr,
  eq_of_parts,
}
use energy_optimiser.Lp.Linear.{Assignment, Constraint, at_most, equals, binary, Satisfied, value}

abbrev pub is? : ℤ → ℤ → Bool
is? x y = leb_ℤ x y && leb_ℤ y x

abbrev pub holds? : Assignment → Constraint → Bool
holds? a (at_most x y) = leb_ℤ (value a x) (value a y)
holds? a (equals x y) = leb_ℤ (value a x) (value a y) && leb_ℤ (value a y) (value a x)
holds? a (binary x) = is? (value a x) (pos 0) || is? (value a x) (pos 1000)

abbrev pub satisfied? : Assignment → List Constraint → Bool
satisfied? a [] = true
satisfied? a (x ∷ xs) = holds? a x && satisfied? a xs

pub satisfied : (a : Assignment) (xs : List Constraint) → satisfied? a xs ≡ true → Satisfied a xs
satisfied a [] h = tt
satisfied a (at_most x y ∷ xs) h = (ground (arith, h), satisfied a xs (ground (arith, h)))
satisfied a (equals x y ∷ xs) h =
    (eq_of_parts (value a x) (value a y) (ground (arith, h)), satisfied a xs (ground (arith, h)))
satisfied a (binary x ∷ xs) h = (
  elim (Bool-cases (is? (value a x) (pos 0))) [
    | inl off ↦ inl (eq_of_parts (value a x) (pos 0) (ground (arith, off)))
    | inr other ↦ inr (eq_of_parts (value a x) (pos 1000) (ground (arith, h, other)))
  ],
  satisfied a xs (ground (arith, h)),
)
