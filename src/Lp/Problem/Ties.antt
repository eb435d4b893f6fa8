-- ===== src/Lp/Problem/Ties.antt =====
-- What the constraints of the stochastic problem say of one scenario.
use text.Mathlib.Text.{◌==◌ as str_eq}
use energy_optimiser.Prelude.{
  ℕ, zero, suc, ◌≡◌, subst, false, some, List, [], ◌∷◌, get_elem?, if◌then◌else◌,
}
use energy_optimiser.Lp.Linear.{Assignment, Satisfied, Expr, value}
use energy_optimiser.Lp.Linear.Laws.{Satisfied-append}
use energy_optimiser.Lp.Formulation.{LoadVars}
use energy_optimiser.Lp.Problem.{
  Scenario, ties, tie_relays, tie_load, tie_loads, find_load, non_anticipativity, constraints_of,
}

module _ (a : Assignment) where
  pub ties-get :
      (base : Scenario) (ss : List Scenario) (i : ℕ) (s : Scenario)
      → Satisfied a (ties base ss)
      → get_elem? ss i ≡ some s
      → str_eq s.name base.name ≡ false
      → Satisfied a (non_anticipativity base s)
  ties-get base [] i s h e other = cc
  ties-get base (x ∷ ss) zero s h e other =
      let same : x ≡ s = cc in
      let apart : str_eq x.name base.name ≡ false = rw same other in
      let tied =
        Satisfied-append a (if str_eq x.name base.name then [] else non_anticipativity base x)
          (ties base ss) h in
      subst (λ y. Satisfied a (non_anticipativity base y)) same (rw apart at tied.0)
  ties-get base (x ∷ ss) (suc i) s h e other =
      ties-get base ss i s (Satisfied-append a _ (ties base ss) h).1 e other

  pub constraints_of-get :
      (ss : List Scenario) (i : ℕ) (s : Scenario)
      → Satisfied a (constraints_of ss)
      → get_elem? ss i ≡ some s
      → Satisfied a s.constraints
  constraints_of-get [] i s h e = cc
  constraints_of-get (x ∷ ss) zero s h e =
      let same : x ≡ s = cc in
      subst (λ y. Satisfied a y.constraints) same (Satisfied-append a x.constraints _ h).0
  constraints_of-get (x ∷ ss) (suc i) s h e =
      constraints_of-get ss i s (Satisfied-append a x.constraints _ h).1 e

  pub tie_relays-get :
      (xs ys : List Expr) (t : ℕ) (x y : Expr)
      → Satisfied a (tie_relays xs ys)
      → get_elem? xs t ≡ some x
      → get_elem? ys t ≡ some y
      → value a y ≡ value a x
  tie_relays-get [] ys t x y h ex ey = cc
  tie_relays-get (x' ∷ xs) [] t x y h ex ey = cc
  tie_relays-get (x' ∷ xs) (y' ∷ ys) zero x y h ex ey =
      let left : x' ≡ x = cc in let right : y' ≡ y = cc in rw (← left, ← right) h.0
  tie_relays-get (x' ∷ xs) (y' ∷ ys) (suc t) x y h ex ey = tie_relays-get xs ys t x y h.1 ex ey

  pub tie_loads-get :
      (loads other : List LoadVars) (i : ℕ) (load : LoadVars)
      → Satisfied a (tie_loads loads other)
      → get_elem? loads i ≡ some load
      → Satisfied a (tie_load load (find_load load.load_id other))
  tie_loads-get [] other i load h e = cc
  tie_loads-get (x ∷ loads) other zero load h e =
      let same : x ≡ load = cc in
      subst (λ y. Satisfied a (tie_load y (find_load y.load_id other))) same
        (Satisfied-append a (tie_load x (find_load x.load_id other)) _ h).0
  tie_loads-get (x ∷ loads) other (suc i) load h e =
      tie_loads-get loads other i load
        (Satisfied-append a (tie_load x (find_load x.load_id other)) _ h).1 e
