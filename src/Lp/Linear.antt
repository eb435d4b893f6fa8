-- ===== src/Lp/Linear.antt =====
-- src/optimiser/lp/formulation.py: the expressions that the formulation builds. PuLP itself is not
-- modelled: an expression is kept as it is written, and a constraint has the meaning that PuLP
-- documents. A variable is named by the scenario's prefix, its column and its slot. Values are in
-- thousandths of their units.
pub mod Laws
use Prim.Native.String.{String}
use energy_optimiser.Prelude.{
  ℕ, zero, suc, ◌≡◌, List, [], ◌∷◌, ◌++◌, ℤ, pos, ◌+ℤ◌, ◌-ℤ◌, ◌≤ℤ◌, scale, floor_div, ◌⊎◌, All,
}

pub data Column : Type 0 where
  bat_charge_grid bat_charge_pv bat_discharge : Column
  grid_import grid_export : Column
  pv_to_house pv_to_battery pv_to_export pv_curtailed : Column
  soc_pct soc_over_ceiling soc_terminal_slack : Column
  relay : String → Column

-- `fraction k x` is k / 1000 times x.
pub data Expr : Type 0 where
  var : String → Column → ℕ → Expr
  const : ℤ → Expr
  plus minus : Expr → Expr → Expr
  times : ℕ → Expr → Expr
  fraction : ℕ → Expr → Expr

-- `left <= right` and `left == right`, and a variable declared as `LpBinary`.
pub data Constraint : Type 0 where
  at_most equals : Expr → Expr → Constraint
  binary : Expr → Constraint

-- What a solver returns for the variables.
abbrev pub Assignment : Type 0
Assignment = String → Column → ℕ → ℤ

abbrev pub value : Assignment → Expr → ℤ
value a (var prefix column t) = a prefix column t
value a (const x) = x
value a (plus x y) = value a x +ℤ value a y
value a (minus x y) = value a x -ℤ value a y
value a (times k x) = scale k (value a x)
value a (fraction k x) = floor_div (scale k (value a x)) 1000

abbrev pub Holds : Assignment → Constraint → Type 0
Holds a (at_most x y) = value a x ≤ℤ value a y
Holds a (equals x y) = value a x ≡ value a y
Holds a (binary x) = value a x ≡ pos 0 ⊎ value a x ≡ pos 1000

abbrev pub Satisfied : Assignment → List Constraint → Type 0
Satisfied a = All (Holds a)

-- `pulp.lpSum`
abbrev pub lp_sum : List Expr → Expr
lp_sum [] = const (pos 0)
lp_sum (x ∷ xs) = plus x (lp_sum xs)

-- `for t in range(n)`, from `t` on, over what belongs to each slot.
module _ {ℓ} {A : Type ℓ} where
  abbrev pub for_slots : ℕ → List A → (ℕ → A → List Constraint) → List Constraint
  for_slots t [] body = []
  for_slots t (s ∷ slots) body = body t s ++ for_slots (suc t) slots body
