-- ===== src/Lp/Formulation.antt =====
-- src/optimiser/lp/formulation.py: the constraints of one scenario. Powers are in watts, states of
-- charge in thousandths of a percent, the capacity in watt hours, the efficiency in thousandths;
-- the dynamics are multiplied out. What a load contributes (`LPLoad.add_to`) is an
-- argument. The cost terms are left out.
pub mod Parts
pub mod Safety
pub mod Energy
pub mod Idle
use Prim.Native.String.{String}
use energy_optimiser.Prelude.{
  ℕ, zero, suc, ◌+◌, ◌-◌, ◌*◌, Bool, true, false, ◌&&◌, Option, none, some, List, [], ◌∷◌, ◌++◌,
  map, ℤ, pos, ◌+ℤ◌, max_ℤ, min_ℤ, ltb_ℤ, if◌then◌else◌, length, get_elem?,
}
use energy_optimiser.Lp.Linear.{
  Column, bat_charge_grid, bat_charge_pv, bat_discharge, grid_import, grid_export, pv_to_house,
  pv_to_battery, pv_to_export, pv_curtailed, soc_pct, soc_over_ceiling, soc_terminal_slack, Expr,
  var, const, plus, minus, times, Constraint, at_most, equals, lp_sum, for_slots,
}

-- The fields of `BatteryConfig` that the formulation reads.
pub record BatteryConfig : Type 0 where
  pub capacity_kwh : ℕ
  pub soc_floor_pct : ℤ
  pub soc_ceiling_pct : ℤ
  pub discharge_cutoff_pct : ℤ
  pub backup_soc_pct : ℤ
  pub max_ac_charge_kw : ℤ
  pub max_dc_charge_kw : ℤ
  pub max_discharge_kw : ℤ
  pub round_trip_efficiency : ℕ
  pub export_limit_kw : ℤ

-- `LoadVars`: the power by slot and the relay's variables, with the constraints that the load adds.
pub record LoadVars : Type 0 where
  pub load_id : String
  pub power_kw : ℕ → Expr
  pub relay : Option (List Expr)
  pub constraints : List Constraint

-- What the scenario knows of a slot: its PV and its house load, its prices, and the modes in it.
pub record Slot : Type 0 where
  pub pv_avail : ℤ
  pub house_base : ℤ
  pub import_price : ℤ
  pub export_price : ℤ
  pub buy_active : Bool
  pub conserve_active : Bool

-- What all its slots share. A limit of a mode is none if the mode has none.
pub record Setting : Type 0 where
  pub prefix : String
  pub battery : BatteryConfig
  pub state_soc_pct : ℤ
  pub slot_minutes : ℕ
  pub terminal_floor_table : ℤ
  pub loads : List LoadVars
  pub buy_ceiling : Option ℤ
  pub buy_soc_cutoff : Option ℤ
  pub conserve_floor : Option ℤ

abbrev pub configured_floor : BatteryConfig → ℤ
configured_floor b = max_ℤ (max_ℤ b.soc_floor_pct b.backup_soc_pct) b.discharge_cutoff_pct

abbrev pub effective_floor : Setting → ℤ
effective_floor c = min_ℤ c.state_soc_pct (configured_floor c.battery)

abbrev pub terminal_floor : Setting → ℤ
terminal_floor c = max_ℤ (configured_floor c.battery) c.terminal_floor_table

abbrev pub var_at : Setting → Column → ℕ → Expr
var_at c column t = var c.prefix column t

abbrev pub between : ℤ → ℤ → Expr → List Constraint
between low high x = at_most (const low) x ∷ at_most x (const high) ∷ []

abbrev pub load_total : Setting → ℕ → Expr
load_total c t = lp_sum (map (λ load. load.power_kw t) c.loads)

-- The bounds that the variables of a slot are declared with.
unfoldable pub variable_bounds : Setting → ℕ → Slot → List Constraint
variable_bounds c t s =
    between (pos 0) c.battery.max_ac_charge_kw (var_at c bat_charge_grid t)
    ++ between (pos 0) c.battery.max_dc_charge_kw (var_at c bat_charge_pv t)
    ++ between (pos 0) c.battery.max_discharge_kw (var_at c bat_discharge t)
    ++ between (pos 0) (c.battery.max_ac_charge_kw +ℤ pos 20_000) (var_at c grid_import t)
    ++ between (pos 0) c.battery.export_limit_kw (var_at c grid_export t)
    ++ between (pos 0) s.pv_avail (var_at c pv_to_house t)
    ++ between (pos 0) s.pv_avail (var_at c pv_to_battery t)
    ++ between (pos 0) s.pv_avail (var_at c pv_to_export t)
    ++ between (pos 0) s.pv_avail (var_at c pv_curtailed t)
    ++ between (pos 0) (pos 100_000) (var_at c soc_pct t)
    ++ (at_most (const (pos 0)) (var_at c soc_over_ceiling t) ∷ [])

unfoldable pub slot_constraints : Setting → ℕ → Slot → List Constraint
slot_constraints c t s =
    let house = plus (const s.house_base) (load_total c t) in
    equals
      (plus
        (plus (plus (var_at c pv_to_house t) (var_at c pv_to_battery t)) (var_at c pv_to_export t))
        (var_at c pv_curtailed t))
      (const s.pv_avail)
    ∷ equals (var_at c bat_charge_pv t) (var_at c pv_to_battery t)
    ∷ equals
        (plus (plus (minus (const s.pv_avail) (var_at c pv_curtailed t)) (var_at c bat_discharge t))
          (var_at c grid_import t))
        (plus (plus (plus house (var_at c bat_charge_grid t)) (var_at c bat_charge_pv t))
          (var_at c grid_export t))
    ∷ at_most (var_at c bat_charge_grid t) (var_at c grid_import t)
    ∷ at_most (var_at c pv_to_house t) house
    ∷ at_most (var_at c pv_to_export t) (var_at c grid_export t)
    ∷ at_most (var_at c soc_pct t)
        (plus (const c.battery.soc_ceiling_pct) (var_at c soc_over_ceiling t))
    ∷ at_most (const (effective_floor c)) (var_at c soc_pct t)
    ∷ []

abbrev pub previous_soc : Setting → ℕ → Expr
previous_soc c zero = const c.state_soc_pct
previous_soc c (suc t) = var_at c soc_pct t

-- `soc_pct[t] == prev + delta_pct`, times 60 times the capacity.
unfoldable pub soc_dynamics : Setting → ℕ → Slot → List Constraint
soc_dynamics c t s =
    equals
      (plus (times (60 * c.battery.capacity_kwh) (var_at c soc_pct t))
        (times (100_000 * c.slot_minutes) (var_at c bat_discharge t)))
      (plus (times (60 * c.battery.capacity_kwh) (previous_soc c t)) (
        times (100 * c.slot_minutes * c.battery.round_trip_efficiency)
          (plus (var_at c bat_charge_grid t) (var_at c bat_charge_pv t))))
    ∷ []

unfoldable pub terminal_soc : Setting → ℕ → List Constraint
terminal_soc c last =
    at_most (const (pos 0)) (var_at c soc_terminal_slack 0)
    ∷ at_most (minus (const (terminal_floor c)) (var_at c soc_terminal_slack 0))
        (var_at c soc_pct last)
    ∷ []

-- `limit is not None and price > limit`, and the same with `<`.
abbrev pub exceeds : ℤ → Option ℤ → Bool
exceeds price none = false
exceeds price (some limit) = ltb_ℤ limit price

abbrev pub undercuts : ℤ → Option ℤ → Bool
undercuts price none = false
undercuts price (some limit) = ltb_ℤ price limit

abbrev pub cutoff_constraint : Setting → ℕ → Option ℤ → List Constraint
cutoff_constraint c t none = []
cutoff_constraint c t (some cutoff) = at_most (var_at c soc_pct t) (const cutoff) ∷ []

abbrev pub when : Bool → List Constraint → List Constraint
when true cs = cs
when false cs = []

unfoldable pub buy_constraints : Setting → ℕ → Slot → List Constraint
buy_constraints c t s = when s.buy_active (
    when (exceeds s.import_price c.buy_ceiling)
      (equals (var_at c bat_charge_grid t) (const (pos 0)) ∷ [])
    ++ (at_most (var_at c grid_export t) (var_at c pv_to_export t) ∷ [])
    ++ cutoff_constraint c t c.buy_soc_cutoff)

unfoldable pub conserve_constraints : Setting → ℕ → Slot → List Constraint
conserve_constraints c t s =
    when (s.conserve_active && undercuts s.export_price c.conserve_floor)
      (equals (var_at c grid_export t) (const (pos 0)) ∷ [])

abbrev pub load_constraints : List LoadVars → List Constraint
load_constraints [] = []
load_constraints (load ∷ loads) = load.constraints ++ load_constraints loads

-- The constraints that `_add_scenario_to_problem` adds, for at least one slot.
unfoldable pub add_scenario : Setting → List Slot → List Constraint
add_scenario c slots =
    for_slots 0 slots (variable_bounds c)
    ++ load_constraints c.loads
    ++ for_slots 0 slots (slot_constraints c)
    ++ for_slots 0 slots (soc_dynamics c)
    ++ terminal_soc c (length slots - 1)
    ++ for_slots 0 slots (buy_constraints c)
    ++ for_slots 0 slots (conserve_constraints c)
