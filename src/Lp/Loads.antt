-- ===== src/Lp/Loads.antt =====
-- src/optimiser/lp/loads.py: the relay of a load in the linear program. A relay is 0 or 1000, or
-- between them in a slot that is relaxed. Zone conversions are arguments: the local date of an
-- instant, and for each day from today on its midnight and its deadline in UTC.
pub mod Continuous
pub mod Blocks
pub mod Carried
use Prim.Native.String.{String}
use energy_optimiser.Prelude.{
  ℕ, zero, suc, ◌+◌, ◌-◌, ◌*◌, ◌/◌, leb, ltb, Bool, true, false, ◌&&◌, ◌||◌, Option, none, some,
  List, [], ◌∷◌, ◌++◌, map, ℤ, pos, pos_part, ltb_ℤ, length, if◌then◌else◌,
}
use energy_optimiser.Lp.Linear.{
  Column, relay, Expr, var, const, plus, minus, times, fraction, Constraint, at_most, equals,
  binary, lp_sum, for_slots,
}
use energy_optimiser.Lp.Formulation.{LoadVars, between}

pub data SlotState : Type 0 where
  auto off on : SlotState

-- The fields of `ManagedLoadConfig` that a relay load reads; a date without an entry is auto.
pub record RelayConfig : Type 0 where
  pub load_id : String
  pub draw_kw : ℕ
  pub daily_target_kwh : Option ℕ
  pub daily_run_minutes : Option ℕ
  pub schedule_overrides : ℕ → SlotState

-- The calendar of the zone, for the day of the first slot and those after it.
pub record Calendar : Type 0 where
  pub local_date : ℕ → ℕ
  pub date : ℕ → ℕ
  pub midnight : ℕ → ℕ
  pub deadline : ℕ → ℕ

-- The fields of `ManagedLoadStatus` that a relay load reads; the minutes are microseconds.
pub record RelayStatus : Type 0 where
  pub relay_on_minutes_today : Option ℕ
  pub energy_today_kwh : ℤ
  pub relay_on : Option Bool
  pub relay_state_since : Option ℕ

-- What the horizon is and where the variables go.
pub record Horizon : Type 0 where
  pub prefix : String
  pub slot_minutes : ℕ
  pub slots : List ℕ

abbrev pub relay_at : Horizon → RelayConfig → ℕ → Expr
relay_at h c t = var h.prefix (relay c.load_id) t

abbrev pub slot_state : RelayConfig → Calendar → ℕ → SlotState
slot_state c calendar t = c.schedule_overrides (calendar.local_date t)

-- The target of a day, what a slot adds to it, and what today has already: microseconds of
-- relay-on time, or watt minutes.
pub record Target : Type 0 where
  pub target : ℕ
  pub unit_per_slot : ℕ
  pub already_today : ℕ

abbrev pub or_zero : Option ℕ → ℕ
or_zero none = 0
or_zero (some n) = n

abbrev pub target_of : RelayConfig → RelayStatus → ℕ → Target
target_of c status slot_minutes = elim c.daily_run_minutes [
  | some run_minutes ↦ record {
    target = run_minutes * 60_000_000;
    unit_per_slot = slot_minutes * 60_000_000;
    already_today = or_zero status.relay_on_minutes_today;
  }
  | none ↦ record {
    target = or_zero c.daily_target_kwh * 60;
    unit_per_slot = slot_minutes * c.draw_kw;
    already_today = pos_part status.energy_today_kwh * 60;
  }
]

-- Slot 0 is binary; the later ones are relaxed, but for a load that forces them.
abbrev pub relay_variable : Horizon → RelayConfig → Bool → ℕ → ℕ → List Constraint
relay_variable h c force zero s = binary (relay_at h c 0) ∷ []
relay_variable h c true (suc t) s = binary (relay_at h c (suc t)) ∷ []
relay_variable h c false (suc t) s = between (pos 0) (pos 1000) (relay_at h c (suc t))

abbrev pub bind_state : Expr → SlotState → List Constraint
bind_state x auto = []
bind_state x off = equals x (const (pos 0)) ∷ []
bind_state x on = equals x (const (pos 1000)) ∷ []

abbrev pub schedule : Horizon → RelayConfig → Calendar → ℕ → ℕ → List Constraint
schedule h c calendar t s = bind_state (relay_at h c t) (slot_state c calendar s)

abbrev pub max : ℕ → ℕ → ℕ
max a b = if leb a b then b else a

abbrev pub min : ℕ → ℕ → ℕ
min a b = if leb a b then a else b

-- The relays of the slots in a window.
abbrev pub in_window : Horizon → RelayConfig → ℕ → ℕ → ℕ → List ℕ → List Expr
in_window h c start end t [] = []
in_window h c start end t (s ∷ slots) =
    let rest = in_window h c start end (suc t) slots in
    if leb start s && ltb s end then relay_at h c t ∷ rest else rest

abbrev pub horizon_end : ℕ → ℕ → List ℕ → ℕ
horizon_end slot_minutes first [] = first + slot_minutes * 60_000_000
horizon_end slot_minutes first (s ∷ slots) = horizon_end slot_minutes s slots

-- What is asked of a day, with what was rolled forward to it: at most twice the target.
abbrev pub day_target : Target → ℕ → ℕ → ℕ
day_target g zero rolled = g.target - g.already_today
day_target g (suc day) rolled = min (g.target + rolled) (2 * g.target)

-- A day whose window cannot hold what is asked passes it on.
abbrev pub ask_of : Target → List Expr → ℕ → List Constraint × ℕ
ask_of g window zero = ([], 0)
ask_of g window (suc asked) =
    if ltb 0 (length window) && leb (suc asked) (length window * g.unit_per_slot)
    then (at_most (const (pos (1000 * suc asked))) (times g.unit_per_slot (lp_sum window)) ∷ [], 0)
    else ([], suc asked)

abbrev pub is_auto : SlotState → Bool
is_auto auto = true
is_auto off = false
is_auto on = false

abbrev pub window_of : Horizon → RelayConfig → Calendar → ℕ → ℕ → List Expr
window_of h c calendar start day =
    in_window h c (max (calendar.midnight day) start)
      (min (calendar.deadline day) (horizon_end h.slot_minutes start h.slots)) 0 h.slots

-- The days from `day` on: a day with an override asks for nothing and forgives what was rolled.
abbrev pub daily_targets :
    Horizon → RelayConfig → Calendar → Target → ℕ → ℕ → ℕ → ℕ → List Constraint
daily_targets h c calendar g start day rolled zero = []
daily_targets h c calendar g start day rolled (suc days) =
    let (asked, rest) =
      if is_auto (c.schedule_overrides (calendar.date day))
      then ask_of g (window_of h c calendar start day) (day_target g day rolled)
      else ([], 0) in
    asked ++ daily_targets h c calendar g start (suc day) rest days

abbrev pub targets_from : Horizon → RelayConfig → Calendar → Target → List ℕ → List Constraint
targets_from h c calendar g [] = []
targets_from h c calendar g (start ∷ slots) =
    if ltb 0 g.target && ltb 0 g.unit_per_slot then daily_targets h c calendar g start 0 0 3 else []

abbrev pub relays : Horizon → RelayConfig → ℕ → List ℕ → List Expr
relays h c t [] = []
relays h c t (s ∷ slots) = relay_at h c t ∷ relays h c (suc t) slots

-- `BinarySignalDrivenLoad.add_to`, with whether every relay is forced to be binary.
unfoldable pub signal_driven : Horizon → RelayConfig → Calendar → RelayStatus → Bool → LoadVars
signal_driven h c calendar status force = record {
  load_id = c.load_id;
  power_kw = λ t. fraction c.draw_kw (relay_at h c t);
  relay = some (relays h c 0 h.slots);
  constraints =
      for_slots 0 h.slots (relay_variable h c force)
      ++ for_slots 0 h.slots (schedule h c calendar)
      ++ targets_from h c calendar (target_of c status h.slot_minutes) h.slots;
}

-- `extract_command`: what slot 0 decides, for the solver's value of its relay.
unfoldable pub desired_relay_on : ℤ → Bool
desired_relay_on value = ltb_ℤ (pos 500) value
