-- ===== src/Sigenergy/State/Nulled.antt =====
-- Null over wrong: what `read_state` makes of the grid power and of the house load.
use energy_optimiser.Prelude.{
  ◌≡◌, ◌⊎◌, refl, Bool, true, false, Option, none, some, List, ℕ, ℤ, ◌≤ℤ◌, ◌<ℤ◌, scale,
}
use energy_optimiser.Sigenergy.{
  Reader, Quantity, Decoded, ReadReply, registers, read_refused, read_raised, read, read_words,
  missing, not_applicable, decoded, quantity, read_input_u16, read_input_s32, u16, s32,
}
use energy_optimiser.Sigenergy.Telemetry.{Bus, plant}
use energy_optimiser.Sigenergy.State.{
  SystemState, Critical, Required, is_online, or_zero, derived, absurd_below, required,
  read_critical,
}

-- The house load is the balance, if that is at least -0.1 kW.
abbrev pub Derived : Required → Option ℤ → Type 0
Derived q house =
    ((house ≡ none) × (derived q <ℤ absurd_below))
    ⊎ ((house ≡ some (derived q)) × (absurd_below ≤ℤ derived q))

abbrev pub Trusted : Required → ℤ → Option ℤ → Option ℤ → Type 0
Trusted q status grid house =
    ((is_online status ≡ false) × (grid ≡ none) × (house ≡ none))
    ⊎ ((is_online status ≡ true) × (grid ≡ some q.grid) × Derived q house)

-- A state that is made of the values q under a status of the sensor.
abbrev pub Reads : Required → ℤ → SystemState → Type 0
Reads q status s =
    (s.soc_pct ≡ scale 100 q.soc)
    × (s.battery_power_kw ≡ q.battery)
    × (s.pv_power_kw ≡ q.pv)
    × Trusted q status s.grid_power_kw s.house_load_kw

-- What a register says, whatever the state of the controller.
abbrev value_of : Decoded → ℕ → Option Quantity
value_of missing gain = none
value_of not_applicable gain = none
value_of (decoded x) gain = some (quantity x gain)

abbrev pub said : (List ℕ → Decoded) → ℕ → ReadReply → Option Quantity
said decode gain (registers words) = value_of (decode words) gain
said decode gain read_refused = none
said decode gain read_raised = none

read_words_lem :
    (critical : Bool) (gain : ℕ) (d : Decoded) (r : Reader)
    → (read_words critical gain d r).0 ≡ value_of d gain
read_words_lem critical gain missing r = refl
read_words_lem critical gain not_applicable r = refl
read_words_lem critical gain (decoded x) r = refl

read-said :
    (critical : Bool) (decode : List ℕ → Decoded) (gain : ℕ) (reply : ReadReply) (r : Reader)
    → (read critical decode gain reply r).0 ≡ said decode gain reply
unfolding read
read-said critical decode gain (registers words) r = read_words_lem critical gain (decode words) r
read-said critical decode gain read_refused r = refl
read-said critical decode gain read_raised r = refl

u16-said : (reply : ReadReply) (r : Reader) → (read_input_u16 reply r).0 ≡ said u16 1 reply
unfolding read_input_u16
u16-said = read-said true u16 1

s32-said : (reply : ReadReply) (r : Reader) → (read_input_s32 reply r).0 ≡ said s32 1000 reply
unfolding read_input_s32
s32-said = read-said true s32 1000

abbrev pub critical_of : Bus → Critical
critical_of b = record {
  ems_mode = said u16 1 (b plant 30003);
  grid_sensor_status = said u16 1 (b plant 30004);
  grid_kw = said s32 1000 (b plant 30005);
  soc = said u16 1 (b plant 30014);
  battery_kw = said s32 1000 (b plant 30037);
  pv_kw = said s32 1000 (b plant 30035);
}

pub read_critical_lem : (b : Bus) (r : Reader) → (read_critical b r).0 ≡ critical_of b
unfolding read_critical
read_critical_lem b r = simp (u16-said, s32-said)

-- The state comes of the critical registers.
abbrev pub ReadFrom : Critical → SystemState → Type 0
ReadFrom k s = (q : Required) × (required k ≡ some q) × Reads q (or_zero k.grid_sensor_status) s
