-- ===== src/Sigenergy/State.antt =====
-- src/optimiser/clients/sigenergy.py: `read_state`, connecting and reconnecting, and the probe of
-- the PV power. The read helpers catch every exception, so the handler of `read_state` itself is
-- never reached. The helpers' own events are left out, and the latency in the batch event. The
-- latency of a reconnection is an argument, as is the client's answer to it.
pub mod Nulled
pub mod Warned
use energy_optimiser.Prelude.{
  ℕ, ◌+◌, ◌-◌, ◌==◌, Bool, true, false, ◌&&◌, Option, none, some, or_else, List, [], ◌∷◌, ◌++◌, ℤ,
  pos, negsuc, ◌+ℤ◌, ◌-ℤ◌, neg, max_ℤ, ltb_ℤ, leb_ℤ, scale, if◌then◌else◌,
}
use energy_optimiser.Watchdog.Client.{Reply, acknowledged, refused, raised}
use energy_optimiser.Sigenergy.{Reader, Quantity, read_input_u16, read_input_s32, read_input_u32}
use energy_optimiser.Sigenergy.Telemetry.{Bus, plant, Extended, read_extended_telemetry}

-- The fields of the controller that reading and connecting use.
pub record SigenergyController : Type 0 where
  pub reader : Reader
  pub grid_sensor_status : ℤ
  pub warned_grid_sensor_offline : Bool
  pub warned_absurd_derivation : Bool
  pub reconnect_attempts : ℕ
  pub last_reconnect_ms : Option ℕ

pub record SystemState : Type 0 where
  pub soc_pct : ℤ
  pub battery_power_kw : ℤ
  pub pv_power_kw : ℤ
  pub grid_power_kw : Option ℤ
  pub house_load_kw : Option ℤ
  pub ems_mode : ℤ
  pub outdoor_temp_c : Option ℤ
  pub occupied : Bool
  pub extended : Extended

pub data Event : Type 0 where
  modbus_reconnected : ℕ → Option ℕ → Event
  grid_sensor_offline : ℤ → Event
  negative_house_load : ℤ → ℤ → ℤ → ℤ → Event
  modbus_read_batch : ℕ → ℕ → Bool → Bool → Event

-- What an operation returns, leaves and emits.
abbrev pub Outcome {ℓ} : Type ℓ → Type ℓ
Outcome A = A × SigenergyController × List Event

abbrev pub with_connected : Bool → SigenergyController → SigenergyController
with_connected b c = record c {
  reader = record {
    connected = b;
    reads_total = c.reader.reads_total;
    reads_failed = c.reader.reads_failed;
  };
}

unfoldable pub mark_connected : SigenergyController → SigenergyController × List Event
mark_connected c = (
  with_connected true c,
  if c.reader.connected
      then []
      else modbus_reconnected c.reconnect_attempts c.last_reconnect_ms ∷ [],
)

unfoldable pub connect : Reply → SigenergyController → Outcome Bool
connect acknowledged c = let (c', events) = mark_connected c in (true, c', events)
connect refused c = (false, with_connected false c, [])
connect raised c = (false, with_connected false c, [])

abbrev one_more_attempt : SigenergyController → SigenergyController
one_more_attempt c = record c { reconnect_attempts = c.reconnect_attempts + 1 }

abbrev reconnected_in : ℕ → SigenergyController → SigenergyController
reconnected_in ms c = record c { last_reconnect_ms = some ms }

unfoldable pub attempt_reconnect : Reply → ℕ → SigenergyController → Outcome Bool
attempt_reconnect acknowledged ms c =
    let (c', events) = mark_connected (reconnected_in ms (one_more_attempt c)) in (true, c', events)
attempt_reconnect refused ms c = (false, with_connected false (one_more_attempt c), [])
attempt_reconnect raised ms c = (false, with_connected false (one_more_attempt c), [])

-- The six registers of the critical path.
pub record Critical : Type 0 where
  pub ems_mode : Option Quantity
  pub grid_sensor_status : Option Quantity
  pub grid_kw : Option Quantity
  pub soc : Option Quantity
  pub battery_kw : Option Quantity
  pub pv_kw : Option Quantity

unfoldable pub read_critical : Bus → Reader → Critical × Reader
read_critical b r =
    let (ems_mode, r₁) = read_input_u16 (b plant 30003) r in
    let (status, r₂) = read_input_u16 (b plant 30004) r₁ in
    let (grid, r₃) = read_input_s32 (b plant 30005) r₂ in
    let (soc, r₄) = read_input_u16 (b plant 30014) r₃ in
    let (battery, r₅) = read_input_s32 (b plant 30037) r₄ in
    let (pv, r₆) = read_input_s32 (b plant 30035) r₅ in
    (
      record {
        ems_mode = ems_mode;
        grid_sensor_status = status;
        grid_kw = grid;
        soc = soc;
        battery_kw = battery;
        pv_kw = pv;
      },
      r₆,
    )

-- `value or 0`
abbrev pub or_zero : Option Quantity → ℤ
or_zero none = pos 0
or_zero (some q) = q.raw

-- `status == 1`
abbrev pub is_online : ℤ → Bool
is_online (pos n) = n == 1
is_online (negsuc n) = false

-- The values without which there is no state: the charge in tenths of a percent, the powers in
-- thousandths of a kW.
pub record Required : Type 0 where
  pub soc : ℤ
  pub grid : ℤ
  pub battery : ℤ
  pub pv : ℤ

abbrev pub required_of :
    Option Quantity → Option Quantity → Option Quantity → Option Quantity → Option Required
required_of (some soc) (some grid) (some battery) (some pv) =
    some (record { soc = soc.raw; grid = grid.raw; battery = battery.raw; pv = pv.raw })
required_of _ _ _ _ = none

unfoldable pub required : Critical → Option Required
required k = required_of k.soc k.grid_kw k.battery_kw k.pv_kw

-- `pv_kw + grid_kw - battery_kw`
abbrev pub derived : Required → ℤ
derived q = (q.pv +ℤ q.grid) -ℤ q.battery

-- -0.1 kW
abbrev pub absurd_below : ℤ
absurd_below = negsuc 99

-- The house load under a working grid sensor.
unfoldable pub house_load : Required → SigenergyController → Outcome (Option ℤ)
house_load q c =
    if ltb_ℤ (derived q) absurd_below
    then (
      none,
      record c { warned_absurd_derivation = true },
      if c.warned_absurd_derivation
          then []
          else negative_house_load (derived q) q.pv q.grid q.battery ∷ [],
    )
    else (some (derived q), record c { warned_absurd_derivation = false }, [])

-- The grid power and the house load.
unfoldable pub grid_and_house : Required → SigenergyController → Outcome (Option ℤ × Option ℤ)
grid_and_house q c =
    if is_online c.grid_sensor_status
    then (let (house, c', events) =
          house_load q (record c { warned_grid_sensor_offline = false }) in
        ((some q.grid, house), c', events))
    else (
      (none, none),
      record c { warned_grid_sensor_offline = true },
      if c.warned_grid_sensor_offline then [] else grid_sensor_offline c.grid_sensor_status ∷ [],
    )

module _ (b : Bus) (outdoor_temp_c : Option ℤ) (occupied : Bool) where
  unfoldable pub state_from :
      ℤ → Option Required → SigenergyController → Outcome (Option SystemState)
  state_from ems_mode none c = (none, c, [])
  state_from ems_mode (some q) c =
      let ((grid, house), c', events) = grid_and_house q c in
      let (extended, r) = read_extended_telemetry b c'.reader in
      (
        some (record {
          soc_pct = scale 100 q.soc;
          battery_power_kw = q.battery;
          pv_power_kw = q.pv;
          grid_power_kw = grid;
          house_load_kw = house;
          ems_mode = ems_mode;
          outdoor_temp_c = outdoor_temp_c;
          occupied = occupied;
          extended = extended;
        }),
        record c' { reader = r },
        events,
      )

  -- The body under a connection.
  unfoldable pub read_connected : SigenergyController → Outcome (Option SystemState)
  read_connected c =
      let (k, r) = read_critical b c.reader in
      state_from (or_zero k.ems_mode) (required k)
        (record c { reader = r; grid_sensor_status = or_zero k.grid_sensor_status })

-- The `finally` clause: the counts since the start of the call.
abbrev pub finish {ℓ} : {A : Type ℓ} → SigenergyController → Bool → Outcome A → Outcome A
finish before reconnected (a, c, events) = (
  a,
  c,
  events
      ++ modbus_read_batch (c.reader.reads_total - before.reader.reads_total)
          (c.reader.reads_failed - before.reader.reads_failed) reconnected
          (is_online c.grid_sensor_status)
        ∷ [],
)

-- One call: the registers, the answer to a reconnection, and the two arguments.
pub record Poll : Type 0 where
  pub bus : Bus
  pub reply : Reply
  pub ms : ℕ
  pub outdoor_temp_c : Option ℤ
  pub occupied : Bool

abbrev pub emitting {ℓ} : {A : Type ℓ} → List Event → Outcome A → Outcome A
emitting before (a, c, events) = (a, c, before ++ events)

abbrev pub after_reconnect :
    Poll → SigenergyController → Outcome Bool → Outcome (Option SystemState)
after_reconnect p before (false, c, events) = finish before false (none, c, events)
after_reconnect p before (true, c, events) =
    finish before true (emitting events (read_connected p.bus p.outdoor_temp_c p.occupied c))

unfoldable pub read_state : Poll → SigenergyController → Outcome (Option SystemState)
read_state p c =
    if c.reader.connected
    then finish c false (read_connected p.bus p.outdoor_temp_c p.occupied c)
    else after_reconnect p c (attempt_reconnect p.reply p.ms c)

pub record PvProbeResult : Type 0 where
  pub pv_kw : Option ℤ
  pub saturated : Bool
  pub bat_kw : Option ℤ
  pub bat_avail_kw : Option ℤ
  pub grid_export_kw : Option ℤ
  pub export_cap_kw : Option ℤ
  pub house_kw : Option ℤ
  pub soc_pct : Option ℤ

-- At a cap, to within 0.3 kW.
abbrev pub at_cap : Option ℤ → ℤ → Bool
at_cap none power = false
at_cap (some cap) power = leb_ℤ (cap -ℤ pos 300) power

abbrev pub raw_of : Option Quantity → Option ℤ
raw_of none = none
raw_of (some q) = some q.raw

unfoldable pub probe_result : Option ℤ → Option ℤ → Option SystemState → PvProbeResult
probe_result export_cap_kw bat_avail_kw none = record {
  pv_kw = none;
  saturated = false;
  bat_kw = none;
  bat_avail_kw = bat_avail_kw;
  grid_export_kw = none;
  export_cap_kw = export_cap_kw;
  house_kw = none;
  soc_pct = none;
}
probe_result export_cap_kw bat_avail_kw (some s) =
    let grid_export_kw = max_ℤ (pos 0) (neg (or_else s.grid_power_kw (pos 0))) in
    record {
      pv_kw = some (max_ℤ (pos 0) s.pv_power_kw);
      saturated = at_cap bat_avail_kw s.battery_power_kw && at_cap export_cap_kw grid_export_kw;
      bat_kw = some s.battery_power_kw;
      bat_avail_kw = bat_avail_kw;
      grid_export_kw = some grid_export_kw;
      export_cap_kw = export_cap_kw;
      house_kw = s.house_load_kw;
      soc_pct = some s.soc_pct;
    }

-- The rest of `measure_uncapped_pv` after its writes and the settling time.
unfoldable pub measure : Poll → Option ℤ → SigenergyController → Outcome PvProbeResult
measure p export_cap_kw c =
    let (state, c', events) = read_state p c in
    let (available, r) = read_input_u32 1000 (p.bus plant 30047) c'.reader in
    (probe_result export_cap_kw (raw_of available) state, record c' { reader = r }, events)
