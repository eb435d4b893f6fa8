-- ===== src/Sigenergy/State/Warned.antt =====
-- The warnings of a run of `read_state`.
use energy_optimiser.Prelude.{
  ap, ◌∙◌, ◌≡◌, Bool, true, false, Option, none, some, List, [], ◌∷◌, ◌++◌, ℕ, suc, ◌+◌, ◌≤◌, ℤ,
  All, arith, Bool-cases, inl, inr, if-either, if◌then◌else◌,
}
use energy_optimiser.Watchdog.Client.{Reply, acknowledged, refused, raised}
use energy_optimiser.Sigenergy.Telemetry.{Bus}
use energy_optimiser.Sigenergy.State.{
  SigenergyController, SystemState, Required, Poll, Outcome, Event, modbus_reconnected,
  grid_sensor_offline, negative_house_load, modbus_read_batch, is_online, or_zero, grid_and_house,
  state_from, read_connected, read_state, attempt_reconnect, mark_connected, finish,
  after_reconnect, emitting,
}
use energy_optimiser.Sigenergy.State.Nulled.{critical_of, read_critical_lem}

-- Calls one after the other, and all that they emit.
unfoldable pub read_states : List Poll → SigenergyController → SigenergyController × List Event
read_states [] c = (c, [])
read_states (p ∷ ps) c =
    let (_, c', events) = read_state p c in
    let (c'', later) = read_states ps c' in (c'', events ++ later)

abbrev pub offline_warnings : List Event → ℕ
offline_warnings [] = 0
offline_warnings (grid_sensor_offline _ ∷ es) = suc (offline_warnings es)
offline_warnings (modbus_reconnected _ _ ∷ es) = offline_warnings es
offline_warnings (negative_house_load _ _ _ _ ∷ es) = offline_warnings es
offline_warnings (modbus_read_batch _ _ _ _ ∷ es) = offline_warnings es

-- The status of the sensor is not 1, or is not read.
abbrev pub SensorOffline : Poll → Type 0
SensorOffline p = is_online (or_zero (critical_of p.bus).grid_sensor_status) ≡ false

-- The warnings that a controller may still emit.
abbrev pub left : SigenergyController → ℕ
left c = if c.warned_grid_sensor_offline then 0 else 1

abbrev Frugal {ℓ} : {A : Type ℓ} → SigenergyController → Outcome A → Type 0
Frugal c o = offline_warnings o.2 + left o.1 ≤ left c

warnings-append :
    (es fs : List Event) → offline_warnings (es ++ fs) ≡ offline_warnings es + offline_warnings fs
warnings-append [] fs = omega arith
warnings-append (grid_sensor_offline _ ∷ es) fs = omega (arith, warnings-append es fs)
warnings-append (modbus_reconnected _ _ ∷ es) fs = omega (arith, warnings-append es fs)
warnings-append (negative_house_load _ _ _ _ ∷ es) fs = omega (arith, warnings-append es fs)
warnings-append (modbus_read_batch _ _ _ _ ∷ es) fs = omega (arith, warnings-append es fs)

attempt-Frugal :
    (reply : Reply) (ms : ℕ) (c : SigenergyController) → Frugal c (attempt_reconnect reply ms c)
unfolding attempt_reconnect mark_connected
attempt-Frugal acknowledged ms c = ground arith
attempt-Frugal refused ms c = ground arith
attempt-Frugal raised ms c = ground arith

grid_and_house-Frugal :
    (q : Required) (c : SigenergyController)
    → is_online c.grid_sensor_status ≡ false
    → Frugal c (grid_and_house q c)
unfolding grid_and_house
grid_and_house-Frugal q c e = rw e (elim (Bool-cases c.warned_grid_sensor_offline) [
  | inl w ↦ rw w (omega arith)
  | inr w ↦ rw w (omega arith)
])

module _ (b : Bus) (temp : Option ℤ) (occupied : Bool) where
  state_from-Frugal :
      (mode : ℤ) (o : Option Required) (c : SigenergyController)
      → is_online c.grid_sensor_status ≡ false
      → Frugal c (state_from b temp occupied mode o c)
  unfolding state_from
  state_from-Frugal mode none c e = omega arith
  state_from-Frugal mode (some q) c e = grid_and_house-Frugal q c e

  connected-Frugal :
      (c : SigenergyController)
      → is_online (or_zero (critical_of b).grid_sensor_status) ≡ false
      → Frugal c (read_connected b temp occupied c)
  unfolding read_connected
  connected-Frugal c e =
      state_from-Frugal _ _ _
        (ap (λ k. is_online (or_zero k.grid_sensor_status)) (read_critical_lem b c.reader) ∙ e)

finish-Frugal {ℓ} :
    {A : Type ℓ} (before : SigenergyController) (reconnected : Bool) (c : SigenergyController)
    (o : Outcome A)
    → Frugal c o
    → Frugal c (finish before reconnected o)
finish-Frugal before reconnected c o h =
    omega (arith, h, warnings-append o.2 (modbus_read_batch _ _ _ _ ∷ []))

reconnected-Frugal :
    (p : Poll) (before c : SigenergyController) (o : Outcome Bool)
    → SensorOffline p
    → Frugal c o
    → Frugal c (after_reconnect p before o)
reconnected-Frugal p before c (false, c', events) e h =
    finish-Frugal {A = Option SystemState} before false c (none, c', events) h
reconnected-Frugal p before c (true, c', events) e h =
    let o = read_connected p.bus p.outdoor_temp_c p.occupied c' in
    finish-Frugal before true c (emitting events o) (
      omega (
        arith,
        h,
        warnings-append events o.2,
        connected-Frugal p.bus p.outdoor_temp_c p.occupied c' e,
      ))

read_state-Frugal :
    (p : Poll) (c : SigenergyController) → SensorOffline p → Frugal c (read_state p c)
unfolding read_state
read_state-Frugal p c e =
    if-either {A = Outcome (Option SystemState)} (λ o. Frugal c o) c.reader.connected
      (finish-Frugal c false c (read_connected p.bus p.outdoor_temp_c p.occupied c)
        (connected-Frugal p.bus p.outdoor_temp_c p.occupied c e))
      (reconnected-Frugal p c c (attempt_reconnect p.reply p.ms c) e
        (attempt-Frugal p.reply p.ms c))

-- Over any sequence of calls in which the status of the grid sensor is never 1, whatever else is
-- read and whether or not the connection is lost, at most one warning of an offline sensor is
-- emitted, and none if there was one before.
pub warned_once :
    (ps : List Poll) (c : SigenergyController)
    → All SensorOffline ps
    → offline_warnings (read_states ps c).1 ≤ left c
unfolding read_states
warned_once [] c h = omega arith
warned_once (p ∷ ps) c h = omega (
  arith,
  warned_once ps (read_state p c).1 h.1,
  read_state-Frugal p c h.0,
  warnings-append (read_state p c).2 (read_states ps (read_state p c).1).1,
)
