-- ===== src/Watchdog.antt =====
-- src/optimiser/watchdog.py: the dead-man sidecar. The pymodbus client, with its slave address, is
-- an interface over a state of its own, and so is what the inverter's registers hold. Times are in
-- microseconds, and the waits between retries and polls take none. Log lines are left out, but for
-- those that tell a first firing from a re-assertion.
pub mod Client
pub mod Writes
pub mod Pinned
pub mod Polling
use energy_optimiser.Prelude.{
  ℕ, zero, suc, ◌+◌, ◌*◌, ◌/◌, ◌%◌, ◌^◌, Bool, true, false, ◌&&◌, Option, none, some, List, [], ◌∷◌,
  ◌++◌, ℤ, pos, sub_ℕ, ltb_ℤ, if◌then◌else◌,
}
use energy_optimiser.Watchdog.Client.{Modbus, Reply, acknowledged, refused, raised}

abbrev pub reg_remote_ems_enable : ℕ
reg_remote_ems_enable = 40029

abbrev pub reg_remote_ems_control_mode : ℕ
reg_remote_ems_control_mode = 40031

abbrev pub reg_ess_max_charging_limit : ℕ
reg_ess_max_charging_limit = 40032

abbrev pub reg_grid_export_power_limit : ℕ
reg_grid_export_power_limit = 40038

abbrev pub mode_maximum_self_consumption : ℕ
mode_maximum_self_consumption = 2

abbrev pub write_max_attempts : ℕ
write_max_attempts = 2

-- `(value >> 16) & 0xFFFF` and `value & 0xFFFF`
abbrev pub high_word : ℕ → ℕ
high_word value = value / 2 ^ 16 % 2 ^ 16

abbrev pub low_word : ℕ → ℕ
low_word value = value % 2 ^ 16

pub data Notice : Type 0 where
  fires_missing fires_stale re_asserts recovers : Notice

pub record Settings : Type 0 where
  pub stale_after : ℕ
  pub grace : ℕ
  pub max_charge_raw : ℕ

module _ (M : Modbus) where
  -- The loop of `_write_register` over the attempts left: only an exception is tried again, after
  -- a reconnect whose outcome is ignored.
  attempts : ℕ → (M.State → Reply × M.State) → M.State → Bool × M.State
  attempts zero write s = (false, s)
  attempts (suc zero) write s =
      let (reply, s') = write s in
      elim reply [ acknowledged ↦ (true, s') | refused ↦ (false, s') | raised ↦ (false, s') ]
  attempts (suc (suc k)) write s =
      let (reply, s') = write s in
      elim reply [
        | acknowledged ↦ (true, s')
        | refused ↦ (false, s')
        | raised ↦ attempts (suc k) write (M.connect s').1
      ]

  unfoldable pub write_register : ℕ → ℕ → M.State → Bool × M.State
  unfolding attempts
  write_register address value = attempts write_max_attempts (M.write_register address value)

  unfoldable pub write_u32_register : ℕ → ℕ → M.State → Bool × M.State
  unfolding attempts
  write_u32_register address value =
      attempts write_max_attempts (M.write_two address (high_word value) (low_word value))

  -- The last-resort write, where the explicit ones have not all succeeded.
  abbrev disable : Bool → M.State → Bool × M.State
  disable true s = (true, s)
  disable false s = write_register reg_remote_ems_enable 0 s

  unfoldable pub trigger_fallback : ℕ → M.State → Bool × M.State
  trigger_fallback max_charge_raw s₀ =
      let (ok_charge_cap, s₁) = write_u32_register reg_ess_max_charging_limit max_charge_raw s₀ in
      let (ok_mode, s₂) =
        write_register reg_remote_ems_control_mode mode_maximum_self_consumption s₁ in
      let (ok_export, s₃) = write_u32_register reg_grid_export_power_limit 0 s₂ in
      let (ok_enable, s₄) = write_register reg_remote_ems_enable 1 s₃ in
      disable (ok_charge_cap && ok_mode && ok_export && ok_enable) s₄

  -- The age of the heartbeat file at `now`, none if there is no file.
  abbrev pub heartbeat_age : ℕ → Option ℕ → Option ℤ
  heartbeat_age now none = none
  heartbeat_age now (some mtime) = some (sub_ℕ now mtime)

  -- Whether this poll fires.
  unfoldable pub is_stale : Settings → Option ℤ → ℤ → Bool
  is_stale c none elapsed = if ltb_ℤ elapsed (pos c.grace) then false else true
  is_stale c (some age) elapsed = ltb_ℤ (pos c.stale_after) age

  abbrev notices : Option ℤ → Bool → Bool → List Notice
  notices none true false = fires_missing ∷ []
  notices (some _) true false = fires_stale ∷ []
  notices _ true true = re_asserts ∷ []
  notices (some _) false true = recovers ∷ []
  notices _ false _ = []

  -- One round of the loop at `now`, with the file's time of change. `startup` is the start's time.
  unfoldable pub poll :
      Settings → ℕ → ℕ × Option ℕ → Bool × M.State → (Bool × M.State) × List Notice
  unfolding is_stale
  poll c startup (now, mtime) (was_stale, s) =
      let age = heartbeat_age now mtime in
      let stale = is_stale c age (sub_ℕ now startup) in
      let s' = if stale then (trigger_fallback c.max_charge_raw s).1 else s in
      ((stale, s'), notices age stale was_stale)

  -- The loop over what the polls see.
  unfoldable pub poll_all :
      Settings → ℕ → List (ℕ × Option ℕ) → Bool × M.State → (Bool × M.State) × List Notice
  poll_all c startup [] w = (w, [])
  poll_all c startup (seen ∷ rest) w =
      let (w', told) = poll c startup seen w in
      let (w'', more) = poll_all c startup rest w' in (w'', told ++ more)

  -- `run`: a pre-connect whose outcome is only logged, then the loop.
  unfoldable pub run : Settings → ℕ → List (ℕ × Option ℕ) → M.State → (Bool × M.State) × List Notice
  run c startup polls s = poll_all c startup polls (false, (M.connect s).1)
