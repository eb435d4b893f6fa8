-- ===== src/Sigenergy/Commands.antt =====
-- src/optimiser/clients/sigenergy.py: the writes that command the inverter, over the interface of
-- the pymodbus client. Of the controller's fields the writes depend on the cached flag of remote
-- control alone, which is an argument; a successful enabling sets it. `read_state` after the
-- settling time is an argument of the PV probe. Powers are in watts, so `int(round(kw * 1000))` is
-- the power itself.
pub mod Order
pub mod Dispatch
pub mod Fallback
pub mod SocLimits
pub mod Ceiling
use energy_optimiser.Prelude.{
  ℕ, Bool, true, false, ◌&&◌, Option, none, some, ℤ, pos, negsuc, ◌-ℤ◌, abs, max_ℤ, min_ℤ, ltb_ℤ,
  pos_part, if◌then◌else◌,
}
use energy_optimiser.Watchdog.Client.{Modbus, Reply, acknowledged, refused, raised}
use energy_optimiser.Watchdog.{
  reg_remote_ems_enable, reg_remote_ems_control_mode, reg_ess_max_charging_limit,
  reg_grid_export_power_limit, high_word, low_word,
}
use energy_optimiser.Lp.Dispatch.{
  RemoteEmsControlMode, pcs_remote_control, standby, maximum_self_consumption,
  command_charging_grid_first, command_charging_pv_first, command_discharging_pv_first,
  command_discharging_ess_first, LpDispatch,
}

abbrev pub reg_ess_max_discharging_limit : ℕ
reg_ess_max_discharging_limit = 40034

-- `.value`
abbrev pub value : RemoteEmsControlMode → ℕ
value pcs_remote_control = 0
value standby = 1
value maximum_self_consumption = 2
value command_charging_grid_first = 3
value command_charging_pv_first = 4
value command_discharging_pv_first = 5
value command_discharging_ess_first = 6

-- The limits of the battery's configuration that are written.
pub record Limits : Type 0 where
  pub max_dc_charge_kw : ℕ
  pub export_limit_kw : ℕ

abbrev pub is_ok : Reply → Bool
is_ok acknowledged = true
is_ok refused = false
is_ok raised = false

-- The register that limits the power of a mode's direction, none for the modes that are refused.
abbrev pub cap_register : RemoteEmsControlMode → Option ℕ
cap_register command_charging_grid_first = some reg_ess_max_charging_limit
cap_register command_charging_pv_first = some reg_ess_max_charging_limit
cap_register command_discharging_pv_first = some reg_ess_max_discharging_limit
cap_register command_discharging_ess_first = some reg_ess_max_discharging_limit
cap_register _ = none

abbrev pub headroom_kw : ℤ
headroom_kw = pos 500

unfoldable pub trim_kw : Limits → LpDispatch → ℤ → ℤ → ℤ
trim_kw c d export_cap_kw pv =
    min_ℤ (max_ℤ (abs d.signed_intent_kw) (max_ℤ (pos 0) (pv -ℤ export_cap_kw) -ℤ headroom_kw))
      (pos c.max_dc_charge_kw)

unfoldable pub fallback_export_cap : Limits → Option ℤ → Bool → ℕ
fallback_export_cap c price true = 0
fallback_export_cap c none false = c.export_limit_kw
fallback_export_cap c (some price) false = if ltb_ℤ price (pos 0) then 0 else c.export_limit_kw

-- The PV power of a probe, from the state's.
abbrev pub probed : Option ℤ → Option ℤ
probed none = none
probed (some pv) = some (max_ℤ (pos 0) pv)

module _ (M : Modbus) where
  -- What a write returns and leaves.
  abbrev pub Outcome : Type 0
  Outcome = Bool × M.State

  unfoldable pub write_u16 : ℕ → ℕ → M.State → Outcome
  write_u16 address v s = let (reply, s') = M.write_register address v s in (is_ok reply, s')

  unfoldable pub write_u32 : ℕ → ℕ → M.State → Outcome
  write_u32 address v s =
      let (reply, s') = M.write_two address (high_word v) (low_word v) s in (is_ok reply, s')

  -- A write that the rest depends on.
  abbrev pub and_then : Outcome → (M.State → Outcome) → Outcome
  and_then (true, s) rest = rest s
  and_then (false, s) rest = (false, s)

  -- The start of `set_fallback` and `apply_lp_dispatch`: the flag, and remote control if it is off.
  unfoldable pub ensure_enabled : Bool → M.State → Outcome
  ensure_enabled true s = (true, s)
  ensure_enabled false s = write_u16 reg_remote_ems_enable 1 s

  unfoldable pub set_fallback : Limits → Option ℤ → Bool → Bool → M.State → Outcome
  set_fallback c price block_export flag s₀ = and_then (ensure_enabled flag s₀) (λ s₁.
      let (charge_cap_ok, s₂) = write_u32 reg_ess_max_charging_limit c.max_dc_charge_kw s₁ in
      let (mode_ok, s₃) =
        write_u16 reg_remote_ems_control_mode (value maximum_self_consumption) s₂ in
      let (export_ok, s₄) =
        write_u32 reg_grid_export_power_limit (fallback_export_cap c price block_export) s₃ in
      (charge_cap_ok && mode_ok && export_ok, s₄))

  -- The two writes of the PV probe.
  unfoldable pub uncap : Limits → M.State → Outcome
  uncap c s =
      and_then (write_u32 reg_ess_max_charging_limit c.max_dc_charge_kw s)
        (write_u16 reg_remote_ems_control_mode (value maximum_self_consumption))

  -- The second phase: the trim, or nothing if the PV power is unknown.
  unfoldable pub trim : Limits → LpDispatch → ℤ → Option ℤ → M.State → Outcome
  trim c d export_cap_kw none s = (true, s)
  trim c d export_cap_kw (some pv) s =
      write_u32 reg_ess_max_charging_limit (pos_part (trim_kw c d export_cap_kw pv)) s

  -- `prefetched` is the PV power of the probe of earlier in the tick, if there was one; `settled`
  -- reads the state after the settling time.
  unfoldable pub apply_mode2 :
      Limits
      → LpDispatch
      → ℤ
      → Option (Option ℤ)
      → (M.State → Option ℤ × M.State)
      → M.State
      → Outcome
  apply_mode2 c d export_cap_kw (some pv) settled s = trim c d export_cap_kw pv s
  apply_mode2 c d export_cap_kw none settled s =
      and_then (uncap c s)
        (λ s'. let (pv, s'') = settled s' in trim c d export_cap_kw (probed pv) s'')

  -- The cap first, then the mode. A mode without a cap register is refused.
  unfoldable pub apply_capped : Option ℕ → LpDispatch → M.State → Outcome
  apply_capped none d s = (false, s)
  apply_capped (some register) d s =
      and_then (write_u32 register (pos_part d.cap_kw) s)
        (write_u16 reg_remote_ems_control_mode (value d.mode))

  unfoldable pub apply_in :
      RemoteEmsControlMode
      → Limits
      → LpDispatch
      → ℤ
      → Option (Option ℤ)
      → (M.State → Option ℤ × M.State)
      → M.State
      → Outcome
  apply_in maximum_self_consumption c d export_cap_kw prefetched settled =
      apply_mode2 c d export_cap_kw prefetched settled
  apply_in mode c d export_cap_kw prefetched settled = apply_capped (cap_register mode) d

  unfoldable pub apply_lp_dispatch :
      Limits
      → LpDispatch
      → ℤ
      → Option (Option ℤ)
      → (M.State → Option ℤ × M.State)
      → Bool
      → M.State
      → Outcome
  unfolding apply_in
  apply_lp_dispatch c d export_cap_kw prefetched settled flag s =
      and_then (ensure_enabled flag s) (apply_in d.mode c d export_cap_kw prefetched settled)
