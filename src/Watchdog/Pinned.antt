-- ===== src/Watchdog/Pinned.antt =====
-- The registers after a fallback.
use energy_optimiser.Prelude.{ℕ, ◌+◌, ◌*◌, ◌^◌, ◌<◌, ◌≡◌, ◌≢◌, ◌∙◌, true, ◌⊎◌, arith}
use energy_optimiser.Watchdog.Client.{Modbus, IsFaithful}
use energy_optimiser.Watchdog.{
  reg_remote_ems_enable, reg_remote_ems_control_mode, reg_ess_max_charging_limit,
  reg_grid_export_power_limit, mode_maximum_self_consumption, write_register, write_u32_register,
  trigger_fallback,
}
use energy_optimiser.Watchdog.Writes.{
  write_register_stores, write_register_keeps, write_u32_register_stores, write_u32_register_keeps,
}

-- The charge limit is the given one, the mode is self-consumption, nothing may be exported, and
-- remote control is on. A limit of 32 bits stands in two registers, the high word first.
pub record IsPinned (max_charge_raw : ℕ) (holding : ℕ → ℕ) : Type 0 where
  pub charge_limit :
      holding reg_ess_max_charging_limit * 2 ^ 16 + holding (reg_ess_max_charging_limit + 1)
      ≡ max_charge_raw
  pub mode : holding reg_remote_ems_control_mode ≡ mode_maximum_self_consumption
  pub export_high : holding reg_grid_export_power_limit ≡ 0
  pub export_low : holding (reg_grid_export_power_limit + 1) ≡ 0
  pub remote : holding reg_remote_ems_enable ≡ 1

-- The registers that a fallback may write.
abbrev pub Untouched : ℕ → Type 0
Untouched r =
    (r ≢ reg_remote_ems_enable)
    × (r ≢ reg_remote_ems_control_mode)
    × (r ≢ reg_ess_max_charging_limit)
    × (r ≢ reg_ess_max_charging_limit + 1)
    × (r ≢ reg_grid_export_power_limit)
    × (r ≢ reg_grid_export_power_limit + 1)

module _ (M : Modbus) (F : IsFaithful M) (max : ℕ) (s : M.State) where
  -- The states between the writes.
  abbrev pub capped : M.State
  capped = (write_u32_register M reg_ess_max_charging_limit max s).1

  abbrev pub moded : M.State
  moded = (write_register M reg_remote_ems_control_mode mode_maximum_self_consumption capped).1

  abbrev pub closed : M.State
  closed = (write_u32_register M reg_grid_export_power_limit 0 moded).1

  abbrev pub enabled : M.State
  enabled = (write_register M reg_remote_ems_enable 1 closed).1

  keeps_after_cap :
      (r : ℕ)
      → r ≢ reg_remote_ems_control_mode
      → r ≢ reg_grid_export_power_limit
      → r ≢ reg_grid_export_power_limit + 1
      → r ≢ reg_remote_ems_enable
      → M.holding enabled r ≡ M.holding capped r
  keeps_after_cap r m e e' n =
      write_register_keeps M F _ 1 closed r n
      ∙ write_u32_register_keeps M F _ 0 moded r e e'
      ∙ write_register_keeps M F _ mode_maximum_self_consumption capped r m

  pub enabled-IsPinned :
      max < 2 ^ 32
      → (write_u32_register M reg_ess_max_charging_limit max s).0 ≡ true
      → (write_register M reg_remote_ems_control_mode mode_maximum_self_consumption capped).0 ≡ true
      → (write_u32_register M reg_grid_export_power_limit 0 moded).0 ≡ true
      → (write_register M reg_remote_ems_enable 1 closed).0 ≡ true
      → IsPinned max (M.holding enabled)
  enabled-IsPinned small cap mode export enable =
      let (high, low) = write_u32_register_stores M F _ max s cap in
      let (out_high, out_low) = write_u32_register_stores M F _ 0 moded export in
      record {
        charge_limit = omega (
          arith,
          high,
          low,
          keeps_after_cap 40032 (omega arith) (omega arith) (omega arith) (omega arith),
          keeps_after_cap 40033 (omega arith) (omega arith) (omega arith) (omega arith),
        );
        mode =
            write_register_keeps M F _ 1 closed 40031 (omega arith)
            ∙ write_u32_register_keeps M F _ 0 moded 40031 (omega arith) (omega arith)
            ∙ write_register_stores M F _ mode_maximum_self_consumption capped mode;
        export_high = write_register_keeps M F _ 1 closed 40038 (omega arith) ∙ out_high;
        export_low = write_register_keeps M F _ 1 closed 40039 (omega arith) ∙ out_low;
        remote = write_register_stores M F _ 1 closed enable;
      }

  -- A fallback that reports success has pinned the safe state in full, or has switched remote
  -- control off. The charge limit is taken to fit in 32 bits.
  pub trigger_fallback_pins :
      max < 2 ^ 32
      → (trigger_fallback M max s).0 ≡ true
      → IsPinned max (M.holding (trigger_fallback M max s).1)
        ⊎ (M.holding (trigger_fallback M max s).1 reg_remote_ems_enable ≡ 0)
  unfolding trigger_fallback
  trigger_fallback_pins small ok =
      ground
        (arith, enabled-IsPinned small, write_register_stores M F reg_remote_ems_enable 0 enabled)

  enabled-Untouched : (r : ℕ) → Untouched r → M.holding enabled r ≡ M.holding s r
  enabled-Untouched r u =
      keeps_after_cap r u.1 u.4 u.5 u.0 ∙ write_u32_register_keeps M F _ max s r u.2 u.3

  -- Whatever the replies, a fallback writes no register but the six that it is about.
  pub trigger_fallback_frame :
      (r : ℕ) → Untouched r → M.holding (trigger_fallback M max s).1 r ≡ M.holding s r
  unfolding trigger_fallback
  trigger_fallback_frame r u =
      ground (
        arith,
        enabled-Untouched r u,
        write_register_keeps M F reg_remote_ems_enable 0 enabled r u.0,
      )
