-- ===== src/Sigenergy/Commands/Fallback.antt =====
-- What a fallback of the controller leaves in the registers.
use energy_optimiser.Prelude.{
  ap, ℕ, ◌+◌, ◌≡◌, ◌≢◌, Bool, true, ◌&&◌, Option, none, some, false, ℤ, pos, ◌<ℤ◌, ◌≤ℤ◌, ltb_ℤ, ◌⊎◌,
  refl, arith, ◌∙◌, sym, Bool-cases, inl, inr,
}
use energy_optimiser.Watchdog.Client.{Modbus, IsFaithful}
use energy_optimiser.Watchdog.{
  reg_remote_ems_enable, reg_remote_ems_control_mode, reg_ess_max_charging_limit,
  reg_grid_export_power_limit, mode_maximum_self_consumption,
}
use energy_optimiser.Sigenergy.Commands.{
  Limits, write_u16, write_u32, ensure_enabled, set_fallback, fallback_export_cap,
}
use energy_optimiser.Sigenergy.Commands.Order.{
  Stands, and_then_continues, u16_keeps, u16_stores, u32_keeps, u32_stores,
}

all_true : (a b c : Bool) → (a && b && c) ≡ true → (a ≡ true) × (b ≡ true) × (c ≡ true)
all_true a b c e = ground (arith, e)

module _ (M : Modbus) (F : IsFaithful M) (max cap : ℕ) (s₁ : M.State) where
  -- The states after each of the three writes.
  abbrev charged : M.State
  charged = (write_u32 M reg_ess_max_charging_limit max s₁).1

  abbrev moded : M.State
  moded = (write_u16 M reg_remote_ems_control_mode mode_maximum_self_consumption charged).1

  abbrev closed : M.State
  closed = (write_u32 M reg_grid_export_power_limit cap moded).1

  charge_limit_kept :
      (r : ℕ)
      → r ≢ reg_remote_ems_control_mode
      → r ≢ reg_grid_export_power_limit
      → r ≢ reg_grid_export_power_limit + 1
      → M.holding closed r ≡ M.holding charged r
  charge_limit_kept r m e e' =
      u32_keeps M F _ cap moded r e e' ∙ u16_keeps M F _ mode_maximum_self_consumption charged r m

  pub remote_control_kept :
      M.holding closed reg_remote_ems_enable ≡ M.holding s₁ reg_remote_ems_enable
  remote_control_kept =
      charge_limit_kept reg_remote_ems_enable (omega arith) (omega arith) (omega arith)
      ∙ u32_keeps M F _ max s₁ reg_remote_ems_enable (omega arith) (omega arith)

  three_writes :
      (write_u32 M reg_ess_max_charging_limit max s₁).0
          && (write_u16 M reg_remote_ems_control_mode mode_maximum_self_consumption charged).0
          && (write_u32 M reg_grid_export_power_limit cap moded).0
        ≡ true
      → Stands M reg_ess_max_charging_limit max closed
        × (M.holding closed reg_remote_ems_control_mode ≡ mode_maximum_self_consumption)
        × Stands M reg_grid_export_power_limit cap closed
  three_writes ok =
      let (a, b, d) = all_true _ _ _ ok in
      let (hi, lo) = u32_stores M F reg_ess_max_charging_limit max s₁ a in
      (
        (
          charge_limit_kept reg_ess_max_charging_limit (omega arith) (omega arith) (omega arith)
              ∙ hi,
          charge_limit_kept (reg_ess_max_charging_limit + 1) (omega arith) (omega arith)
                (omega arith)
              ∙ lo,
        ),
        u32_keeps M F _ cap moded reg_remote_ems_control_mode (omega arith) (omega arith)
            ∙ u16_stores M F _ mode_maximum_self_consumption charged b,
        u32_stores M F reg_grid_export_power_limit cap moded d,
      )

-- The export limit is 0 if export is blocked or the price is known and negative, and the
-- configured one otherwise.
abbrev pub ExportLimit : Limits → Option ℤ → Bool → ℕ → Type 0
ExportLimit c price true cap = cap ≡ 0
ExportLimit c none false cap = cap ≡ c.export_limit_kw
ExportLimit c (some price) false cap =
    ((price <ℤ pos 0) × (cap ≡ 0)) ⊎ ((pos 0 ≤ℤ price) × (cap ≡ c.export_limit_kw))

fallback_export_cap-ExportLimit :
    (c : Limits) (price : Option ℤ) (block_export : Bool)
    → ExportLimit c price block_export (fallback_export_cap c price block_export)
unfolding fallback_export_cap
fallback_export_cap-ExportLimit c price true = refl
fallback_export_cap-ExportLimit c none false = refl
fallback_export_cap-ExportLimit c (some price) false = elim (Bool-cases (ltb_ℤ price (pos 0))) [
  | inl e ↦ rw e (inl (ground (arith, e), refl))
  | inr e ↦ rw e (inr (ground (arith, e), refl))
]

-- Remote control as a fallback leaves it: enabled, or as it was if it counts as enabled already.
abbrev pub Enabled : (M : Modbus) → Bool → M.State → M.State → Type 0
Enabled M true s t = M.holding t reg_remote_ems_enable ≡ M.holding s reg_remote_ems_enable
Enabled M false s t = M.holding t reg_remote_ems_enable ≡ 1

ensure_enabled-Enabled :
    (M : Modbus) (F : IsFaithful M) (flag : Bool) (s : M.State)
    → (ensure_enabled M flag s).0 ≡ true
    → Enabled M flag s (ensure_enabled M flag s).1
unfolding ensure_enabled
ensure_enabled-Enabled M F true s on = refl
ensure_enabled-Enabled M F false s on = u16_stores M F reg_remote_ems_enable 1 s on

Enabled-kept :
    (M : Modbus) (flag : Bool) (s t t' : M.State)
    → M.holding t' reg_remote_ems_enable ≡ M.holding t reg_remote_ems_enable
    → Enabled M flag s t
    → Enabled M flag s t'
Enabled-kept M true s t t' e h = e ∙ h
Enabled-kept M false s t t' e h = e ∙ h

-- A fallback that reports success leaves the mode register at self-consumption, the charge limit
-- lifted to the configured one, and the export limit at 0 if export is blocked or the price is
-- known and negative, and at the configured one otherwise. Remote control is enabled, unless the
-- controller takes it for enabled already: then it is as it was.
pub set_fallback_pins :
    (M : Modbus) (c : Limits) (price : Option ℤ) (block_export flag : Bool) (s : M.State)
    → IsFaithful M
    → (set_fallback M c price block_export flag s).0 ≡ true
    → let t = (set_fallback M c price block_export flag s).1 in
      Stands M reg_ess_max_charging_limit c.max_dc_charge_kw t
      × (M.holding t reg_remote_ems_control_mode ≡ mode_maximum_self_consumption)
      × ((cap : ℕ) × ExportLimit c price block_export cap
          × Stands M reg_grid_export_power_limit cap t)
      × Enabled M flag s t
unfolding set_fallback
set_fallback_pins M c price block_export flag s F ok =
    let o = ensure_enabled M flag s in
    elim (Bool-cases o.0) [
      | inl on ↦
          let cap = fallback_export_cap c price block_export in
          let (charge, mode, export) =
            three_writes M F c.max_dc_charge_kw cap o.1
              (ap (λ x. x.0) (sym (and_then_continues M o _ on)) ∙ ok) in
          rw (and_then_continues M o _ on) (
            charge,
            mode,
            (cap, fallback_export_cap-ExportLimit c price block_export, export),
            Enabled-kept M flag s o.1 _ (remote_control_kept M F c.max_dc_charge_kw cap o.1)
                (ensure_enabled-Enabled M F flag s on),
          )
      | inr off ↦ cc (off, ok)
    ]
