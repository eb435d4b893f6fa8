-- ===== src/Tests/Commands.antt =====
-- Commands of the controller over a client whose replies are a script.
use energy_optimiser.Prelude.{
  ℕ, ◌≡◌, refl, true, false, none, some, [], ◌∷◌, pos, negsuc, ℤ, Option,
}
use energy_optimiser.Watchdog.Client.{acknowledged, refused}
use energy_optimiser.Watchdog.{
  reg_remote_ems_enable, reg_remote_ems_control_mode, reg_ess_max_charging_limit,
  reg_grid_export_power_limit,
}
use energy_optimiser.Lp.Dispatch.{LpDispatch, discharge, command_discharging_ess_first}
use energy_optimiser.Sigenergy.Commands.{
  Limits, apply_lp_dispatch, apply_in, apply_capped, set_fallback, ensure_enabled, write_u16,
  write_u32, reg_ess_max_discharging_limit,
}
use energy_optimiser.Sigenergy.Commands.Order.{Stands, CapFirst}
use energy_optimiser.Sigenergy.Commands.Dispatch.{apply_lp_dispatch_order}
use energy_optimiser.Sigenergy.Commands.Fallback.{ExportLimit, set_fallback_pins}
use energy_optimiser.Tests.Deadman.{Device, scripted, scripted-IsFaithful, blank}

abbrev limits : Limits
limits = record { max_dc_charge_kw = 21_000; export_limit_kw = 5000 }

abbrev evening : LpDispatch
evening = record {
  mode = command_discharging_ess_first;
  cap_kw = pos 10_000;
  signed_intent_kw = negsuc 2999;
  kind = discharge;
  target_soc_pct = none;
}

abbrev dark : Device → Option ℤ × Device
dark s = (some (pos 0), s)

-- The mode's write fails after the cap's.
apply_lp_dispatch_order_example :
    CapFirst scripted scripted-IsFaithful reg_ess_max_discharging_limit 10_000
      (blank, acknowledged ∷ refused ∷ [])
      (apply_lp_dispatch scripted limits evening
        (pos 5000)
        none
        dark
        true
        (blank, acknowledged ∷ refused ∷ [])).1
apply_lp_dispatch_order_example =
    apply_lp_dispatch_order scripted scripted-IsFaithful limits evening (pos 5000) none dark true
      (blank, acknowledged ∷ refused ∷ []) reg_ess_max_discharging_limit refl

evening_succeeds :
    (apply_lp_dispatch scripted limits evening (pos 5000) none dark false (blank, [])).0 ≡ true
unfolding apply_lp_dispatch apply_in apply_capped ensure_enabled write_u16 write_u32
evening_succeeds = refl

fallback_succeeds :
    (set_fallback scripted limits (some (negsuc 4)) false false (blank, [])).0 ≡ true
unfolding set_fallback ensure_enabled write_u16 write_u32
fallback_succeeds = refl

set_fallback_pins_example :
    let t = (set_fallback scripted limits (some (negsuc 4)) false false (blank, [])).1 in
    Stands scripted reg_ess_max_charging_limit 21_000 t
    × (t.0 reg_remote_ems_control_mode ≡ 2)
    × ((cap : ℕ) × ExportLimit limits (some (negsuc 4)) false cap
        × Stands scripted reg_grid_export_power_limit cap t)
    × (t.0 reg_remote_ems_enable ≡ 1)
set_fallback_pins_example =
    set_fallback_pins scripted limits (some (negsuc 4)) false false (blank, []) scripted-IsFaithful
      fallback_succeeds
