-- ===== src/Sigenergy/Commands/SocLimits.antt =====
-- src/optimiser/clients/sigenergy.py: the limits of the state of charge, which the inverter keeps
-- in every mode, and the export limit. A percentage is in thousandths.
use energy_optimiser.Prelude.{List, [], ◌∷◌, ℕ, ◌/◌, ◌≡◌, true, ◌&&◌}
use energy_optimiser.Watchdog.Client.{Modbus}
use energy_optimiser.Watchdog.{reg_grid_export_power_limit}
use energy_optimiser.Sigenergy.Commands.{write_u16, write_u32, Outcome}

pub record SocLimits : Type 0 where
  pub soc_ceiling_pct : ℕ
  pub discharge_cutoff_pct : ℕ
  pub backup_soc_pct : ℕ

abbrev pub reg_backup_soc : ℕ
reg_backup_soc = 40046

abbrev pub reg_charge_cutoff_soc : ℕ
reg_charge_cutoff_soc = 40047

abbrev pub reg_discharge_cutoff_soc : ℕ
reg_discharge_cutoff_soc = 40048

-- `int(pct * 10)`
abbrev pub tenths : ℕ → ℕ
tenths pct = pct / 100

module _ (M : Modbus) where
  -- `ok &= await self._write_u16(...)`: written whatever came before.
  abbrev pub also : ℕ → ℕ → Outcome M → Outcome M
  also address v (ok, s) = let (done, s') = write_u16 M address v s in (ok && done, s')

  unfoldable pub assert_battery_soc_limits : SocLimits → M.State → Outcome M
  assert_battery_soc_limits l s = also reg_backup_soc (tenths l.backup_soc_pct) (
      also reg_discharge_cutoff_soc (tenths l.discharge_cutoff_pct)
        (also reg_charge_cutoff_soc (tenths l.soc_ceiling_pct) (true, s)))

  unfoldable pub assert_discharge_soc_limits : SocLimits → M.State → Outcome M
  assert_discharge_soc_limits l s =
      also reg_backup_soc (tenths l.backup_soc_pct)
        (also reg_discharge_cutoff_soc (tenths l.discharge_cutoff_pct) (true, s))

  unfoldable pub set_export_limit_kw : ℕ → M.State → Outcome M
  set_export_limit_kw limit_kw s = write_u32 M reg_grid_export_power_limit limit_kw s

  -- The assertion at the start and the hourly ones after it, the last one first. Before each of
  -- those the inverter may have changed its registers by itself, as `reset` says.
  unfoldable pub reasserted : List (M.State → M.State) → SocLimits → M.State → Outcome M
  reasserted [] l s = assert_battery_soc_limits l s
  reasserted (reset ∷ earlier) l s =
      assert_discharge_soc_limits l (reset (reasserted earlier l s).1)

  -- The two limits of discharging stand.
  abbrev pub Stops : SocLimits → M.State → Type 0
  Stops l t =
      (M.holding t reg_discharge_cutoff_soc ≡ l.discharge_cutoff_pct / 100)
      × (M.holding t reg_backup_soc ≡ l.backup_soc_pct / 100)
