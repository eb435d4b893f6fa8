-- ===== src/Sigenergy/Commands/Ceiling.antt =====
-- The registers of the limits over a run of assertions, and what the inverter does in between.
use energy_optimiser.Prelude.{
  List, [], ◌∷◌, ◌/◌, ℕ, ◌≡◌, ◌≢◌, ◌⊎◌, inl, inr, Bool-cases, true, false, arith, ◌∙◌,
}
use energy_optimiser.Watchdog.Client.{Modbus, IsFaithful}
use energy_optimiser.Sigenergy.Commands.{Outcome}
use energy_optimiser.Sigenergy.Commands.Order.{u16_keeps, u16_stores}
use energy_optimiser.Sigenergy.Commands.SocLimits.{
  SocLimits, reg_backup_soc, reg_charge_cutoff_soc, reg_discharge_cutoff_soc, tenths, also, Stops,
  assert_battery_soc_limits, assert_discharge_soc_limits, reasserted,
}

module _ (M : Modbus) (F : IsFaithful M) where
  also_keeps :
      (a v : ℕ) (o : Outcome M) (r : ℕ) → r ≢ a → M.holding (also M a v o).1 r ≡ M.holding o.1 r
  also_keeps a v o r h = u16_keeps M F a v o.1 r h

  also_stores :
      (a v : ℕ) (o : Outcome M) → (also M a v o).0 ≡ true → M.holding (also M a v o).1 a ≡ v
  also_stores a v o e = u16_stores M F a v o.1 (ground (arith, e))

  also_before : (a v : ℕ) (o : Outcome M) → (also M a v o).0 ≡ true → o.0 ≡ true
  also_before a v o e = ground (arith, e)

  last_two :
      (l : SocLimits) (o : Outcome M)
      → let o' =
          also M reg_backup_soc
            (tenths l.backup_soc_pct)
            (also M reg_discharge_cutoff_soc (tenths l.discharge_cutoff_pct) o) in
        (M.holding o'.1 reg_charge_cutoff_soc ≡ M.holding o.1 reg_charge_cutoff_soc)
        × (o'.0 ≡ true → o.0 ≡ true)
        × (o'.0 ≡ true → Stops M l o'.1)
  last_two l o =
      let o' = also M reg_discharge_cutoff_soc (tenths l.discharge_cutoff_pct) o in
      let before = also_before reg_backup_soc (tenths l.backup_soc_pct) o' in
      (
        also_keeps reg_backup_soc _ o' _ (omega arith)
            ∙ also_keeps reg_discharge_cutoff_soc _ o _ (omega arith),
        λ e. also_before reg_discharge_cutoff_soc (tenths l.discharge_cutoff_pct) o (before e),
        λ e. (
          also_keeps reg_backup_soc _ o' _ (omega arith)
              ∙ also_stores reg_discharge_cutoff_soc _ o (before e),
          also_stores reg_backup_soc _ o' e,
        ),
      )

  abbrev Last : SocLimits → Outcome M → Type 0
  Last l o = (o.0 ≡ false) ⊎ Stops M l o.1

  stands_or_failed : (l : SocLimits) (o : Outcome M) → (o.0 ≡ true → Stops M l o.1) → Last l o
  stands_or_failed l o h = elim (Bool-cases o.0) [ inl e ↦ inr (h e) | inr e ↦ inl e ]

  -- Whatever the inverter does to its registers between the assertions and whatever the client
  -- replies: the assertion at the start reports success only if the three limits stand. Each
  -- hourly one reports a failure or leaves the discharge cut-off and the backup reserve at their
  -- limits, and it leaves the charge cut-off as it finds it.
  pub reasserted_lem :
      (l : SocLimits) (s : M.State) (reset : M.State → M.State) (earlier : List (M.State → M.State))
      → let first = reasserted M [] l s in
        let before = reset (reasserted M earlier l s).1 in
        let o = reasserted M (reset ∷ earlier) l s in
        ((first.0 ≡ false)
          ⊎ ((M.holding first.1 reg_charge_cutoff_soc ≡ l.soc_ceiling_pct / 100)
              × Stops M l first.1))
        × ((o.0 ≡ false) ⊎ Stops M l o.1)
        × (M.holding o.1 reg_charge_cutoff_soc ≡ M.holding before reg_charge_cutoff_soc)
  unfolding assert_battery_soc_limits assert_discharge_soc_limits reasserted
  reasserted_lem l s reset earlier =
      let ceiling = also M reg_charge_cutoff_soc (tenths l.soc_ceiling_pct) (true, s) in
      let (kept, ok, stops) = last_two l ceiling in
      let (kept', _, stops') = last_two l (true, reset (reasserted M earlier l s).1) in
      (
        elim (Bool-cases (reasserted M [] l s).0) [
          | inl e ↦ inr (kept ∙ also_stores reg_charge_cutoff_soc _ (true, s) (ok e), stops e)
          | inr e ↦ inl e
        ],
        stands_or_failed l (reasserted M (reset ∷ earlier) l s) stops',
        kept',
      )
