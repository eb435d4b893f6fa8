-- ===== src/Sigenergy/Commands/Dispatch.antt =====
-- What a dispatch of the LP and a fallback leave in the registers.
use energy_optimiser.Prelude.{
  ap, ℕ, ◌+◌, ◌≡◌, ◌≢◌, inl, inr, Bool, true, Option, some, ℤ, pos_part, arith, ◌∙◌, sym,
  Bool-cases,
}
use energy_optimiser.Watchdog.Client.{Modbus, IsFaithful}
use energy_optimiser.Watchdog.{reg_remote_ems_control_mode}
use energy_optimiser.Lp.Dispatch.{RemoteEmsControlMode, maximum_self_consumption, LpDispatch}
use energy_optimiser.Sigenergy.Commands.{
  Limits, value, cap_register, ensure_enabled, apply_capped, apply_in, apply_lp_dispatch,
}
use energy_optimiser.Sigenergy.Commands.Order.{
  Stands, CapFirst, and_then_continues, and_then_stops, enabling_keeps, capped_order,
  capped_success,
}

-- The register of a cap is none of the mode's.
cap_apart :
    (mode : RemoteEmsControlMode) (register : ℕ)
    → cap_register mode ≡ some register
    → (reg_remote_ems_control_mode ≢ register) × (reg_remote_ems_control_mode ≢ register + 1)
cap_apart mode register e = ground (arith, e)

module _ (M : Modbus) (F : IsFaithful M) (c : Limits) (d : LpDispatch) (export_cap_kw : ℤ)
    (prefetched : Option (Option ℤ)) (settled : M.State → Option ℤ × M.State) where
  apply_in_capped :
      (mode : RemoteEmsControlMode) (register : ℕ) (s : M.State)
      → cap_register mode ≡ some register
      → apply_in M mode c d export_cap_kw prefetched settled s ≡ apply_capped M (some register) d s
  unfolding apply_in
  apply_in_capped maximum_self_consumption register s e = cc
  apply_in_capped _ register s e = ap (λ x. apply_capped M x d s) e

  module _ (flag : Bool) (s : M.State) (register : ℕ)
      (e : cap_register d.mode ≡ some register) where
    -- Of the modes with a cap register: whatever the client replies, and wherever the dispatch
    -- stops, the mode register is as it was unless the new cap stands in full.
    pub apply_lp_dispatch_order :
        CapFirst M F register
          (pos_part d.cap_kw)
          s
          (apply_lp_dispatch M c d export_cap_kw prefetched settled flag s).1
    unfolding apply_lp_dispatch
    apply_lp_dispatch_order =
        let o = ensure_enabled M flag s in
        let kept = enabling_keeps M F flag s reg_remote_ems_control_mode (omega arith) in
        let (apart, apart') = cap_apart d.mode register e in
        elim (Bool-cases o.0) [
          | inl on ↦
              rw
                (
                  and_then_continues M o (apply_in M d.mode c d export_cap_kw prefetched settled)
                      on,
                  apply_in_capped d.mode register o.1 e,
                )
                (elim (capped_order M F register d o.1 apart apart') [
                  | inl h ↦ inl (h ∙ kept)
                  | inr h ↦ inr h
                ])
          | inr off ↦
              rw (and_then_stops M o (apply_in M d.mode c d export_cap_kw prefetched settled) off)
                (inl kept)
        ]

    -- A dispatch that reports success, of a mode with a cap register, has set the mode, and the
    -- cap stands.
    pub apply_lp_dispatch_success :
        (apply_lp_dispatch M c d export_cap_kw prefetched settled flag s).0 ≡ true
        → let t = (apply_lp_dispatch M c d export_cap_kw prefetched settled flag s).1 in
          (M.holding t reg_remote_ems_control_mode ≡ value d.mode)
          × Stands M register (pos_part d.cap_kw) t
    unfolding apply_lp_dispatch
    apply_lp_dispatch_success ok =
        let o = ensure_enabled M flag s in
        let (apart, apart') = cap_apart d.mode register e in
        elim (Bool-cases o.0) [
          | inl on ↦
              let step =
                and_then_continues M o (apply_in M d.mode c d export_cap_kw prefetched settled) on
                ∙ apply_in_capped d.mode register o.1 e in
              rw step
                (capped_success M F register d o.1 apart apart' (ap (λ x. x.0) (sym step) ∙ ok))
          | inr off ↦ cc (off, ok)
        ]
