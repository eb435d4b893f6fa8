-- ===== src/Sigenergy/Commands/Order.antt =====
-- What the registers hold after a command, whatever the client replied.
use energy_optimiser.Prelude.{
  ap, ap, ℕ, ◌+◌, ◌≡◌, ◌≢◌, ◌⊎◌, inl, inr, refl, Bool, true, false, some, pos_part, arith, ◌∙◌, sym,
  Bool-cases,
}
use energy_optimiser.Watchdog.Client.{Modbus, IsFaithful, Reply, acknowledged}
use energy_optimiser.Watchdog.{
  reg_remote_ems_enable, reg_remote_ems_control_mode, high_word, low_word,
}
use energy_optimiser.Lp.Dispatch.{LpDispatch}
use energy_optimiser.Sigenergy.Commands.{
  value, is_ok, write_u16, write_u32, and_then, ensure_enabled, apply_capped,
}

ok-acknowledged : (r : Reply) → is_ok r ≡ true → r ≡ acknowledged
ok-acknowledged r e = ground (arith, e)

module _ (M : Modbus) where
  -- A 32-bit value stands in two registers, the high word first.
  abbrev pub Stands : ℕ → ℕ → M.State → Type 0
  Stands register v t =
      (M.holding t register ≡ high_word v) × (M.holding t (register + 1) ≡ low_word v)

  pub and_then_continues :
      (o : Bool × M.State) (rest : M.State → Bool × M.State)
      → o.0 ≡ true
      → and_then M o rest ≡ rest o.1
  and_then_continues (true, s) rest e = refl
  and_then_continues (false, s) rest e = cc

  pub and_then_stops :
      (o : Bool × M.State) (rest : M.State → Bool × M.State) → o.0 ≡ false → and_then M o rest ≡ o
  and_then_stops (true, s) rest e = cc
  and_then_stops (false, s) rest e = refl

module _ (M : Modbus) (F : IsFaithful M) where
  pub u16_keeps :
      (a v : ℕ) (s : M.State) (r : ℕ) → r ≢ a → M.holding (write_u16 M a v s).1 r ≡ M.holding s r
  unfolding write_u16
  u16_keeps a v s r h = F.kept a v s r h

  pub u16_stores :
      (a v : ℕ) (s : M.State) → (write_u16 M a v s).0 ≡ true → M.holding (write_u16 M a v s).1 a ≡ v
  unfolding write_u16
  u16_stores a v s e = F.stored a v s (ok-acknowledged (M.write_register a v s).0 e)

  pub u32_keeps :
      (a v : ℕ) (s : M.State) (r : ℕ)
      → r ≢ a
      → r ≢ a + 1
      → M.holding (write_u32 M a v s).1 r ≡ M.holding s r
  unfolding write_u32
  u32_keeps a v s r h h' = F.kept_two a (high_word v) (low_word v) s r h h'

  pub u32_stores :
      (a v : ℕ) (s : M.State) → (write_u32 M a v s).0 ≡ true → Stands M a v (write_u32 M a v s).1
  unfolding write_u32
  u32_stores a v s e =
      F.stored_two a (high_word v) (low_word v) s
        (ok-acknowledged (M.write_two a (high_word v) (low_word v) s).0 e)

  pub enabling_keeps :
      (flag : Bool) (s : M.State) (r : ℕ)
      → r ≢ reg_remote_ems_enable
      → M.holding (ensure_enabled M flag s).1 r ≡ M.holding s r
  unfolding ensure_enabled
  enabling_keeps true s r h = refl
  enabling_keeps false s r h = u16_keeps reg_remote_ems_enable 1 s r h

  -- The mode register is as it was, or the cap stands.
  abbrev pub CapFirst : ℕ → ℕ → M.State → M.State → Type 0
  CapFirst register cap s t =
      (M.holding t reg_remote_ems_control_mode ≡ M.holding s reg_remote_ems_control_mode)
      ⊎ Stands M register cap t

  module _ (register : ℕ) (d : LpDispatch) (s : M.State)
      (apart : reg_remote_ems_control_mode ≢ register)
      (apart' : reg_remote_ems_control_mode ≢ register + 1) where
    mode_keeps_cap :
        (t : M.State)
        → Stands M register (pos_part d.cap_kw) t
        → Stands M register
            (pos_part d.cap_kw)
            (write_u16 M reg_remote_ems_control_mode (value d.mode) t).1
    mode_keeps_cap t (hi, lo) = (
      u16_keeps _ (value d.mode) t register (λ e. apart (sym e)) ∙ hi,
      u16_keeps _ (value d.mode) t (register + 1) (λ e. apart' (sym e)) ∙ lo,
    )

    pub capped_order :
        CapFirst register (pos_part d.cap_kw) s (apply_capped M (some register) d s).1
    unfolding apply_capped
    capped_order =
        let o = write_u32 M register (pos_part d.cap_kw) s in
        elim (Bool-cases o.0) [
          | inl e ↦
              rw (and_then_continues M o _ e)
                (inr (mode_keeps_cap o.1 (u32_stores register (pos_part d.cap_kw) s e)))
          | inr e ↦
              rw (and_then_stops M o _ e)
                (inl (u32_keeps register (pos_part d.cap_kw) s _ apart apart'))
        ]

    pub capped_success :
        (apply_capped M (some register) d s).0 ≡ true
        → let t = (apply_capped M (some register) d s).1 in
          (M.holding t reg_remote_ems_control_mode ≡ value d.mode)
          × Stands M register (pos_part d.cap_kw) t
    unfolding apply_capped
    capped_success ok =
        let o = write_u32 M register (pos_part d.cap_kw) s in
        elim (Bool-cases o.0) [
          | inl e ↦
              let step =
                and_then_continues M o (write_u16 M reg_remote_ems_control_mode (value d.mode)) e in
              rw step (
                u16_stores _ (value d.mode) o.1 (ap (λ x. x.0) (sym step) ∙ ok),
                mode_keeps_cap o.1 (u32_stores register (pos_part d.cap_kw) s e),
              )
          | inr e ↦ cc (e, ok)
        ]
