-- ===== src/Watchdog/Client.antt =====
-- The pymodbus client that the watchdog and the controller use, as far as they rely on it.
use energy_optimiser.Prelude.{ℕ, ◌+◌, ◌≡◌, ◌≢◌}

-- A call returns a response, returns one with `isError()`, or raises.
pub data Reply : Type 0 where
  acknowledged refused raised : Reply

pub record Modbus : Type 1 where
  pub State : Type 0
  -- What the holding registers of the inverter contain.
  pub holding : State → ℕ → ℕ
  pub connect : State → Reply × State
  pub write_register : ℕ → ℕ → State → Reply × State
  pub write_two : ℕ → ℕ → ℕ → State → Reply × State

-- An acknowledged write is stored. No write, whatever its reply, touches another register, and
-- connecting touches none.
pub record IsFaithful (M : Modbus) : Type 0 where
  pub connect_keeps : (s : M.State) (r : ℕ) → M.holding (M.connect s).1 r ≡ M.holding s r
  pub stored :
      (a v : ℕ) (s : M.State)
      → (M.write_register a v s).0 ≡ acknowledged
      → M.holding (M.write_register a v s).1 a ≡ v
  pub kept :
      (a v : ℕ) (s : M.State) (r : ℕ)
      → r ≢ a
      → M.holding (M.write_register a v s).1 r ≡ M.holding s r
  pub stored_two :
      (a hi lo : ℕ) (s : M.State)
      → (M.write_two a hi lo s).0 ≡ acknowledged
      → (M.holding (M.write_two a hi lo s).1 a ≡ hi)
        × (M.holding (M.write_two a hi lo s).1 (a + 1) ≡ lo)
  pub kept_two :
      (a hi lo : ℕ) (s : M.State) (r : ℕ)
      → r ≢ a
      → r ≢ a + 1
      → M.holding (M.write_two a hi lo s).1 r ≡ M.holding s r
