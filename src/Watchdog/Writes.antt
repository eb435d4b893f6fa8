-- ===== src/Watchdog/Writes.antt =====
-- One write with its retry.
use energy_optimiser.Prelude.{◌+◌, ◌≢◌, ◌↔◌, ℕ, zero, suc, ◌≡◌, refl, true, ◌⊎◌, arith}
use energy_optimiser.Watchdog.Client.{IsFaithful, Modbus, Reply, acknowledged, refused, raised}
use energy_optimiser.Watchdog.{
  low_word, high_word, write_max_attempts, write_u32_register, write_register, attempts,
}

Reply-cases : (r : Reply) → (r ≡ acknowledged) ⊎ (r ≡ refused) ⊎ (r ≡ raised)
Reply-cases r = ground arith

module _ (M : Modbus) where
  -- A postcondition of the attempts: one that an acknowledged write establishes.
  attempts_done :
      (P : M.State → Type 0) (k : ℕ) (write : M.State → Reply × M.State) (s : M.State)
      → ((t : M.State) → (write t).0 ≡ acknowledged → P (write t).1)
      → (attempts M k write s).0 ≡ true
      → P (attempts M k write s).1
  unfolding attempts
  attempts_done P zero write s h e = cc
  attempts_done P (suc zero) write s h e = ground (arith, h s)
  attempts_done P (suc (suc k)) write s h e =
      ground (arith, h s, attempts_done P (suc k) write (M.connect (write s).1).1 h)

  -- What no attempt and no reconnect changes.
  attempts_keep :
      (f : M.State → ℕ) (k : ℕ) (write : M.State → Reply × M.State) (s : M.State)
      → ((t : M.State) → f (write t).1 ≡ f t)
      → ((t : M.State) → f (M.connect t).1 ≡ f t)
      → f (attempts M k write s).1 ≡ f s
  unfolding attempts
  attempts_keep f zero write s h c = refl
  attempts_keep f (suc zero) write s h c = ground (arith, h s)
  attempts_keep f (suc (suc k)) write s h c =
      ground
        (arith, h s, c (write s).1, attempts_keep f (suc k) write (M.connect (write s).1).1 h c)

module _ (M : Modbus) where
  -- A write succeeds exactly if it is acknowledged at once, or raises, and is acknowledged when it
  -- is tried once more after the reconnect. An error response is never tried again.
  pub write_register_retry :
      (a v : ℕ) (s : M.State)
      → (write_register M a v s).0 ≡ true ↔ (
          ((M.write_register a v s).0 ≡ acknowledged)
          ⊎ ((M.write_register a v s).0 ≡ raised)
            × ((M.write_register a v (M.connect (M.write_register a v s).1).1).0 ≡ acknowledged))
  unfolding write_register
  write_register_retry a v s = ground arith

module _ (M : Modbus) (F : IsFaithful M) where
  pub write_register_stores :
      (a v : ℕ) (s : M.State)
      → (write_register M a v s).0 ≡ true
      → M.holding (write_register M a v s).1 a ≡ v
  unfolding write_register
  write_register_stores a v s =
      attempts_done M (λ t. M.holding t a ≡ v) write_max_attempts (M.write_register a v) s
        (λ t e. F.stored a v t e)

  pub write_register_keeps :
      (a v : ℕ) (s : M.State) (r : ℕ)
      → r ≢ a
      → M.holding (write_register M a v s).1 r ≡ M.holding s r
  unfolding write_register
  write_register_keeps a v s r n =
      attempts_keep M (λ t. M.holding t r) write_max_attempts (M.write_register a v) s
        (λ t. F.kept a v t r n) (λ t. F.connect_keeps t r)

  pub write_u32_register_stores :
      (a v : ℕ) (s : M.State)
      → (write_u32_register M a v s).0 ≡ true
      → (M.holding (write_u32_register M a v s).1 a ≡ high_word v)
        × (M.holding (write_u32_register M a v s).1 (a + 1) ≡ low_word v)
  unfolding write_u32_register
  write_u32_register_stores a v s =
      attempts_done M (λ t. (M.holding t a ≡ high_word v) × (M.holding t (a + 1) ≡ low_word v))
        write_max_attempts (M.write_two a (high_word v) (low_word v)) s
        (λ t e. F.stored_two a (high_word v) (low_word v) t e)

  pub write_u32_register_keeps :
      (a v : ℕ) (s : M.State) (r : ℕ)
      → r ≢ a
      → r ≢ a + 1
      → M.holding (write_u32_register M a v s).1 r ≡ M.holding s r
  unfolding write_u32_register
  write_u32_register_keeps a v s r n m =
      attempts_keep M (λ t. M.holding t r) write_max_attempts
        (M.write_two a (high_word v) (low_word v)) s
        (λ t. F.kept_two a (high_word v) (low_word v) t r n m) (λ t. F.connect_keeps t r)
