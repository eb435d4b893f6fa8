-- ===== src/Watchdog/Polling.antt =====
-- When the watchdog acts, over any sequence of polls.
use energy_optimiser.Prelude.{
  ◌∙◌, ℕ, ◌+◌, ◌^◌, ◌<◌, ◌≤◌, ◌≡◌, refl, Bool, true, false, Option, none, some, List, [], ◌∷◌, ◌++◌,
  arith, All,
}
use energy_optimiser.Watchdog.Client.{Modbus, IsFaithful, acknowledged}
use energy_optimiser.Watchdog.{
  low_word, high_word, Settings, trigger_fallback, write_register, write_u32_register, poll,
  poll_all, run,
}
use energy_optimiser.Watchdog.Pinned.{IsPinned, enabled-IsPinned, enabled}

-- The heartbeat has stopped: the file is older than allowed, or is missing after the grace time.
abbrev pub IsDead : Settings → ℕ → ℕ × Option ℕ → Type 0
IsDead c startup (now, none) = startup + c.grace ≤ now
IsDead c startup (now, some mtime) = mtime + c.stale_after < now

-- The client acknowledges every write at once.
pub record IsResponsive (M : Modbus) : Type 0 where
  pub one : (a v : ℕ) (s : M.State) → (M.write_register a v s).0 ≡ acknowledged
  pub two : (a hi lo : ℕ) (s : M.State) → (M.write_two a hi lo s).0 ≡ acknowledged

module _ (M : Modbus) (c : Settings) (startup : ℕ) where
  poll_dead :
      (seen : ℕ × Option ℕ) (was : Bool) (s : M.State)
      → IsDead c startup seen
      → (poll M c startup seen (was, s)).0 ≡ (true, (trigger_fallback M c.max_charge_raw s).1)
  unfolding poll
  poll_dead (now, none) was s h = ground arith
  poll_dead (now, some mtime) was s h = ground arith

  poll_alive :
      (seen : ℕ × Option ℕ) (was : Bool) (s : M.State)
      → ¬ IsDead c startup seen
      → (poll M c startup seen (was, s)).0 ≡ (false, s)
  unfolding poll
  poll_alive (now, none) was s h = ground arith
  poll_alive (now, some mtime) was s h = ground arith

  poll_all_fresh :
      (seen : List (ℕ × Option ℕ)) (was : Bool) (s : M.State)
      → All (λ p. ¬ IsDead c startup p) seen
      → (poll_all M c startup seen (was, s)).0.1 ≡ s
  unfolding poll_all
  poll_all_fresh [] was s h = refl
  poll_all_fresh (p ∷ ps) was s (h, hs) = rw (poll_alive p was s h) (poll_all_fresh ps false s hs)

  poll_all-append :
      (ps qs : List (ℕ × Option ℕ)) (w : Bool × M.State)
      → (poll_all M c startup (ps ++ qs) w).0
        ≡ (poll_all M c startup qs (poll_all M c startup ps w).0).0
  unfolding poll_all
  poll_all-append [] qs w = refl
  poll_all-append (p ∷ ps) qs w = poll_all-append ps qs (poll M c startup p w).0

  -- As long as the heartbeat is alive at every poll, the watchdog writes nothing: the client is
  -- left as its first connect made it.
  pub run_alive :
      (seen : List (ℕ × Option ℕ)) (s : M.State)
      → All (λ p. ¬ IsDead c startup p) seen
      → (run M c startup seen s).0.1 ≡ (M.connect s).1
  unfolding run
  run_alive seen s h = poll_all_fresh seen false (M.connect s).1 h

  -- A poll that finds the heartbeat dead runs the fallback, whatever the polls before it did, and
  -- again at every such poll.
  pub run_dead :
      (seen : List (ℕ × Option ℕ)) (last : ℕ × Option ℕ) (s : M.State)
      → IsDead c startup last
      → (run M c startup (seen ++ (last ∷ [])) s).0
        ≡ (true, (trigger_fallback M c.max_charge_raw (run M c startup seen s).0.1).1)
  unfolding run poll_all
  run_dead seen last s h =
      poll_all-append seen (last ∷ []) (false, (M.connect s).1) ∙ poll_dead last _ _ h

module _ (M : Modbus) (R : IsResponsive M) where
  write_register_ok : (a v : ℕ) (s : M.State) → (write_register M a v s).0 ≡ true
  unfolding write_register
  write_register_ok a v s = ground (arith, R.one a v s)

  write_u32_register_ok : (a v : ℕ) (s : M.State) → (write_u32_register M a v s).0 ≡ true
  unfolding write_u32_register
  write_u32_register_ok a v s = ground (arith, R.two a (high_word v) (low_word v) s)

  trigger_fallback_state :
      (F : IsFaithful M) (max : ℕ) (s : M.State) → (trigger_fallback M max s).1 ≡ enabled M F max s
  unfolding trigger_fallback
  trigger_fallback_state F max s = simp (write_u32_register_ok, write_register_ok)

  trigger_fallback-IsPinned :
      (F : IsFaithful M) (max : ℕ) (s : M.State)
      → max < 2 ^ 32
      → IsPinned max (M.holding (trigger_fallback M max s).1)
  trigger_fallback-IsPinned F max s small = rw (trigger_fallback_state F max s) (
      enabled-IsPinned M F max s small (write_u32_register_ok _ _ _) (write_register_ok _ _ _)
        (write_u32_register_ok _ _ _) (write_register_ok _ _ _))

  -- With a client that acknowledges every write, the safe state is pinned after each poll that
  -- finds the heartbeat dead, whatever the registers held and the polls before it did.
  pub run_dead_pins :
      (F : IsFaithful M) (c : Settings) (startup : ℕ) (seen : List (ℕ × Option ℕ))
      (last : ℕ × Option ℕ) (s : M.State)
      → c.max_charge_raw < 2 ^ 32
      → IsDead c startup last
      → IsPinned c.max_charge_raw (M.holding (run M c startup (seen ++ (last ∷ [])) s).0.1)
  run_dead_pins F c startup seen last s small dead =
      rw (run_dead M c startup seen last s dead) (trigger_fallback-IsPinned F _ _ small)
