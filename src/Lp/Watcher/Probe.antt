-- ===== src/Lp/Watcher/Probe.antt =====
-- How a latched breaker clears.
use energy_optimiser.Prelude.{ℕ, suc, ◌≤◌, ◌≡◌, true, false, List, [], ◌∷◌, arith}
use energy_optimiser.Lp.Dispatch.{conforms}
use energy_optimiser.Lp.Watcher.{
  Phase, World, Action, judged, falling_back, lock_taken, fallback_returns, tick_latches, act, run,
}
use energy_optimiser.Lp.Watcher.Breaker.{
  IsSound, act-IsSound, initial-IsSound, initial, run-initial-IsSound,
}

-- What an action says of the inverter: it followed its command, or confidence in it was lost.
pub data Mark : Type 0 where
  clean disturbed silent : Mark

abbrev pub mark : Phase → Action → Mark
mark (judged conforms _ _ _) lock_taken = clean
mark (judged _ _ _ _) lock_taken = disturbed
mark (falling_back _) (fallback_returns _) = disturbed
mark _ (tick_latches _ _) = disturbed
mark _ _ = silent

abbrev pub extend : ℕ → Mark → ℕ
extend n clean = suc n
extend n disturbed = 0
extend n silent = n

-- The clean verifications since the last deviation or latch, counted from the history alone.
pub streak : ℕ → World → List Action → ℕ
streak n w [] = n
streak n w (a ∷ rest) = streak (extend n (mark w.phase a)) (act w a).0 rest

abbrev probes : World → ℕ
probes w = w.runtime.breaker.consecutive_clean_probes

probes-act :
    (w : World) (a : Action) (n : ℕ)
    → IsSound w
    → probes w ≤ n
    → probes (act w a).0 ≤ extend n (mark w.phase a)
unfolding act
probes-act w a n h le = ground arith

probes-run :
    (w : World) (actions : List Action) (n : ℕ)
    → IsSound w
    → probes w ≤ n
    → probes (run w actions).0 ≤ streak n w actions
unfolding run streak
probes-run w [] n h le = le
probes-run w (a ∷ rest) n h le =
    probes-run (act w a).0 rest (extend n (mark w.phase a)) (act-IsSound w a h)
      (probes-act w a n h le)

clear_step :
    (w : World) (a : Action) (n : ℕ)
    → IsSound w
    → probes w ≤ n
    → w.runtime.breaker.latched ≡ true
    → (act w a).0.runtime.breaker.latched ≡ false
    → w.runtime.breaker.clean_probe_threshold ≤ extend n (mark w.phase a)
unfolding act
clear_step w a n h le was is_now = ground arith

-- In every interleaving from the start, an action that unlatches the breaker completes a row of
-- at least `clean_probe_threshold` clean verifications with no deviation and no latch among them.
pub clear_needs_streak :
    (actions : List Action) (a : Action)
    → (run initial actions).0.runtime.breaker.latched ≡ true
    → (act (run initial actions).0 a).0.runtime.breaker.latched ≡ false
    → (run initial actions).0.runtime.breaker.clean_probe_threshold
      ≤ extend (streak 0 initial actions) (mark (run initial actions).0.phase a)
clear_needs_streak actions a was is_now =
    clear_step (run initial actions).0 a (streak 0 initial actions) (run-initial-IsSound actions)
      (probes-run initial actions 0 initial-IsSound (omega arith)) was is_now
