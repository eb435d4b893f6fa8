-- ===== src/Lp/Watcher/Deviations.antt =====
-- What sustained deviations lead to, while the tick loop does not interfere.
use energy_optimiser.Prelude.{
  ℕ, ◌+◌, ◌≤◌, ◌<◌, ◌≡◌, ◌≢◌, ◌∙◌, refl, true, false, none, some, List, [], ◌∷◌, ℤ, arith, length,
  All,
}
use energy_optimiser.Lp.Dispatch.{conforms, not_verified, verify_battery_response}
use energy_optimiser.Lp.Runtime.{CommandedState, within_span}
use energy_optimiser.Lp.Watcher.{
  World, waiting, wake, read_returns, lock_taken, fallback_returns, act, run,
}

-- One poll: when it starts, what it measures, and when its fallback would end.
pub record Poll : Type 0 where
  pub now : ℕ
  pub measured : ℤ
  pub fallback_ends : ℕ

-- The poll with nothing in between. The last action is idle if there is no fallback.
pub poll : World → Poll → World
unfolding run
poll w p =
    (run w (
      wake p.now
      ∷ read_returns (some p.measured)
      ∷ lock_taken
      ∷ fallback_returns p.fallback_ends
      ∷ [])).0

pub polls : World → List Poll → World
polls w [] = w
polls w (p ∷ ps) = polls (poll w p) ps

module _ (c : CommandedState) (grace : ℕ) (floor : ℤ) where
  -- The poll starts after the grace period and measures a deviation from the command.
  abbrev pub Deviates : Poll → Type 0
  Deviates p =
      (within_span p.now c.write_timestamp grace ≡ false)
      × (verify_battery_response c.dispatch p.measured floor ≢ conforms)
      × (verify_battery_response c.dispatch p.measured floor ≢ not_verified)

  -- The watcher waits, with the command and its thresholds in force.
  pub record IsWatching (w : World) : Type 0 where
    pub idle : w.phase ≡ waiting
    pub command : w.runtime.commanded ≡ some c
    pub grace_kept : w.runtime.grace_period ≡ grace
    pub floor_kept : w.runtime.deviation_floor_kw ≡ floor

  poll_counts :
      (w : World) (p : Poll)
      → IsWatching w
      → Deviates p
      → w.runtime.breaker.latched ≡ false
      → w.runtime.breaker.consecutive_deviations + 1 < w.runtime.breaker.deviation_threshold_count
      → IsWatching (poll w p)
        × ((poll w p).runtime.breaker.latched ≡ false)
        × ((poll w p).runtime.breaker.deviation_threshold_count
            ≡ w.runtime.breaker.deviation_threshold_count)
        × ((poll w p).runtime.breaker.consecutive_deviations
            ≡ w.runtime.breaker.consecutive_deviations + 1)
  unfolding poll act
  poll_counts w p h d u lt = ground arith

  poll_latches :
      (w : World) (p : Poll)
      → IsWatching w
      → Deviates p
      → w.runtime.breaker.latched ≡ false
      → w.runtime.breaker.deviation_threshold_count ≤ w.runtime.breaker.consecutive_deviations + 1
      → ((poll w p).runtime.breaker.latched ≡ true)
        × ((poll w p).runtime.breaker.latched_at ≡ some p.fallback_ends)
        × ((poll w p).runtime.commanded ≡ none)
  unfolding poll act
  poll_latches w p h d u le = ground arith

  -- An unlatched breaker with some deviations counted latches at the poll that completes its
  -- threshold of deviating polls in a row, and the command is withdrawn.
  pub polls_latch :
      (w : World) (ps : List Poll) (last : Poll)
      → IsWatching w
      → All Deviates ps
      → Deviates last
      → w.runtime.breaker.latched ≡ false
      → w.runtime.breaker.consecutive_deviations + length ps + 1
        ≡ w.runtime.breaker.deviation_threshold_count
      → let after = poll (polls w ps) last in
        (after.runtime.breaker.latched ≡ true)
        × (after.runtime.breaker.latched_at ≡ some last.fallback_ends)
        × (after.runtime.commanded ≡ none)
  unfolding polls
  polls_latch w [] last h ds d u e = poll_latches w last h d u (omega arith)
  polls_latch w (p ∷ ps) last h (dp, ds) d u e =
      let step = poll_counts w p h dp u (omega arith) in
      polls_latch (poll w p) ps last step.0 ds d step.1 (omega arith)

  poll_while_latched :
      (w : World) (p : Poll)
      → IsWatching w
      → Deviates p
      → w.runtime.breaker.latched ≡ true
      → IsWatching (poll w p)
        × ((poll w p).runtime.breaker.latched ≡ true)
        × ((poll w p).runtime.breaker.latched_at ≡ w.runtime.breaker.latched_at)
  unfolding poll act
  poll_while_latched w p h d l = ground arith

  -- While the breaker is latched and a probe's command is in force, deviating polls, however
  -- many, neither withdraw the command nor move the latch time from which the cooldown counts.
  pub polls_while_latched :
      (w : World) (ps : List Poll)
      → IsWatching w
      → All Deviates ps
      → w.runtime.breaker.latched ≡ true
      → ((polls w ps).runtime.commanded ≡ some c)
        × ((polls w ps).runtime.breaker.latched ≡ true)
        × ((polls w ps).runtime.breaker.latched_at ≡ w.runtime.breaker.latched_at)
  unfolding polls
  polls_while_latched w [] h ds l = (h.command, l, refl)
  polls_while_latched w (p ∷ ps) h (dp, ds) l =
      let step = poll_while_latched w p h dp l in
      let rest = polls_while_latched (poll w p) ps step.0 ds step.1 in
      (rest.0, rest.1, rest.2 ∙ step.2)
