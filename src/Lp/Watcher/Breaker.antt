-- ===== src/Lp/Watcher/Breaker.antt =====
-- What holds of the breaker in every interleaving of the watcher with the tick loop.
use energy_optimiser.Prelude.{
  ℕ, ◌<◌, ◌≡◌, ◌≢◌, refl, Bool, true, false, Option, none, some, List, [], ◌∷◌, ℤ, arith,
}
use energy_optimiser.Lp.Dispatch.{DeviationKind, conforms}
use energy_optimiser.Lp.Runtime.{CommandedState, default_runtime}
use energy_optimiser.Lp.Watcher.{
  Phase, World, Action, waiting, reading, judged, falling_back, wake, read_returns, lock_taken,
  fallback_returns, begin_poll, finish_read, handle, finish_fallback, act_in, act, run,
}

-- What the running poll saw of the latch.
abbrev pub saw_latched : Phase → Bool
saw_latched (reading _ latched) = latched
saw_latched (judged _ _ latched _) = latched
saw_latched _ = false

abbrev pub in_fallback : Phase → Bool
in_fallback (falling_back _) = true
in_fallback _ = false

pub record IsSound (w : World) : Type 0 where
  pub deviations_counted : 0 < w.runtime.breaker.deviation_threshold_count
  pub probes_counted : 0 < w.runtime.breaker.clean_probe_threshold
  pub unlatched_idle :
      w.runtime.breaker.latched ≡ false → w.runtime.breaker.consecutive_clean_probes ≡ 0
  pub unlatched_undated : w.runtime.breaker.latched ≡ false → w.runtime.breaker.latched_at ≡ none
  pub latched_dated : w.runtime.breaker.latched ≡ true → w.runtime.breaker.latched_at ≢ none
  pub probes_below :
      w.runtime.breaker.consecutive_clean_probes < w.runtime.breaker.clean_probe_threshold
  pub deviations_below :
      w.runtime.breaker.latched ≡ false
      → in_fallback w.phase ≡ false
      → w.runtime.breaker.consecutive_deviations < w.runtime.breaker.deviation_threshold_count
  pub snapshot_holds : saw_latched w.phase ≡ true → w.runtime.breaker.latched ≡ true

module _ (w : World) (h : IsSound w) where
  begin_poll-IsSound : (now : ℕ) → w.phase ≡ waiting → IsSound (begin_poll now w)
  unfolding begin_poll
  begin_poll-IsSound now e = ground arith

  finish_read-IsSound :
      (measured : Option ℤ) (c : CommandedState) (latched : Bool)
      → w.phase ≡ reading c latched
      → IsSound (finish_read measured c latched w)
  unfolding finish_read
  finish_read-IsSound none c latched e = ground arith
  finish_read-IsSound (some m) c latched e = ground arith

  handle-IsSound :
      (outcome : DeviationKind) (c : CommandedState) (latched : Bool) (m : ℤ)
      → w.phase ≡ judged outcome c latched m
      → IsSound (handle outcome c latched m w).0
  unfolding handle
  handle-IsSound conforms c latched m e = ground arith
  handle-IsSound _ c latched m e = ground arith

  finish_fallback-IsSound :
      (now : ℕ) (outcome : DeviationKind) → IsSound (finish_fallback now outcome w).0
  unfolding finish_fallback
  finish_fallback-IsSound now outcome = ground arith

act_in-IsSound :
    (p : Phase) (a : Action) (w : World) → w.phase ≡ p → IsSound w → IsSound (act_in p a w).0
unfolding act
act_in-IsSound waiting (wake now) w e h = begin_poll-IsSound w h now e
act_in-IsSound (reading c latched) (read_returns m) w e h = finish_read-IsSound w h m c latched e
act_in-IsSound (judged outcome c latched m) lock_taken w e h =
    handle-IsSound w h outcome c latched m e
act_in-IsSound (falling_back outcome) (fallback_returns now) w e h =
    finish_fallback-IsSound w h now outcome
act_in-IsSound _ _ w e h = ground arith

pub act-IsSound : (w : World) (a : Action) → IsSound w → IsSound (act w a).0
unfolding act
act-IsSound w a h = act_in-IsSound w.phase a w refl h

pub run-IsSound : (w : World) (actions : List Action) → IsSound w → IsSound (run w actions).0
unfolding run
run-IsSound w [] h = h
run-IsSound w (a ∷ rest) h = run-IsSound (act w a).0 rest (act-IsSound w a h)

abbrev pub initial : World
initial = record { runtime = default_runtime; phase = waiting }

pub initial-IsSound : IsSound initial
initial-IsSound = ground arith

-- In every interleaving of polls, commands and latches from the start: an unlatched breaker has
-- no latch time and no clean probes, a latched one has a time. The clean probes stay below their
-- threshold, and the deviations of an unlatched breaker below theirs unless the watcher is inside
-- the fallback. What a running poll saw latched is still latched.
pub run-initial-IsSound : (actions : List Action) → IsSound (run initial actions).0
run-initial-IsSound actions = run-IsSound initial actions initial-IsSound
