-- ===== src/Tests/Clock.antt =====
-- Wake loops at concrete instants.
use energy_optimiser.Prelude.{
  floor_div, ◌-ℤ◌, ◌+ℤ◌, ◌≡◌, refl, false, List, [], ◌∷◌, pos, negsuc, arith, scale, length,
}
use energy_optimiser.Wake.{
  next_aligned_wake, WakeLoop, Action, iteration, sleep_over, begin, finish, stop, run, new,
  tick_overrun, act, act_in, iterate, fire, begin_task, finish_task, shut_down,
}
use energy_optimiser.Wake.Overlap.{run-Exclusive, Exclusive}

-- Half past the second minute, in a period of five minutes.
next_wake_420 : next_aligned_wake 300 420_500_000 (pos 150) ≡ pos 450
unfolding next_aligned_wake ◌+ℤ◌ ◌-ℤ◌ scale floor_div
next_wake_420 = refl

next_wake_offset : next_aligned_wake 300 20_000_000 (negsuc 29) ≡ pos 270
unfolding next_aligned_wake ◌+ℤ◌ ◌-ℤ◌ scale floor_div
next_wake_offset = refl

-- The target of the first minute still runs at the second one.
abbrev slow_target : List Action
slow_target =
    iteration 59_000_000 59_000_010
    ∷ sleep_over
    ∷ iteration 60_000_020 60_000_030
    ∷ begin
    ∷ sleep_over
    ∷ iteration 120_000_020 120_000_030
    ∷ finish 0
    ∷ stop
    ∷ sleep_over
    ∷ []

slow_target_overruns : (run slow_target (new 60 (pos 0))).1 ≡ tick_overrun (pos 120) ∷ []
unfolding run act act_in iterate fire begin_task finish_task shut_down next_aligned_wake ◌+ℤ◌ ◌-ℤ◌
    scale floor_div
slow_target_overruns = refl

-- The clock passes a wake time between the two readings of an iteration, twice in a row.
abbrev stalled : List Action
stalled =
    iteration 59_000_000 60_000_010
    ∷ iteration 60_000_020 120_000_030
    ∷ iteration 120_000_040 120_000_050
    ∷ begin
    ∷ begin
    ∷ []

stalled_overlaps : length (run stalled (new 60 (pos 0))).0.tasks ≡ 2
unfolding run act act_in iterate fire begin_task finish_task shut_down next_aligned_wake ◌+ℤ◌ ◌-ℤ◌
    scale floor_div
stalled_overlaps = refl

run-Exclusive_example : Exclusive (run slow_target (new 60 (pos 0))).0
unfolding run act act_in iterate fire begin_task finish_task shut_down next_aligned_wake ◌+ℤ◌ ◌-ℤ◌
    scale floor_div
run-Exclusive_example =
    run-Exclusive slow_target (new 60 (pos 0))
      (omega arith, (tt, (omega arith, (tt, (tt, (omega arith, (tt, (tt, (tt, tt))))))))) refl

abbrev stopped_loop : WakeLoop
stopped_loop = record (new 60 (pos 0)) { running = false }
