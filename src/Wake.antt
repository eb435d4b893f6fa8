-- ===== src/Wake.antt =====
-- src/optimiser/wake_loop.py: the wake times and the loop that runs a target at them. The loop and
-- its tasks run on one event loop: an action is what happens between two suspensions. Instants of
-- the clock are in microseconds from the epoch, wake times in seconds.
pub mod Aligned
pub mod Overlap
pub mod Stopping
use energy_optimiser.Prelude.{
  ℕ, zero, suc, ◌+◌, ◌*◌, ◌/◌, ◌==◌, Bool, true, false, not, ◌&&◌, List, [], ◌∷◌, ◌++◌, map, ℤ, pos,
  ◌+ℤ◌, ◌-ℤ◌, scale, floor_div, ltb_ℤ, if◌then◌else◌,
}

-- `int(now.timestamp())`
abbrev pub epoch_s : ℕ → ℤ
epoch_s now = pos (now / 1_000_000)

unfoldable pub next_aligned_wake : ℕ → ℕ → ℤ → ℤ
next_aligned_wake period_s now offset_s =
    let k = floor_div (epoch_s now -ℤ offset_s) period_s +ℤ pos 1 in offset_s +ℤ scale period_s k

-- A task that runs `_wrapped`: it waits to be run for the first time, or it is in the target.
pub record Task : Type 0 where
  pub scheduled_at : ℤ
  pub started : Bool
  pub cancelled : Bool

pub data Phase : Type 0 where
  at_top stopped : Phase
  sleeping : ℤ → Phase

pub record WakeLoop : Type 0 where
  pub period_s : ℕ
  pub offset_s : ℤ
  pub phase : Phase
  pub running : Bool
  pub task_in_flight : Bool
  pub tasks : List Task

-- The loop as `run` enters it.
abbrev pub new : ℕ → ℤ → WakeLoop
new period_s offset_s = record {
  period_s = period_s;
  offset_s = offset_s;
  phase = at_top;
  running = true;
  task_in_flight = false;
  tasks = [];
}

pub data Event : Type 0 where
  tick_overrun : ℤ → Event

abbrev pub cancel_task : Task → Task
cancel_task t = record t { cancelled = true }

-- The end of `run`: the tasks in flight are cancelled.
unfoldable pub shut_down : WakeLoop → WakeLoop
shut_down w = record w { phase = stopped; tasks = map cancel_task w.tasks }

-- The rest of an iteration, from the second test of `_running` on.
unfoldable pub fire : ℤ → WakeLoop → WakeLoop × List Event
fire next_wake w =
    if not w.running
    then (shut_down w, [])
    else if w.task_in_flight
    then (record w { phase = at_top }, tick_overrun next_wake ∷ [])
    else (
      record w {
        phase = at_top;
        tasks =
            w.tasks
            ++ (record { scheduled_at = next_wake; started = false; cancelled = false } ∷ []);
      },
      [],
    )

-- An iteration up to its sleep. It reads the clock twice: for the wake time and for the delay.
unfoldable pub iterate : ℕ → ℕ → WakeLoop → WakeLoop × List Event
iterate now later w =
    let next_wake = next_aligned_wake w.period_s now w.offset_s in
    if not w.running
    then (shut_down w, [])
    else if ltb_ℤ (pos later) (scale 1_000_000 next_wake)
    then (record w { phase = sleeping next_wake }, [])
    else fire next_wake w

abbrev pub all_started : List Task → Bool
all_started [] = true
all_started (t ∷ ts) = t.started && all_started ts

-- The event loop runs the oldest task that has not run yet; a cancelled one is never entered.
unfoldable pub begin_task : List Task → Bool → List Task × Bool
begin_task [] in_flight = ([], in_flight)
begin_task (t ∷ ts) in_flight =
    let rest = begin_task ts in_flight in
    if t.started
    then (t ∷ rest.0, rest.1)
    else if t.cancelled
    then (ts, in_flight)
    else (record t { started = true } ∷ ts, true)

-- The target of a task is over, by return or by an exception.
unfoldable pub finish_task : ℕ → List Task → Bool → List Task × Bool
finish_task i [] in_flight = ([], in_flight)
finish_task zero (t ∷ ts) in_flight = if t.started then (ts, false) else (t ∷ ts, in_flight)
finish_task (suc i) (t ∷ ts) in_flight =
    let rest = finish_task i ts in_flight in (t ∷ rest.0, rest.1)

pub data Action : Type 0 where
  iteration : ℕ → ℕ → Action
  sleep_over sleep_cancelled begin stop : Action
  finish : ℕ → Action

abbrev pub with_tasks : WakeLoop → List Task × Bool → WakeLoop
with_tasks w (tasks, in_flight) = record w { tasks = tasks; task_in_flight = in_flight }

-- While `run` is at the top of its loop nothing else runs. A sleep that is over resumes after the
-- tasks that were created before it.
unfoldable pub act_in : Phase → Action → WakeLoop → WakeLoop × List Event
act_in at_top (iteration now later) w = iterate now later w
act_in at_top _ w = (w, [])
act_in (sleeping next_wake) sleep_over w = if all_started w.tasks then fire next_wake w else (w, [])
act_in (sleeping _) sleep_cancelled w = (shut_down w, [])
act_in _ begin w = (with_tasks w (begin_task w.tasks w.task_in_flight), [])
act_in _ (finish i) w = (with_tasks w (finish_task i w.tasks w.task_in_flight), [])
act_in _ stop w = (record w { running = false }, [])
act_in _ _ w = (w, [])

unfoldable pub act : Action → WakeLoop → WakeLoop × List Event
unfolding act_in
act a w = act_in w.phase a w

unfoldable pub run : List Action → WakeLoop → WakeLoop × List Event
run [] w = (w, [])
run (a ∷ actions) w =
    let (w', events) = act a w in let (w'', later) = run actions w' in (w'', events ++ later)
