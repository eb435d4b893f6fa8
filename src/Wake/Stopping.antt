-- ===== src/Wake/Stopping.antt =====
-- A wake loop that was stopped.
use energy_optimiser.Prelude.{
  ℕ, zero, suc, ◌≡◌, refl, false, List, [], ◌∷◌, ℤ, arith, Bool, map, length, ◌≤◌, Bool-cases, inl,
  inr, ap,
}
use energy_optimiser.Wake.{
  Task, WakeLoop, Phase, at_top, sleeping, stopped, fire, iterate, shut_down, begin_task,
  finish_task, Action, iteration, sleep_over, sleep_cancelled, begin, finish, stop, act, act_in,
  run, all_started, cancel_task,
}

begin-length : (ts : List Task) (f : Bool) → length (begin_task ts f).0 ≤ length ts
unfolding begin_task
begin-length [] f = omega arith
begin-length (t ∷ ts) f = ground (arith, begin-length ts f)

finish-length : (i : ℕ) (ts : List Task) (f : Bool) → length (finish_task i ts f).0 ≤ length ts
unfolding finish_task
finish-length i [] f = omega arith
finish-length zero (t ∷ ts) f = ground arith
finish-length (suc i) (t ∷ ts) f = omega (arith, finish-length i ts f)

length-cancel : (ts : List Task) → length (map cancel_task ts) ≡ length ts
length-cancel [] = refl
length-cancel (t ∷ ts) = ap suc (length-cancel ts)

-- Of a loop that was stopped: it stays so, and has at most n tasks.
abbrev Winds : ℕ → WakeLoop → Type 0
Winds n w = (w.running ≡ false) × (length w.tasks ≤ n)

shut_down-Winds : (n : ℕ) (w : WakeLoop) → Winds n w → Winds n (shut_down w)
unfolding shut_down
shut_down-Winds n w (r, h) = (r, omega (arith, h, length-cancel w.tasks))

fire-Winds : (n : ℕ) (t : ℤ) (w : WakeLoop) → Winds n w → Winds n (fire t w).0
unfolding fire
fire-Winds n t w (r, h) = ground (arith, r, shut_down-Winds n w (r, h))

iterate-Winds : (n now later : ℕ) (w : WakeLoop) → Winds n w → Winds n (iterate now later w).0
unfolding iterate
iterate-Winds n now later w (r, h) = ground (arith, r, shut_down-Winds n w (r, h))

act_in-Winds :
    (n : ℕ) (phase : Phase) (a : Action) (w : WakeLoop) → Winds n w → Winds n (act_in phase a w).0
unfolding act_in
act_in-Winds n at_top (iteration now later) w h = iterate-Winds n now later w h
act_in-Winds n (sleeping t) sleep_over w h = elim (Bool-cases (all_started w.tasks)) [
  | inl e ↦ rw e (fire-Winds n t w h)
  | inr e ↦ rw e h
]
act_in-Winds n (sleeping _) sleep_cancelled w h = shut_down-Winds n w h
act_in-Winds n (sleeping _) begin w h =
    (h.0, omega (arith, h.1, begin-length w.tasks w.task_in_flight))
act_in-Winds n stopped begin w h = (h.0, omega (arith, h.1, begin-length w.tasks w.task_in_flight))
act_in-Winds n (sleeping _) (finish i) w h =
    (h.0, omega (arith, h.1, finish-length i w.tasks w.task_in_flight))
act_in-Winds n stopped (finish i) w h =
    (h.0, omega (arith, h.1, finish-length i w.tasks w.task_in_flight))
act_in-Winds n (sleeping _) stop w h = (refl, h.1)
act_in-Winds n stopped stop w h = (refl, h.1)
act_in-Winds n _ _ w h = h

-- Once `stop` was called the loop stays stopped, and its tasks never become more, whatever happens
-- next.
pub run_stopped :
    (actions : List Action) (w : WakeLoop) (n : ℕ)
    → w.running ≡ false
    → length w.tasks ≤ n
    → ((run actions w).0.running ≡ false) × (length (run actions w).0.tasks ≤ n)
unfolding run act
run_stopped [] w n r h = (r, h)
run_stopped (a ∷ actions) w n r h =
    let after = act_in-Winds n w.phase a w (r, h) in
    run_stopped actions (act a w).0 n after.0 after.1
