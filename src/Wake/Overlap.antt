-- ===== src/Wake/Overlap.antt =====
-- Which tasks of a wake loop run, and when.
use energy_optimiser.Prelude.{
  ℕ, zero, suc, ◌≡◌, refl, true, false, List, [], ◌∷◌, ℤ, pos, ◌<ℤ◌, scale, arith, Bool, map,
  Bool-cases, inl, inr,
}
use energy_optimiser.Wake.{
  next_aligned_wake, Task, WakeLoop, Phase, at_top, sleeping, stopped, fire, iterate, shut_down,
  begin_task, finish_task, Action, iteration, sleep_over, sleep_cancelled, begin, finish, act,
  act_in, run, all_started, cancel_task,
}

-- At most one task, and the flag says whether it has been entered.
abbrev pub IsExclusive : List Task → Bool → Type 0
IsExclusive [] in_flight = in_flight ≡ false
IsExclusive (t ∷ []) in_flight = in_flight ≡ t.started
IsExclusive (_ ∷ _ ∷ _) in_flight = ⊥

abbrev pub Exclusive : WakeLoop → Type 0
Exclusive w = IsExclusive w.tasks w.task_in_flight

-- An iteration computes its delay before the wake time that it has computed.
abbrev pub IsPrompt : WakeLoop → Action → Type 0
IsPrompt w (iteration now later) =
    pos later <ℤ scale 1_000_000 (next_aligned_wake w.period_s now w.offset_s)
IsPrompt w _ = Unit

abbrev pub AllPrompt : List Action → WakeLoop → Type 0
AllPrompt [] w = Unit
AllPrompt (a ∷ actions) w = IsPrompt w a × AllPrompt actions (act a w).0

begin-Exclusive :
    (ts : List Task) (f : Bool)
    → IsExclusive ts f
    → IsExclusive (begin_task ts f).0 (begin_task ts f).1
unfolding begin_task
begin-Exclusive [] f h = h
begin-Exclusive (t ∷ []) f h = ground (arith, h)
begin-Exclusive (t ∷ _ ∷ _) f h = elim h [ ]

finish-Exclusive :
    (i : ℕ) (ts : List Task) (f : Bool)
    → IsExclusive ts f
    → IsExclusive (finish_task i ts f).0 (finish_task i ts f).1
unfolding finish_task
finish-Exclusive i [] f h = h
finish-Exclusive zero (t ∷ []) f h = ground (arith, h)
finish-Exclusive (suc i) (t ∷ []) f h = h
finish-Exclusive zero (t ∷ _ ∷ _) f h = elim h [ ]
finish-Exclusive (suc i) (t ∷ _ ∷ _) f h = elim h [ ]

cancel-Exclusive :
    (ts : List Task) (f : Bool) → IsExclusive ts f → IsExclusive (map cancel_task ts) f
cancel-Exclusive [] f h = h
cancel-Exclusive (t ∷ []) f h = h
cancel-Exclusive (t ∷ _ ∷ _) f h = elim h [ ]

shut_down-Exclusive : (w : WakeLoop) → Exclusive w → Exclusive (shut_down w)
unfolding shut_down
shut_down-Exclusive w h = cancel-Exclusive w.tasks w.task_in_flight h

none_in_flight : (ts : List Task) → all_started ts ≡ true → IsExclusive ts false → ts ≡ []
none_in_flight [] e h = refl
none_in_flight (t ∷ []) e h = ground (arith, e, h)
none_in_flight (t ∷ _ ∷ _) e h = elim h [ ]

-- With every task entered, the flag tells whether there is one.
fire-Exclusive :
    (next_wake : ℤ) (w : WakeLoop)
    → all_started w.tasks ≡ true
    → Exclusive w
    → Exclusive (fire next_wake w).0
unfolding fire
fire-Exclusive next_wake w e h =
    ground (arith, e, h, shut_down-Exclusive w h, none_in_flight w.tasks e)

iterate-Exclusive :
    (now later : ℕ) (w : WakeLoop)
    → IsPrompt w (iteration now later)
    → Exclusive w
    → Exclusive (iterate now later w).0
unfolding iterate
iterate-Exclusive now later w p h = ground (arith, p, h, shut_down-Exclusive w h)

act_in-Exclusive :
    (phase : Phase) (a : Action) (w : WakeLoop)
    → IsPrompt w a
    → Exclusive w
    → Exclusive (act_in phase a w).0
unfolding act_in
act_in-Exclusive at_top (iteration now later) w p h = iterate-Exclusive now later w p h
act_in-Exclusive (sleeping t) sleep_over w p h = elim (Bool-cases (all_started w.tasks)) [
  | inl e ↦ rw e (fire-Exclusive t w e h)
  | inr e ↦ rw e h
]
act_in-Exclusive (sleeping _) sleep_cancelled w p h = shut_down-Exclusive w h
act_in-Exclusive (sleeping _) begin w p h = begin-Exclusive w.tasks w.task_in_flight h
act_in-Exclusive stopped begin w p h = begin-Exclusive w.tasks w.task_in_flight h
act_in-Exclusive (sleeping _) (finish i) w p h = finish-Exclusive i w.tasks w.task_in_flight h
act_in-Exclusive stopped (finish i) w p h = finish-Exclusive i w.tasks w.task_in_flight h
act_in-Exclusive _ _ w p h = h

-- As long as every iteration computes its delay before its wake time, there is at most one task,
-- whatever the order of wakes, starts, ends and stops, and the flag says whether its target runs.
pub run-Exclusive :
    (actions : List Action) (w : WakeLoop)
    → AllPrompt actions w
    → Exclusive w
    → Exclusive (run actions w).0
unfolding run act
run-Exclusive [] w p h = h
run-Exclusive (a ∷ actions) w (p, ps) h =
    run-Exclusive actions (act a w).0 ps (act_in-Exclusive w.phase a w p h)
