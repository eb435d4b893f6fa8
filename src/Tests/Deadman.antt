-- ===== src/Tests/Deadman.antt =====
-- The watchdog over a client whose replies are a script.
use energy_optimiser.Prelude.{
  ℕ, ◌+◌, ◌≡◌, ◌⊎◌, refl, Bool, true, false, none, some, List, [], ◌∷◌, ◌++◌, arith, ◌==◌,
  if◌then◌else◌,
}
use energy_optimiser.Watchdog.Client.{Modbus, IsFaithful, Reply, acknowledged, refused, raised}
use energy_optimiser.Watchdog.{Settings, write_register, write_u32_register, trigger_fallback, run}
use energy_optimiser.Watchdog.Pinned.{IsPinned, trigger_fallback_pins}
use energy_optimiser.Watchdog.Polling.{IsResponsive, run_dead_pins}

abbrev pub Registers : Type 0
Registers = ℕ → ℕ

abbrev pub Device : Type 0
Device = Registers × List Reply

-- The next reply of the script; an exhausted script acknowledges.
abbrev pub next : List Reply → Reply × List Reply
next [] = (acknowledged, [])
next (r ∷ rs) = (r, rs)

abbrev pub stores : Reply → Bool
stores acknowledged = true
stores _ = false

abbrev pub update : Reply → ℕ → ℕ → Registers → Registers
update reply a v regs r = if stores reply then (if r == a then v else regs r) else regs r

abbrev pub scripted : Modbus
scripted = record {
  State = Device;
  holding = λ s r. s.0 r;
  connect = λ s. (acknowledged, s);
  write_register = λ a v s. ((next s.1).0, (update (next s.1).0 a v s.0, (next s.1).1));
  write_two = λ a hi lo s.
      ((next s.1).0, (update (next s.1).0 (a + 1) lo (update (next s.1).0 a hi s.0), (next s.1).1));
}

pub scripted-IsFaithful : IsFaithful scripted
scripted-IsFaithful = record {
  connect_keeps = λ s r. refl;
  stored = λ a v s e. ground arith;
  kept = λ a v s r n. ground arith;
  stored_two = λ a hi lo s e. (ground arith, ground arith);
  kept_two = λ a hi lo s r n m. ground arith;
}

-- A client that always acknowledges.
abbrev willing : Modbus
willing = record {
  State = Registers;
  holding = λ s r. s r;
  connect = λ s. (raised, s);
  write_register = λ a v s. (acknowledged, update acknowledged a v s);
  write_two =
      λ a hi lo s. (acknowledged, update acknowledged (a + 1) lo (update acknowledged a hi s));
}

willing-IsFaithful : IsFaithful willing
willing-IsFaithful = record {
  connect_keeps = λ s r. refl;
  stored = λ a v s e. ground arith;
  kept = λ a v s r n. ground arith;
  stored_two = λ a hi lo s e. (ground arith, ground arith);
  kept_two = λ a hi lo s r n m. ground arith;
}

willing-IsResponsive : IsResponsive willing
willing-IsResponsive = record { one = λ a v s. refl; two = λ a hi lo s. refl }

abbrev pub blank : Registers
blank r = 7

-- The first write raises once; the last-resort write is not needed.
abbrev flaky : Device
flaky = (blank, raised ∷ [])

-- The export limit is refused.
abbrev stubborn : Device
stubborn = (blank, acknowledged ∷ acknowledged ∷ refused ∷ [])

flaky_pins : (trigger_fallback scripted 15_810 flaky).0 ≡ true
unfolding trigger_fallback write_register write_u32_register
flaky_pins = refl

stubborn_disables :
    ((trigger_fallback scripted 15_810 stubborn).0 ≡ true)
    × ((trigger_fallback scripted 15_810 stubborn).1.0 40029 ≡ 0)
unfolding trigger_fallback write_register write_u32_register
stubborn_disables = (refl, refl)

trigger_fallback_pins_example :
    IsPinned 15_810 (scripted.holding (trigger_fallback scripted 15_810 stubborn).1)
    ⊎ (scripted.holding (trigger_fallback scripted 15_810 stubborn).1 40029 ≡ 0)
trigger_fallback_pins_example =
    trigger_fallback_pins scripted scripted-IsFaithful 15_810 stubborn (omega arith)
      stubborn_disables.0

abbrev settings : Settings
settings = record { stale_after = 60_000_000; grace = 120_000_000; max_charge_raw = 15_810 }

run_dead_pins_example : IsPinned 15_810 (
    willing.holding
      (run willing settings 0 (((5, none) ∷ []) ++ ((99_000_000, some 1) ∷ [])) blank).0.1)
run_dead_pins_example =
    run_dead_pins willing willing-IsResponsive willing-IsFaithful settings 0 ((5, none) ∷ [])
      (99_000_000, some 1) blank (omega arith) (omega arith)
