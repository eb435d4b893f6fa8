-- ===== src/Modes/Upkeep.antt =====
-- What every call keeps of the manager and of its file.
use Prim.Native.String.{String}
use energy_optimiser.Prelude.{ℕ, ◌≡◌, ◌⊎◌, inl, inr, List, [], ◌∷◌, ℤ, arith}
use energy_optimiser.Modes.Values.{put-NodupKeys, remove-NodupKeys, Result, ok}
use energy_optimiser.Modes.{
  ActiveMode, ModeManager, Outcome, name, Python, persist, activate, cancel, active, to_overrides,
  prune_soc_reached,
}
use energy_optimiser.Modes.Restart.{unexpired-NodupKeys}
use energy_optimiser.Modes.Expiry.{
  IsKeyed, put-IsNamed, remove-IsNamed, unexpired-IsNamed, active_lem,
}

-- A call of the service or of the API, with the time or the state of charge that it reads.
pub data Call : Type 0 where
  activates : ActiveMode → Call
  cancels : String → Call
  asks : ℕ → Call
  plans : ℕ → List ℕ → Call
  prunes : ℤ → Call

-- An exception leaves the manager as it was.
abbrev settled : Result Outcome → ModeManager → ModeManager
settled (ok (m', _)) m = m'
settled _ m = m

module _ (P : Python) where
  pub after : ModeManager → Call → ModeManager
  after m (activates mode) = (activate P mode m).0
  after m (cancels kind) = (cancel P kind m).0.0
  after m (asks now) = (active P now m).0.0
  after m (plans now slots) = (to_overrides P now slots m).0.0
  after m (prunes soc) = settled (prune_soc_reached P soc m) m

  pub run : ModeManager → List Call → ModeManager
  run m [] = m
  run m (c ∷ cs) = run (after m c) cs

  active-IsKeyed : (now : ℕ) (m : ModeManager) → IsKeyed m → IsKeyed (active P now m).0.0
  active-IsKeyed now m h =
      let e = (active_lem P now m h.distinct).0 in
      record {
        distinct = rw e (unexpired-NodupKeys now m.modes h.distinct);
        named = rw e (unexpired-IsNamed now m.modes h.named);
      }

  after-IsKeyed : (m : ModeManager) (c : Call) → IsKeyed m → IsKeyed (after m c)
  unfolding after activate cancel to_overrides prune_soc_reached persist
  after-IsKeyed m (activates mode) h = record {
    distinct = put-NodupKeys (name mode.kind) mode m.modes h.distinct;
    named = put-IsNamed mode m.modes h.named;
  }
  after-IsKeyed m (cancels kind) h =
      ground (arith, remove-NodupKeys kind m.modes h.distinct, remove-IsNamed kind m.modes h.named)
  after-IsKeyed m (asks now) h = active-IsKeyed now m h
  after-IsKeyed m (plans now slots) h = active-IsKeyed now m h
  after-IsKeyed m (prunes soc) h =
      ground
        (arith, remove-NodupKeys "buy" m.modes h.distinct, remove-IsNamed "buy" m.modes h.named)

  -- A call leaves the manager alone, or its file holds the modes that it leaves.
  after_written :
      (m : ModeManager) (c : Call) → (after m c ≡ m) ⊎ (persist P (after m c) ≡ after m c)
  unfolding after activate cancel to_overrides active prune_soc_reached persist
  after_written m (activates mode) = ground arith
  after_written m (cancels kind) = ground arith
  after_written m (asks now) = ground arith
  after_written m (plans now slots) = ground arith
  after_written m (prunes soc) = ground arith

  -- From a manager whose keys are its modes' kinds, each once, and whose file holds its modes, any
  -- sequence of calls leads to such a manager again: what a restart reads is what is in memory.
  pub run-IsKeyed :
      (m : ModeManager) (cs : List Call)
      → IsKeyed m
      → persist P m ≡ m
      → IsKeyed (run m cs) × (persist P (run m cs) ≡ run m cs)
  unfolding run
  run-IsKeyed m [] h e = (h, e)
  run-IsKeyed m (c ∷ cs) h e =
      run-IsKeyed (after m c) cs (after-IsKeyed m c h)
        (elim (after_written m c) [ inl same ↦ rw (same) e | inr written ↦ written ])
