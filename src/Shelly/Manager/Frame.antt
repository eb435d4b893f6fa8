-- ===== src/Shelly/Manager/Frame.antt =====
-- What a command or a poll does to each load.
use Prim.Native.String.{String}
use text.Mathlib.Text.{◌==◌ as str_eq}
use energy_optimiser.Prelude.{
  ℕ, ◌≡◌, refl, Bool, false, Option, none, some, List, [], ◌∷◌, All, ◌∙◌,
}
use energy_optimiser.Modes.Values.{find, find-put}
use energy_optimiser.Shelly.Controller.{Load, Outcome, start_cycle, set_relay}
use energy_optimiser.Shelly.Manager.{Loads, Call, calls, on_load, start_load_cycle, set_load_relay}

-- The calls go to one load.
calls_go :
    (load_id : String) (writes : List Bool)
    → All (λ (c : Call). c.0 ≡ load_id) (calls load_id writes)
calls_go load_id [] = tt
calls_go load_id (on ∷ writes) = (refl, calls_go load_id writes)

-- Every call goes to the load, and every other load is as it was.
abbrev pub TouchesOnly : String → Loads → Loads × List Call × Bool → Type 0
TouchesOnly load_id loads (after, made, _) =
    All (λ (c : Call). c.0 ≡ load_id) made
    × ((other : String) → str_eq load_id other ≡ false → find other after ≡ find other loads)

on_load_frame :
    (command : Load → Outcome × Bool) (load_id : String) (found : Option Load) (loads : Loads)
    → TouchesOnly load_id loads (on_load command load_id found loads)
on_load_frame command load_id none loads = (tt, λ other apart. refl)
on_load_frame command load_id (some l) loads = (
  calls_go load_id (command l).0.writes,
  λ other apart. find-put load_id other (command l).0.load loads ∙ simp apart,
)

-- A command for one load, known or not, starting its cycle or setting its relay, calls no other
-- device and leaves every other controller as it was.
pub commands_frame :
    (load_id : String) (acknowledged on : Bool) (now : ℕ) (loads : Loads)
    → TouchesOnly load_id loads (start_load_cycle load_id acknowledged now loads)
      × TouchesOnly load_id loads (set_load_relay load_id acknowledged on loads)
unfolding start_load_cycle set_load_relay
commands_frame load_id acknowledged on now loads = (
  on_load_frame (start_cycle acknowledged now) load_id (find load_id loads) loads,
  on_load_frame (set_relay acknowledged on) load_id (find load_id loads) loads,
)
