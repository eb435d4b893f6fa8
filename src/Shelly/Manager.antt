-- ===== src/Shelly/Manager.antt =====
-- src/optimiser/clients/shelly.py, `ManagedLoadManager`: the controllers by their load id.
pub mod Frame
use Prim.Native.String.{String}
use text.Mathlib.Text.{◌==◌ as str_eq}
use energy_optimiser.Prelude.{
  ℕ, Bool, true, false, Option, none, some, List, [], ◌∷◌, ℤ, if◌then◌else◌,
}
use energy_optimiser.Modes.Values.{find, put}
use energy_optimiser.Shelly.Types.{ManagedLoadConfig, ManagedLoadStatus}
use energy_optimiser.Shelly.Controller.{
  Load, initial, Poll, Outcome, status, start_cycle, set_relay,
}

abbrev pub Loads : Type 0
Loads = List (String × Load)

abbrev pub add_all : List ManagedLoadConfig → Loads → Loads
add_all [] loads = loads
add_all (config ∷ configs) loads = add_all configs (put config.load_id (initial config) loads)

-- `__init__`
unfoldable pub manager : List ManagedLoadConfig → Loads
manager configs = add_all configs []

-- A call of `Switch.Set`, with the load it goes to.
abbrev pub Call : Type 0
Call = String × Bool

abbrev pub calls : String → List Bool → List Call
calls load_id [] = []
calls load_id (on ∷ writes) = (load_id, on) ∷ calls load_id writes

-- The controller's own reply; an unknown load is refused.
abbrev pub on_load :
    (Load → Outcome × Bool) → String → Option Load → Loads → Loads × List Call × Bool
on_load command load_id none loads = (loads, [], false)
on_load command load_id (some l) loads =
    let (after, done) = command l in
    (put load_id after.load loads, calls load_id after.writes, done)

unfoldable pub start_load_cycle : String → Bool → ℕ → Loads → Loads × List Call × Bool
start_load_cycle load_id acknowledged now loads =
    on_load (start_cycle acknowledged now) load_id (find load_id loads) loads

unfoldable pub set_load_relay : String → Bool → Bool → Loads → Loads × List Call × Bool
set_load_relay load_id acknowledged on loads =
    on_load (set_relay acknowledged on) load_id (find load_id loads) loads

-- `all_statuses`, with the replies of each load's device.
unfoldable pub all_statuses : (ℕ → ℕ) → (String → Poll) → Loads → Loads × List ManagedLoadStatus
all_statuses local_date replies [] = ([], [])
all_statuses local_date replies ((load_id, l) ∷ loads) =
    let (after, seen) = status local_date (replies load_id) l in
    let (rest, statuses) = all_statuses local_date replies loads in
    ((load_id, after.load) ∷ rest, seen ∷ statuses)

unfoldable pub get_mains_power : List ManagedLoadStatus → Option ℤ
get_mains_power [] = none
get_mains_power (s ∷ statuses) =
    let rest = get_mains_power statuses in
    if str_eq s.load_id "mains" then some s.power_kw else rest
