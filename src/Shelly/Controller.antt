-- ===== src/Shelly/Controller.antt =====
-- src/optimiser/clients/shelly.py, `ShellyLoadController`. A call of the device that raises is none,
-- or false for `Switch.Set`. `writes` are the states that `Switch.Set` was called with, in order.
pub mod Actions
pub mod Complete
pub mod Stops
pub mod Faults
use Prim.Native.String.{String}
use energy_optimiser.Prelude.{
  ℕ, Bool, true, false, Option, none, some, List, [], ◌∷◌, ◌++◌, ℤ, pos, if◌then◌else◌,
}
use energy_optimiser.Shelly.Types.{
  LoadCategory, shiftable, signal_driven, signal_driven_continuous, preconditionable, observable,
  LoadCycleState, idle, running, complete_today, ManagedLoadConfig, Event, load_cycle_start,
  ManagedLoadStatus,
}
use energy_optimiser.Shelly.Meter.{Meter, track_daily_energy, energy_today}
use energy_optimiser.Shelly.Relay.{RelayState, track_relay_state, OnMinutes, track_relay_on_minutes}
use energy_optimiser.Shelly.Cycle.{Cycle, update_cycle_state, update_cycle_state_continuous}

pub record Load : Type 0 where
  pub config : ManagedLoadConfig
  pub cycle : Cycle
  pub meter : Meter
  pub relay : RelayState
  pub on_minutes : OnMinutes

-- `__init__`
unfoldable pub initial : ManagedLoadConfig → Load
initial config = record {
  config = config;
  cycle = record { state = idle; started = none; pending_relay_stop = false };
  meter = record {
    today_date = none;
    imp = record {
      energy_at_cycle_start = pos 0;
      energy_today_kwh = pos 0;
      last_total_energy_kwh = none;
    };
    ret = record {
      energy_at_cycle_start = pos 0;
      energy_today_kwh = pos 0;
      last_total_energy_kwh = none;
    };
  };
  relay = record { last_relay_state = none; relay_state_since = none };
  on_minutes = record {
    relay_on_minutes_today = 0;
    relay_today_local_date = none;
    last_status_at = none;
  };
}

-- What the device replies during one status, and when the clock is read.
pub record Poll : Type 0 where
  pub act_power : Option ℤ
  pub total_act_energy : Option (ℤ × ℤ)
  pub output : Option Bool
  pub energy_at : ℕ
  pub cycle_at : ℕ
  pub relay_at : ℕ
  pub minutes_at : ℕ

-- `_stop_relay`: a load without a relay makes no call.
abbrev pub stop_relay : Load → List Bool
stop_relay l = if l.config.has_relay then false ∷ [] else []

-- A queued stop is taken off the queue whether the call raises or not.
unfoldable pub apply_queued_stop : Load → Load × List Bool
apply_queued_stop l =
    if l.cycle.pending_relay_stop
    then (record l { cycle = record l.cycle { pending_relay_stop = false } }, stop_relay l)
    else (l, [])

-- The reads stop at the first one that raises. The relay is read after the energy.
abbrev pub power_read : Poll → ℤ
power_read p = elim p.act_power [ none ↦ pos 0 | some power ↦ power ]

abbrev pub energy_read : Poll → Option (ℤ × ℤ)
energy_read p = elim p.act_power [ none ↦ none | some power ↦ p.total_act_energy ]

abbrev pub relay_read : ManagedLoadConfig → Poll → Option Bool
relay_read config p = elim (energy_read p) [
  | none ↦ none
  | some energy ↦ if config.has_relay then p.output else none
]

abbrev pub cycle_for : LoadCategory → ManagedLoadConfig → ℤ → ℕ → Poll → Cycle → Cycle × List Event
cycle_for shiftable config energy on_minutes p c =
    update_cycle_state config energy p.cycle_at (power_read p) c
cycle_for signal_driven_continuous config energy on_minutes p c =
    (update_cycle_state_continuous config energy on_minutes (relay_read config p) c, [])
cycle_for _ config energy on_minutes p c = (c, [])

abbrev pub update_cycle : ManagedLoadConfig → ℤ → ℕ → Poll → Cycle → Cycle × List Event
update_cycle config = cycle_for config.category config

-- What follows on a successful read of power and energy.
unfoldable pub track_energy : Poll → ℤ × ℤ → Load → Load × List Event
track_energy p (imp, ret) l =
    let (meter, warnings) = track_daily_energy p.energy_at imp ret l.meter in
    let (cycle, events) =
      update_cycle l.config (energy_today meter) l.on_minutes.relay_on_minutes_today p l.cycle in
    (record l { meter = meter; cycle = cycle }, warnings ++ events)

unfoldable pub track_relay : (ℕ → ℕ) → Poll → Bool → Load → Load
track_relay local_date p on l = record l {
  relay = track_relay_state p.relay_at on l.relay;
  on_minutes = track_relay_on_minutes local_date p.minutes_at on l.on_minutes;
}

abbrev pub after_reads : (ℕ → ℕ) → Poll → Option (ℤ × ℤ) → Option Bool → Load → Load × List Event
after_reads local_date p none relay_on l = (l, [])
after_reads local_date p (some energy) none l = track_energy p energy l
after_reads local_date p (some energy) (some on) l =
    let (next, events) = track_energy p energy l in (track_relay local_date p on next, events)

abbrev pub status_of : Poll → Load → ManagedLoadStatus
status_of p l = record {
  load_id = l.config.load_id;
  category = l.config.category;
  power_kw = power_read p;
  energy_today_kwh = energy_today l.meter;
  relay_on = relay_read l.config p;
  cycle_state = elim l.config.category [
    | shiftable ↦ some l.cycle.state
    | signal_driven_continuous ↦ some l.cycle.state
    | signal_driven ↦ none
    | preconditionable ↦ none
    | observable ↦ none
  ];
  relay_state_since = l.relay.relay_state_since;
  relay_on_minutes_today =
      if l.config.has_relay then some l.on_minutes.relay_on_minutes_today else none;
}

-- What a call leaves behind: the load, the writes and the events.
pub record Outcome : Type 0 where
  pub load : Load
  pub writes : List Bool
  pub events : List Event

unfoldable pub status : (ℕ → ℕ) → Poll → Load → Outcome × ManagedLoadStatus
status local_date p l =
    let (ready, writes) = apply_queued_stop l in
    let (next, events) = after_reads local_date p (energy_read p) (relay_read l.config p) ready in
    (record { load = next; writes = writes; events = events }, status_of p next)

abbrev pub nothing_done : Load → Outcome
nothing_done l = record { load = l; writes = []; events = [] }

-- `start_cycle` of a load with a relay: only an idle one makes the call.
abbrev pub start_from : LoadCycleState → Bool → ℕ → Load → Outcome × Bool
start_from idle acknowledged now l =
    if acknowledged
    then (
      record {
        load = record l { cycle = record l.cycle { state = running; started = some now } };
        writes = true ∷ [];
        events = load_cycle_start ∷ [];
      },
      true,
    )
    else (record { load = l; writes = true ∷ []; events = [] }, false)
start_from _ acknowledged now l = (nothing_done l, false)

-- With whether the device acknowledges, and the time after.
unfoldable pub start_cycle : Bool → ℕ → Load → Outcome × Bool
start_cycle acknowledged now l =
    if l.config.has_relay
    then start_from l.cycle.state acknowledged now l
    else (nothing_done l, false)

unfoldable pub set_relay : Bool → Bool → Load → Outcome × Bool
set_relay acknowledged on l =
    if l.config.has_relay
    then (record { load = l; writes = on ∷ []; events = [] }, acknowledged)
    else (nothing_done l, false)
