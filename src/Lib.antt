-- ===== src/Lib.antt =====
-- A verification library of the energy optimiser, a service that plans the use of a home battery by
-- a linear program and drives a Sigenergy inverter over Modbus.
--
-- Parts, by file, with the sources from the repository's root:
-- - Lifecycle: src/optimiser/state_machine.py, the operational states of the service. A method is a
--   function of the machine that returns the new machine and the emitted events (`step`, `run`).
-- - Curtailment: src/optimiser/curtailment.py, the flat-top detector, fed by one tick at a time.
-- - Lp.Dispatch: src/optimiser/lp/dispatch.py, the inverter command for the first slot of a plan and
--   the check of the measured battery power against it.
-- - Lp.Runtime: src/optimiser/lp/runtime.py, the state that the tick loop and the watcher share.
-- - Lp.Fallback: src/optimiser/lp/fallback.py, the drive to the safe state, over an interface for
--   the inverter and the relays whose calls return or raise.
-- - Lp.Watcher: src/optimiser/lp/watcher.py, the supervision of the inverter. A poll is cut at its
--   suspensions (Modbus read, lock, fallback), and its parts interleave with the tick loop's
--   `record_command` and `latch` in any order (`act`, `run`).
-- - Lp.Scenarios, Lp.Forecast, Lp.Slots, Lp.Formulation, Lp.Problem: src/optimiser/lp/scenarios.py and
--   formulation.py, the linear program as data: the slots with their prices and forecasts, the
--   constraints of one scenario (`add_scenario`), the problems for one and for all of them. Lp.Linear
--   has expressions and what it means that an assignment satisfies constraints.
-- - Lp.Solution, Lp.Solver: src/optimiser/lp/solver.py, the solve of the stochastic problem, over an
--   argument for PuLP, and the solution that the service gets.
-- - Lp.Loads: src/optimiser/lp/loads.py, what a relay load adds to the linear program: daily targets,
--   schedule overrides, minimum on and off times, and the state carried over from earlier ticks.
-- - Shelly: src/optimiser/clients/shelly.py, the loads: the energy of the day (Meter), the relay
--   (Relay), the cycle (Cycle), the polls and commands of one load (Controller) and of all (Manager).
-- - Watchdog: src/optimiser/watchdog.py, the independent sidecar. Watchdog.Client is the interface of
--   the Modbus client: what a call does to the registers is stated as laws (`IsFaithful`).
-- - Modes: src/optimiser/modes.py, the user strategies, their file and the view for the LP. Python's
--   json and datetime modules are an argument (`Python`).
-- - Sigenergy: src/optimiser/clients/sigenergy.py, the reads of registers and their decoding.
--   Sigenergy.State has `read_state`, Sigenergy.Telemetry its extended registers.
--   Sigenergy.Commands has the writes of a dispatch and of a fallback, over Watchdog.Client.
-- - Validation: src/optimiser/validation.py, the readings of a telemetry row that are nulled. A row
--   is a function of its fields; Validation.Accepted describes the readings that stay.
-- - Wake: src/optimiser/wake_loop.py, the aligned wake times and the loop. A loop and its tasks share
--   one event loop, so an action is what runs between two suspensions (`act`, `run`).
-- - Service: src/optimiser/service.py. Service has its state and the calls of other components, whose
--   answers are a parameter (`Site`) by the history of calls; Service.Solve the PV probe, the LP run
--   and its fallback; Service.Tick the tick (`tick_body`); Service.Prices the polls of the prices;
--   Service.Backfill the settled usage. A tick composes Lifecycle, Modes, Amber, Lp.Dispatch,
--   Lp.Runtime, Lp.Fallback and Curtailment as the code does, and runs without the other loops in
--   between. The backfill has one unit of fuel for each request of seven days.
-- - Amber: src/optimiser/clients/amber.py, the cache of prices and the cool-down after a refusal.
-- - Solcast: src/optimiser/clients/solcast.py, the forecasts and the quota of a UTC date. A handler
--   is two steps, before and after the wait for its answer; Solcast.Quota interleaves those of the
--   two loops of src/optimiser/service.py that share the client.
-- - Tests: the theorems at concrete inputs, and runs of the models.
--
-- The service's tick calls the state machine, plans while `should_run_planner` holds, maps the first
-- slot by `dispatch_from_slot`, applies it by `apply_lp_dispatch` and records the command in the
-- runtime. The watcher verifies it every ten seconds against `read_battery_power_kw`; the watchdog
-- acts when the tick stops.
--
-- Numbers: a power is an integer of watts, a state of charge or a price one of thousandths, an
-- instant one of microseconds, an energy one of watt hours. The source computes with floats on such
-- values; rounding is not modelled. Every loop runs over a list, but for the two attempts of a
-- register write and the three days of a load's targets, which are bounded as in the source, so
-- nothing can run out of fuel.
--
-- Not modelled: logging, failing file writes, the command lines, and the parts of the repository
-- that no module above names (HiGHS, the BOM and UniFi clients, start and stop of the service, the
-- store, the HTTP API, the tools). Of the LP the cost terms are left out. Lp.Problem takes what the
-- loads add as an argument, which Lp.Loads can fill. An optimal solution is not singled out among
-- those that satisfy the constraints. Of the Sigenergy client the events of the helpers, and what a
-- write does to the connection flag, are left out.
pub mod Prelude
pub mod Amber
pub mod Service
pub mod Lifecycle
pub mod Curtailment
pub mod Lp
pub mod Modes
pub mod Solcast
pub mod Shelly
pub mod Sigenergy
pub mod Validation
pub mod Wake
pub mod Watchdog
pub mod Tests
