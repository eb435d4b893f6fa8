-- ===== src/Lp.antt =====
-- src/optimiser/lp/: the path from a solved plan to the inverter, and its supervision.
pub mod Linear
pub mod Scenarios
pub mod Forecast
pub mod Formulation
pub mod Slots
pub mod Problem
pub mod Solution
pub mod Solver
pub mod Loads
pub mod Dispatch
pub mod Runtime
pub mod Fallback
pub mod Watcher
