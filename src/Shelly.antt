-- ===== src/Shelly.antt =====
-- src/optimiser/clients/shelly.py: the loads that Shelly devices measure and switch. A power is in
-- watts, an energy in watt hours, an instant in microseconds. The device is known by its replies:
-- each HTTP call returns a value or raises, which is none or false.
pub mod Types
pub mod Meter
pub mod Relay
pub mod Cycle
pub mod Controller
pub mod Manager
