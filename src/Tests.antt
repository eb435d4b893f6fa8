-- ===== src/Tests.antt =====
-- The theorems at concrete inputs, and runs of the models.
mod Machine
mod Inverter
mod Deadman
mod States
mod Quotas
mod Strategies
mod Readings
mod Clock
mod Registers
mod Commands
mod Solved
mod Plan
mod Relays
mod Loads
mod Ticks
mod Feeds
