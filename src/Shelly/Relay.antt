-- ===== src/Shelly/Relay.antt =====
-- src/optimiser/clients/shelly.py: what is kept of a relay, from the states that it is observed in.
-- `utc_to_local(now).date()` is an argument. The minutes are kept as microseconds.
pub mod Since
pub mod OnTime
use energy_optimiser.Prelude.{ℕ, ◌+◌, ◌-◌, Bool, true, false, Option, none, some, if◌then◌else◌}
use energy_optimiser.Shelly.Meter.{is_day}

pub record RelayState : Type 0 where
  pub last_relay_state : Option Bool
  pub relay_state_since : Option ℕ

-- `last is None or last != relay_on`
abbrev pub changes : Option Bool → Bool → Bool
changes none relay_on = true
changes (some true) relay_on = if relay_on then false else true
changes (some false) relay_on = relay_on

unfoldable pub track_relay_state : ℕ → Bool → RelayState → RelayState
track_relay_state now relay_on r = record {
  last_relay_state = some relay_on;
  relay_state_since = if changes r.last_relay_state relay_on then some now else r.relay_state_since;
}

pub record OnMinutes : Type 0 where
  pub relay_on_minutes_today : ℕ
  pub relay_today_local_date : Option ℕ
  pub last_status_at : Option ℕ

-- `max(0.0, elapsed_min)`, with an observed relay.
abbrev pub elapsed : Bool → Option ℕ → ℕ → ℕ
elapsed false last now = 0
elapsed true none now = 0
elapsed true (some last) now = now - last

unfoldable pub track_relay_on_minutes : (ℕ → ℕ) → ℕ → Bool → OnMinutes → OnMinutes
track_relay_on_minutes local_date now relay_on o =
    if is_day o.relay_today_local_date (local_date now)
    then record o {
      relay_on_minutes_today = o.relay_on_minutes_today + elapsed relay_on o.last_status_at now;
      last_status_at = some now;
    }
    else record {
      relay_on_minutes_today = 0;
      relay_today_local_date = some (local_date now);
      last_status_at = some now;
    }
