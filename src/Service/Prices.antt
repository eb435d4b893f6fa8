-- ===== src/Service/Prices.antt =====
-- src/optimiser/service.py: the wake loops that poll the prices, with what they tell the state
-- machine and what they write to the price log.
use energy_optimiser.Prelude.{ℕ, Bool, true, false, none, some, List, [], ◌∷◌, ◌++◌, ℤ}
use energy_optimiser.Amber.{
  AmberClient, LogRow, Response, Fetch, get_5min_prices, get_current_prices, drain_log_rows,
}
use energy_optimiser.Lifecycle.{StateMachine, on_amber_success, on_amber_failure}

pub record Feed : Type 0 where
  pub amber : AmberClient
  pub state_machine : StateMachine
  pub price_forecast_log : List LogRow

-- `if rows:` makes no difference to the log.
unfoldable pub persist_price_log : Feed → Feed
unfolding drain_log_rows
persist_price_log f =
    let (amber, rows) = drain_log_rows f.amber in
    record f { amber = amber; price_forecast_log = f.price_forecast_log ++ rows }

-- The state of the machine after the call, without its events.
abbrev pub concluded_5min : Fetch → Feed → Feed × Bool
concluded_5min r f = elim r.prices [
  | none ↦
      (record f { amber = r.client; state_machine = (on_amber_failure f.state_machine).0 }, false)
  | some _ ↦ (
    persist_price_log
        (record f { amber = r.client; state_machine = (on_amber_success f.state_machine).0 }),
    true,
  )
]

unfoldable pub fetch_5min_prices : ℕ → Response → Feed → Feed × Bool
unfolding persist_price_log
fetch_5min_prices now response f = concluded_5min (get_5min_prices now response f.amber) f

abbrev pub concluded_30min : Fetch → Feed → Feed × Bool
concluded_30min r f = elim r.prices [
  | none ↦ (record f { amber = r.client }, false)
  | some _ ↦ (persist_price_log (record f { amber = r.client }), true)
]

unfoldable pub fetch_30min_prices : ℤ → ℕ → Response → Feed → Feed × Bool
unfolding persist_price_log
fetch_30min_prices threshold now response f =
    concluded_30min (get_current_prices threshold now response f.amber) f

-- A poll of either loop, with the time and the answer that a request gets.
pub data Poll : Type 0 where
  five_minutes half_hour : ℕ → Response → Poll

unfoldable pub poll : ℤ → Poll → Feed → Feed
unfolding fetch_5min_prices fetch_30min_prices
poll threshold (five_minutes now response) f = (fetch_5min_prices now response f).0
poll threshold (half_hour now response) f = (fetch_30min_prices threshold now response f).0

unfoldable pub poll_all : ℤ → List Poll → Feed → Feed
poll_all threshold [] f = f
poll_all threshold (p ∷ polls) f = poll_all threshold polls (poll threshold p f)
