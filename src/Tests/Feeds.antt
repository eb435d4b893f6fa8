-- ===== src/Tests/Feeds.antt =====
-- The price loops and the backfill of the usage over scripts of answers.
use energy_optimiser.Prelude.{ℕ, ◌≡◌, refl, some, List, [], ◌∷◌, pos, arith, if◌then◌else◌, ltb}
use energy_optimiser.Amber.{
  AmberClient, new, Headers, Header, number, garbled, fetched, no_answer, LogRow, get_5min_prices,
  fetch, should_defer_fetch, update_rate_limits, warn_rate_low, drain_log_rows,
}
use energy_optimiser.Lp.Fallback.{returned, raised}
use energy_optimiser.Service.Prices.{
  Feed, Poll, poll, fetch_5min_prices, persist_price_log, poll_all, five_minutes, half_hour,
}
use energy_optimiser.Service.Cooldown.{IsMasked, cooldown_masks}
use energy_optimiser.Service.PriceLog.{Logged, all_fetched, poll_all-Logged}
use energy_optimiser.Service.Backfill.{Backfill, Answers}
use energy_optimiser.Tests.Plan.{prices}
use energy_optimiser.Tests.Machine.{planning}

abbrev refused : AmberClient
refused = record new {
  last_5min_prices = some (prices ∷ []);
  last_5min_fetch = some 1_000_000;
  rate_limited_until = some 60_000_000;
}

abbrev feed : AmberClient → Feed
feed amber = record { amber = amber; state_machine = planning; price_forecast_log = [] }

cooldown_masks_example : IsMasked (feed refused) (
    poll_all
      (pos 50)
      (five_minutes 10_000_000 no_answer ∷ five_minutes 40_000_000 no_answer ∷ [])
      (feed refused))
cooldown_masks_example =
    cooldown_masks (pos 50) 60_000_000 (feed refused) (10_000_000, no_answer)
      ((40_000_000, no_answer) ∷ []) refl (omega arith, (omega arith, tt))

abbrev silent : Headers
silent = record {
  rate_limit_limit = Header.absent;
  rate_limit_remaining = number (pos 3);
  rate_limit_reset = garbled;
  retry_after = Header.absent;
}

abbrev row : ℕ → LogRow
row start = record { resolution = 5; interval_start = start; per_kwh = pos 20_000 }

abbrev script : List Poll
script =
    five_minutes 1 (fetched silent (prices ∷ []) (row 0 ∷ []))
    ∷ five_minutes 2 no_answer
    ∷ half_hour 3 (fetched silent [] (row 1 ∷ row 2 ∷ []))
    ∷ []

poll_all-Logged_example :
    Logged (feed new) (all_fetched (pos 50) script (feed new)) (poll_all (pos 50) script (feed new))
poll_all-Logged_example = poll_all-Logged (pos 50) script (feed new) (refl, refl)

script_rows : all_fetched (pos 50) script (feed new) ≡ row 0 ∷ row 1 ∷ row 2 ∷ []
unfolding poll fetch_5min_prices get_5min_prices fetch should_defer_fetch update_rate_limits
    warn_rate_low persist_price_log drain_log_rows
script_rows = refl

-- One row a day, and no answer for the days from 115 on.
abbrev meter : Answers
meter first last = if ltb first 115 then returned (record { nem_date = first } ∷ []) else raised
