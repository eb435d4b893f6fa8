-- ===== src/Service/PriceLog.antt =====
-- What the polls of the prices write to the price log.
use mathlib.Core.List.{append-nil, append_assoc}
use energy_optimiser.Prelude.{
  ℕ, ap, ◌≡◌, ◌∙◌, sym, refl, Bool, true, false, Option, none, some, List, [], ◌∷◌, ◌++◌, ℤ, arith,
  if◌then◌else◌, Bool-cases, inl, inr, leb_ℤ, length,
}
use energy_optimiser.Amber.{
  AmberClient, Header, Headers, absent, garbled, number, rate_limit_warning_threshold, Response,
  fetched, too_many_requests, unreadable, no_answer, LogRow, Fetch, warn_on, warn_rate_low,
  read_reset, read_remaining, read_limit, update_rate_limits, note_rate_limited, fetch,
  check_horizon_alert, keep_5min, keep_30min, deferred, get_5min_prices, get_current_prices,
  should_defer_fetch, drain_log_rows,
}
use energy_optimiser.Service.Prices.{
  Feed, persist_price_log, fetch_5min_prices, fetch_30min_prices, concluded_5min, concluded_30min,
  Poll, five_minutes, half_hour, poll, poll_all,
}

-- The rows of an answer.
abbrev pub rows_in : Response → List LogRow
rows_in (fetched h prices rows) = rows
rows_in _ = []

-- The rows that a poll fetches: none if it makes no request.
abbrev pub rows_fetched : Poll → AmberClient → List LogRow
rows_fetched (five_minutes now response) a =
    if should_defer_fetch now a then [] else rows_in response
rows_fetched (half_hour now response) a = if should_defer_fetch now a then [] else rows_in response

-- Those of a sequence of polls, each with the client that the ones before it leave.
abbrev pub all_fetched : ℤ → List Poll → Feed → List LogRow
all_fetched threshold [] f = []
all_fetched threshold (p ∷ polls) f =
    rows_fetched p f.amber ++ all_fetched threshold polls (poll threshold p f)

-- No row waits in the client.
abbrev pub IsDrained : AmberClient → Type 0
IsDrained a = (a.last_log_rows_30min ≡ []) × (a.last_log_rows_5min ≡ [])

warned : (r : Option ℤ) (a : AmberClient) → IsDrained a → IsDrained (warn_on r a).0
warned none a d = d
warned (some n) a d = elim (Bool-cases (leb_ℤ n rate_limit_warning_threshold)) [
  | inl h ↦ rw h d
  | inr h ↦ rw h d
]

warn-IsDrained : (a : AmberClient) → IsDrained a → IsDrained (warn_rate_low a).0
unfolding warn_rate_low
warn-IsDrained a d = warned a.rate_remaining a d

reset-IsDrained :
    (now : ℕ) (h : Header) (a : AmberClient) → IsDrained a → IsDrained (read_reset now h a).0
reset-IsDrained now absent a d = warn-IsDrained a d
reset-IsDrained now garbled a d = d
reset-IsDrained now (number s) a d = warn-IsDrained _ d

remaining-IsDrained :
    (now : ℕ) (h reset : Header) (a : AmberClient)
    → IsDrained a
    → IsDrained (read_remaining now h reset a).0
remaining-IsDrained now absent reset a d = reset-IsDrained now reset a d
remaining-IsDrained now garbled reset a d = d
remaining-IsDrained now (number n) reset a d = reset-IsDrained now reset _ d

limit-IsDrained :
    (now : ℕ) (h remaining reset : Header) (a : AmberClient)
    → IsDrained a
    → IsDrained (read_limit now h remaining reset a).0
limit-IsDrained now absent remaining reset a d = remaining-IsDrained now remaining reset a d
limit-IsDrained now garbled remaining reset a d = d
limit-IsDrained now (number n) remaining reset a d = remaining-IsDrained now remaining reset _ d

update-IsDrained :
    (now : ℕ) (h : Headers) (a : AmberClient)
    → IsDrained a
    → IsDrained (update_rate_limits now h a).0
unfolding update_rate_limits
update-IsDrained now h a d =
    limit-IsDrained now h.rate_limit_limit h.rate_limit_remaining h.rate_limit_reset a d

-- What a poll leaves: the log with the rows, and none that waits.
abbrev pub Logged : Feed → List LogRow → Feed → Type 0
Logged f rows g = (g.price_forecast_log ≡ f.price_forecast_log ++ rows) × IsDrained g.amber

five_lem :
    (now : ℕ) (response : Response) (f : Feed)
    → IsDrained f.amber
    → Logged f (rows_in response) (concluded_5min (keep_5min now (fetch now response f.amber)) f).0
unfolding fetch persist_price_log drain_log_rows note_rate_limited
five_lem now (fetched h prices rows) f d =
    (rw (update-IsDrained now h f.amber d).0 refl, (refl, refl))
five_lem now (too_many_requests h) f d =
    (sym (append-nil f.price_forecast_log), update-IsDrained now h f.amber d)
five_lem now (unreadable h) f d =
    (sym (append-nil f.price_forecast_log), update-IsDrained now h f.amber d)
five_lem now no_answer f d = (sym (append-nil f.price_forecast_log), d)

alert_keeps :
    (threshold : ℤ) (n : ℕ) (a : AmberClient)
    → let a' = (check_horizon_alert threshold n a).0 in
      (a'.last_log_rows_30min ≡ a.last_log_rows_30min)
      × (a'.last_log_rows_5min ≡ a.last_log_rows_5min)
unfolding check_horizon_alert
alert_keeps threshold n a = ground arith

half_lem :
    (threshold : ℤ) (now : ℕ) (response : Response) (f : Feed)
    → IsDrained f.amber
    → Logged f
        (rows_in response)
        (concluded_30min (keep_30min threshold now (fetch now response f.amber)) f).0
unfolding fetch persist_price_log drain_log_rows note_rate_limited
half_lem threshold now (fetched h prices rows) f d =
    let ks = alert_keeps threshold (length prices) (record ((update_rate_limits now h f.amber).0) {
      last_prices = some prices;
      last_fetch = some now;
      last_log_rows_30min = rows;
    }) in
    (
      rw (ks.0, ks.1, (update-IsDrained now h f.amber d).1)
          (ap (λ r. f.price_forecast_log ++ r) (append-nil rows)),
      (refl, refl),
    )
half_lem threshold now (too_many_requests h) f d =
    (sym (append-nil f.price_forecast_log), update-IsDrained now h f.amber d)
half_lem threshold now (unreadable h) f d =
    (sym (append-nil f.price_forecast_log), update-IsDrained now h f.amber d)
half_lem threshold now no_answer f d = (sym (append-nil f.price_forecast_log), d)

deferred_five :
    (f : Feed)
    → IsDrained f.amber
    → Logged f [] (concluded_5min (deferred f.amber.last_5min_prices f.amber) f).0
unfolding persist_price_log drain_log_rows
deferred_five f d = (rw (d.0, d.1) refl, (refl, refl))

deferred_half :
    (f : Feed)
    → IsDrained f.amber
    → Logged f [] (concluded_30min (deferred f.amber.last_prices f.amber) f).0
unfolding persist_price_log drain_log_rows
deferred_half f d = (rw (d.0, d.1) refl, (refl, refl))

-- The branch of a poll, by whether it is deferred.
either_Logged :
    (conclude : Fetch → Feed × Bool) (f : Feed) (b : Bool) (rows : List LogRow)
    {cached made : Fetch}
    → Logged f [] (conclude cached).0
    → Logged f rows (conclude made).0
    → Logged f (if b then [] else rows) (conclude (if b then cached else made)).0
either_Logged conclude f true rows h h' = h
either_Logged conclude f false rows h h' = h'

poll-Logged :
    (threshold : ℤ) (p : Poll) (f : Feed)
    → IsDrained f.amber
    → Logged f (rows_fetched p f.amber) (poll threshold p f)
unfolding poll fetch_5min_prices fetch_30min_prices get_5min_prices get_current_prices
poll-Logged threshold (five_minutes now response) f d =
    either_Logged (λ r. concluded_5min r f) f (should_defer_fetch now f.amber) (rows_in response)
      (deferred_five f d) (five_lem now response f d)
poll-Logged threshold (half_hour now response) f d =
    either_Logged (λ r. concluded_30min r f) f (should_defer_fetch now f.amber) (rows_in response)
      (deferred_half f d) (half_lem threshold now response f d)

-- From a client in which no row waits: after any polls of both loops the log has got exactly the
-- rows that the requests fetched, in order and each once, and no row waits.
pub poll_all-Logged :
    (threshold : ℤ) (polls : List Poll) (f : Feed)
    → IsDrained f.amber
    → Logged f (all_fetched threshold polls f) (poll_all threshold polls f)
unfolding poll_all
poll_all-Logged threshold [] f d = (sym (append-nil f.price_forecast_log), d)
poll_all-Logged threshold (p ∷ polls) f d =
    let (one, d') = poll-Logged threshold p f d in
    let (rest, d'') = poll_all-Logged threshold polls (poll threshold p f) d' in
    (
      rest
          ∙ ap (λ r. r ++ all_fetched threshold polls (poll threshold p f)) one
          ∙ append_assoc f.price_forecast_log _ _,
      d'',
    )
