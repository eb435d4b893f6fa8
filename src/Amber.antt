-- ===== src/Amber.antt =====
-- src/optimiser/clients/amber.py: the cache of prices, the cool-down after a refusal, and the alert
-- on the horizon. The answer to a request, after the retries of tenacity, is an argument: its body
-- is the intervals and the rows that `_fetch` makes of it. Instants are microseconds.

use energy_optimiser.Prelude.{
  ℕ, ◌+◌, ◌*◌, ltb, Bool, true, false, ◌&&◌, Option, none, some, List, [], ◌∷◌, ◌++◌, ℤ, pos, sub_ℕ,
  leb_ℤ, pos_part, length, not, or_else, if◌then◌else◌,
}
use energy_optimiser.Lp.Forecast.{price_at}
use energy_optimiser.Lp.Scenarios.{PriceInterval}

-- A row of the price forecast log, of which the client reads nothing.
pub record LogRow : Type 0 where
  pub resolution : ℕ
  pub interval_start : ℕ
  pub per_kwh : ℤ

-- The value of a header: none, text that is no integer, or an integer.
pub data Header : Type 0 where
  absent garbled : Header
  number : ℤ → Header

pub record Headers : Type 0 where
  pub rate_limit_limit : Header
  pub rate_limit_remaining : Header
  pub rate_limit_reset : Header
  pub retry_after : Header

-- What `_fetch` gets: intervals and rows, a 429, another error status or no answer, or a body that
-- makes it raise after the headers were read.
pub data Response : Type 0 where
  fetched : Headers → List PriceInterval → List LogRow → Response
  too_many_requests : Headers → Response
  unreadable : Headers → Response
  no_answer : Response

pub data Event : Type 0 where
  rate_limit_low : ℤ → Event
  deferring : ℤ → Event
  horizon_short horizon_recovered : ℕ → ℤ → Event

pub record AmberClient : Type 0 where
  pub last_prices : Option (List PriceInterval)
  pub last_fetch : Option ℕ
  pub last_5min_prices : Option (List PriceInterval)
  pub last_5min_fetch : Option ℕ
  pub last_log_rows_30min : List LogRow
  pub last_log_rows_5min : List LogRow
  pub rate_limit : Option ℤ
  pub rate_remaining : Option ℤ
  pub rate_reset_seconds : Option ℤ
  pub rate_window_resets_at : Option ℕ
  pub rate_limited_until : Option ℕ
  pub warned_rate_low : Bool
  pub was_horizon_short : Bool

abbrev pub Outcome : Type 0
Outcome = AmberClient × List Event

abbrev pub second : ℕ
second = 1_000_000

abbrev pub rate_limit_warning_threshold : ℤ
rate_limit_warning_threshold = pos 5

abbrev pub new : AmberClient
new = record {
  last_prices = none;
  last_fetch = none;
  last_5min_prices = none;
  last_5min_fetch = none;
  last_log_rows_30min = [];
  last_log_rows_5min = [];
  rate_limit = none;
  rate_remaining = none;
  rate_reset_seconds = none;
  rate_window_resets_at = none;
  rate_limited_until = none;
  warned_rate_low = false;
  was_horizon_short = false;
}

-- `now_utc() - self._last_5min_fetch`
unfoldable pub prices_5min_age : ℕ → AmberClient → Option ℤ
prices_5min_age now c = elim c.last_5min_fetch [ none ↦ none | some t ↦ some (sub_ℕ now t) ]

unfoldable pub prices_age : ℕ → AmberClient → Option ℤ
prices_age now c = elim c.last_fetch [ none ↦ none | some t ↦ some (sub_ℕ now t) ]

-- The loop is the one of `_price_at`, with None in the place of its ValueError.
unfoldable pub current_5min_price : ℕ → AmberClient → Option PriceInterval
unfolding price_at
current_5min_price t c = elim c.last_5min_prices [ none ↦ none | some prices ↦ price_at prices t ]

-- `t is not None and now < t`
abbrev pub is_before : ℕ → Option ℕ → Bool
is_before now none = false
is_before now (some t) = ltb now t

-- `n is not None and n <= 0`
abbrev pub is_used_up : Option ℤ → Bool
is_used_up none = false
is_used_up (some n) = leb_ℤ n (pos 0)

unfoldable pub should_defer_fetch : ℕ → AmberClient → Bool
should_defer_fetch now c =
    if is_before now c.rate_limited_until
    then true
    else is_used_up c.rate_remaining && is_before now c.rate_window_resets_at

-- The rising edge of the warning. Nothing is told before the first header.
abbrev pub warn_on : Option ℤ → AmberClient → Outcome
warn_on none c = (c, [])
warn_on (some n) c =
    if leb_ℤ n rate_limit_warning_threshold
    then (
      record c { warned_rate_low = true },
      if c.warned_rate_low then [] else rate_limit_low n ∷ [],
    )
    else (record c { warned_rate_low = false }, [])

unfoldable pub warn_rate_low : AmberClient → Outcome
warn_rate_low c = warn_on c.rate_remaining c

-- The header of the reset, and what follows the try block.
abbrev pub read_reset : ℕ → Header → AmberClient → Outcome
read_reset now absent c = warn_rate_low c
read_reset now garbled c = (c, [])
read_reset now (number s) c = warn_rate_low (record c {
  rate_reset_seconds = some s;
  rate_window_resets_at = some (now + pos_part s * second);
})

abbrev pub read_remaining : ℕ → Header → Header → AmberClient → Outcome
read_remaining now absent reset c = read_reset now reset c
read_remaining now garbled reset c = (c, [])
read_remaining now (number n) reset c = read_reset now reset (record c { rate_remaining = some n })

abbrev pub read_limit : ℕ → Header → Header → Header → AmberClient → Outcome
read_limit now absent remaining reset c = read_remaining now remaining reset c
read_limit now garbled remaining reset c = (c, [])
read_limit now (number n) remaining reset c =
    read_remaining now remaining reset (record c { rate_limit = some n })

-- A header that is no integer ends it: those before it are kept.
unfoldable pub update_rate_limits : ℕ → Headers → AmberClient → Outcome
unfolding warn_rate_low
update_rate_limits now h c =
    read_limit now h.rate_limit_limit h.rate_limit_remaining h.rate_limit_reset c

-- `reset_s` before its last default.
abbrev pub reset_of : Header → AmberClient → Option ℤ
reset_of (number s) c = some s
reset_of _ c = c.rate_reset_seconds

-- `if reset_s is None or reset_s <= 0: reset_s = 60`
abbrev pub positive_or_minute : Option ℤ → ℤ
positive_or_minute none = pos 60
positive_or_minute (some s) = if leb_ℤ s (pos 0) then pos 60 else s

unfoldable pub note_rate_limited : ℕ → Headers → AmberClient → Outcome
note_rate_limited now h c =
    let reset_s = positive_or_minute (reset_of h.retry_after c) in
    (
      record c { rate_limited_until = some (now + pos_part reset_s * second) },
      deferring reset_s ∷ [],
    )

-- The intervals and rows, or none if it raises.
unfoldable pub fetch :
    ℕ → Response → AmberClient → Outcome × Option (List PriceInterval × List LogRow)
unfolding update_rate_limits note_rate_limited
fetch now (fetched h prices rows) c = (update_rate_limits now h c, some (prices, rows))
fetch now (unreadable h) c = (update_rate_limits now h c, none)
fetch now no_answer c = ((c, []), none)
fetch now (too_many_requests h) c =
    let (c', events) = update_rate_limits now h c in
    let (c'', more) = note_rate_limited now h c' in ((c'', events ++ more), none)

-- The edges of the alert, with the threshold of the configuration.
unfoldable pub check_horizon_alert : ℤ → ℕ → AmberClient → Outcome
check_horizon_alert threshold count c =
    if leb_ℤ threshold (pos 0)
    then (c, [])
    else if not (leb_ℤ threshold (pos count)) && not c.was_horizon_short
    then (record c { was_horizon_short = true }, horizon_short count threshold ∷ [])
    else if leb_ℤ threshold (pos count) && c.was_horizon_short
    then (record c { was_horizon_short = false }, horizon_recovered count threshold ∷ [])
    else (c, [])

-- A call returns prices or raises (none); the flag tells whether a request was made.
pub record Fetch : Type 0 where
  pub client : AmberClient
  pub events : List Event
  pub prices : Option (List PriceInterval)
  pub requested : Bool

abbrev pub deferred : Option (List PriceInterval) → AmberClient → Fetch
deferred cached c = record {
  client = c;
  events = [];
  prices = some (or_else cached []);
  requested = false;
}

abbrev pub keep_5min : ℕ → Outcome × Option (List PriceInterval × List LogRow) → Fetch
keep_5min now ((c, events), none) = record {
  client = c;
  events = events;
  prices = none;
  requested = true;
}
keep_5min now ((c, events), some (prices, rows)) = record {
  client = record c {
    last_5min_prices = some prices;
    last_5min_fetch = some now;
    last_log_rows_5min = rows;
  };
  events = events;
  prices = some prices;
  requested = true;
}

unfoldable pub get_5min_prices : ℕ → Response → AmberClient → Fetch
unfolding fetch
get_5min_prices now response c =
    if should_defer_fetch now c
    then deferred c.last_5min_prices c
    else keep_5min now (fetch now response c)

abbrev pub keep_30min : ℤ → ℕ → Outcome × Option (List PriceInterval × List LogRow) → Fetch
keep_30min threshold now ((c, events), none) = record {
  client = c;
  events = events;
  prices = none;
  requested = true;
}
keep_30min threshold now ((c, events), some (prices, rows)) =
    let kept = record c {
      last_prices = some prices;
      last_fetch = some now;
      last_log_rows_30min = rows;
    } in
    let (c', more) = check_horizon_alert threshold (length prices) kept in
    record { client = c'; events = events ++ more; prices = some prices; requested = true }

unfoldable pub get_current_prices : ℤ → ℕ → Response → AmberClient → Fetch
unfolding fetch check_horizon_alert
get_current_prices threshold now response c =
    if should_defer_fetch now c
    then deferred c.last_prices c
    else keep_30min threshold now (fetch now response c)

unfoldable pub drain_log_rows : AmberClient → AmberClient × List LogRow
drain_log_rows c = (
  record c { last_log_rows_30min = []; last_log_rows_5min = [] },
  c.last_log_rows_30min ++ c.last_log_rows_5min,
)
