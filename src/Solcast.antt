-- ===== src/Solcast.antt =====
-- src/optimiser/clients/solcast.py: the cache of forecasts and the daily quota. The answer to a
-- request, after the retries of tenacity, is an argument. A handler that sends one is two steps,
-- with the wait for the answer between them, and the log event of its attempts is the
-- last one's. Instants are microseconds since 1970, so that a UTC date is a quotient.
pub mod Quota
use energy_optimiser.Prelude.{
  ℕ, ◌+◌, ◌-◌, ◌*◌, ◌/◌, ◌==◌, leb, Bool, true, false, Option, none, some, or_else, List, [], ◌∷◌,
  ◌++◌, map, ℤ, pos, if◌then◌else◌,
}
use energy_optimiser.Lp.Fallback.{Attempt, returned, raised}
use energy_optimiser.Lp.Forecast.{PvForecast}

pub record SolcastConfig : Type 0 where
  pub max_calls_per_day : ℕ
  pub safety_buffer : ℕ

-- A value of a JSON object: no key, a value that cannot be converted, or a value.
pub data Entry (A : Type 0) : Type 0 where
  absent malformed : Entry A
  present : A → Entry A

pub data Period : Type 0 where
  pt30m pt5m other : Period

-- An item of the answer.
pub record Item : Type 0 where
  pub period_end : Entry ℕ
  pub period : Option Period
  pub pv_estimate : Entry ℤ
  pub pv_estimate10 : Entry ℤ
  pub pv_estimate90 : Entry ℤ

-- An error status or no answer, a body that is no JSON object, or its items.
pub data Reply : Type 0 where
  request_failed not_json : Reply
  items : List Item → Reply

pub record PvForecastLogRow : Type 0 where
  pub fetched_at : ℕ
  pub period_end : ℕ
  pub pv_estimate_kw : ℤ
  pub pv_estimate10_kw : ℤ
  pub pv_estimate90_kw : ℤ

pub record SolcastClient : Type 0 where
  pub last_forecast : Option (List PvForecast)
  pub last_fetch : Option ℕ
  pub pending_log_rows : List PvForecastLogRow
  pub call_count_today : ℕ
  pub quota_date : Option ℕ

unfoldable pub new : SolcastClient
new = record {
  last_forecast = none;
  last_fetch = none;
  pending_log_rows = [];
  call_count_today = 0;
  quota_date = none;
}

pub data Event : Type 0 where
  quota_exhausted : ℕ → ℕ → Event
  call_succeeded call_failed : Event

-- What an operation returns or raises, leaves and emits.
abbrev pub Outcome : Type 0 → Type 0
Outcome A = Attempt A × SolcastClient × List Event

unfoldable pub drain_log_rows : SolcastClient → List PvForecastLogRow × SolcastClient
drain_log_rows c = (c.pending_log_rows, record c { pending_log_rows = [] })

unfoldable pub seed_cache : List PvForecast → ℕ → SolcastClient → SolcastClient
seed_cache forecast fetched_at c = record c {
  last_forecast = some forecast;
  last_fetch = some fetched_at;
}

unfoldable pub forecast_age : ℕ → SolcastClient → Option ℕ
forecast_age now c = elim c.last_fetch [ none ↦ none | some t ↦ some (now - t) ]

-- The UTC date of an instant.
abbrev pub date : ℕ → ℕ
date now = now / 86_400_000_000

-- `self._quota_date != today`
abbrev pub is_dated : Option ℕ → ℕ → Bool
is_dated none today = false
is_dated (some d) today = d == today

unfoldable pub maybe_reset_quota : ℕ → SolcastClient → SolcastClient
maybe_reset_quota now c =
    if is_dated c.quota_date (date now)
    then c
    else record c { call_count_today = 0; quota_date = some (date now) }

unfoldable pub calls_today : ℕ → SolcastClient → ℕ
calls_today now c = (maybe_reset_quota now c).call_count_today

-- `remaining <= 0`, after the reset.
abbrev pub is_exhausted : SolcastConfig → SolcastClient → Bool
is_exhausted config c = leb config.max_calls_per_day (config.safety_buffer + c.call_count_today)

abbrev pub spend : SolcastClient → SolcastClient
spend c = record c { call_count_today = c.call_count_today + 1 }

abbrev pub minutes : Option Period → ℕ
minutes (some pt5m) = 5
minutes (some pt30m) = 30
minutes (some other) = 30
minutes none = 30

-- `float(item.get(key, 0))`
abbrev pub number_of : Entry ℤ → Attempt ℤ
number_of absent = returned (pos 0)
number_of malformed = raised
number_of (present x) = returned x

abbrev pub forecast_of : ℕ → Option Period → Attempt ℤ → Attempt ℤ → Attempt ℤ → Attempt PvForecast
forecast_of end period (returned pv50) (returned pv10) (returned pv90) = returned (record {
  start = end - minutes period * 60_000_000;
  end = end;
  pv_estimate_kw = pv50;
  pv_estimate10_kw = pv10;
  pv_estimate90_kw = pv90;
})
forecast_of end period _ _ _ = raised

-- A missing end raises KeyError.
unfoldable pub parse_item : Item → Attempt PvForecast
parse_item i = elim i.period_end [
  | absent ↦ raised
  | malformed ↦ raised
  | present end ↦
      forecast_of end i.period (number_of i.pv_estimate) (number_of i.pv_estimate10)
        (number_of i.pv_estimate90)
]

abbrev pub after_item : Attempt PvForecast → Attempt (List PvForecast) → Attempt (List PvForecast)
after_item (returned f) (returned fs) = returned (f ∷ fs)
after_item _ _ = raised

unfoldable pub parse_items : List Item → Attempt (List PvForecast)
parse_items [] = returned []
parse_items (i ∷ is) = after_item (parse_item i) (parse_items is)

abbrev pub log_row : ℕ → PvForecast → PvForecastLogRow
log_row fetched_at f = record {
  fetched_at = fetched_at;
  period_end = f.end;
  pv_estimate_kw = f.pv_estimate_kw;
  pv_estimate10_kw = f.pv_estimate10_kw;
  pv_estimate90_kw = f.pv_estimate90_kw;
}

-- The caches change only if every item was read.
abbrev pub stored : ℕ → Attempt (List PvForecast) → SolcastClient → Outcome (List PvForecast)
stored fetched_at raised c = (raised, c, call_succeeded ∷ [])
stored fetched_at (returned fs) c = (
  returned fs,
  record c {
    last_forecast = some fs;
    last_fetch = some fetched_at;
    pending_log_rows = map (log_row fetched_at) fs;
  },
  call_succeeded ∷ [],
)

-- What a handler returns where the quota is spent, with none for a request that is sent. While it
-- waits for the answer, other handlers run.
abbrev pub Begun : Type 0 → Type 0
Begun A = Option A × SolcastClient × List Event

-- `get_forecast` up to its request, and from the answer on.
unfoldable pub begin_forecast : SolcastConfig → ℕ → SolcastClient → Begun (List PvForecast)
begin_forecast config now c =
    let c' = maybe_reset_quota now c in
    if is_exhausted config c'
    then (
      some (or_else c'.last_forecast []),
      c',
      quota_exhausted c'.call_count_today config.max_calls_per_day ∷ [],
    )
    else (none, c', [])

unfoldable pub finish_forecast : ℕ → Reply → SolcastClient → Outcome (List PvForecast)
finish_forecast fetched_at request_failed c = (raised, c, call_failed ∷ [])
finish_forecast fetched_at not_json c = (raised, spend c, call_succeeded ∷ [])
finish_forecast fetched_at (items is) c = stored fetched_at (parse_items is) (spend c)

-- `get_estimated_actuals`, in the same way.
unfoldable pub begin_actuals : SolcastConfig → ℕ → SolcastClient → Begun (List Item)
begin_actuals config now c =
    let c' = maybe_reset_quota now c in
    if is_exhausted config c' then (some [], c', []) else (none, c', [])

unfoldable pub finish_actuals : Reply → SolcastClient → Outcome (List Item)
finish_actuals request_failed c = (raised, c, call_failed ∷ [])
finish_actuals not_json c = (raised, spend c, call_succeeded ∷ [])
finish_actuals (items is) c = (returned is, spend c, call_succeeded ∷ [])

-- The dictionary from the ends of periods to powers, its keys in the order of insertion.
abbrev pub Actuals : Type 0
Actuals = List (ℕ × ℤ)

-- `out[period_end] = kw`
unfoldable pub set_item : ℕ → ℤ → Actuals → Actuals
set_item end kw [] = (end, kw) ∷ []
set_item end kw ((e, x) ∷ rest) =
    let later = set_item end kw rest in if e == end then (end, kw) ∷ rest else (e, x) ∷ later

-- The end and the power of an item, none if it is skipped.
abbrev pub measured : Entry ℕ → Attempt ℤ → Option (ℕ × ℤ)
measured (present end) (returned kw) = some (end, kw)
measured _ _ = none

abbrev pub add_actual : Option (ℕ × ℤ) → Actuals → Actuals
add_actual none out = out
add_actual (some (end, kw)) out = set_item end kw out

unfoldable pub collect : List Item → Actuals → Actuals
collect [] out = out
collect (i ∷ is) out = collect is (add_actual (measured i.period_end (number_of i.pv_estimate)) out)

abbrev pub by_period_end : Attempt (List Item) → Attempt Actuals
by_period_end raised = raised
by_period_end (returned is) = returned (collect is [])

-- `get_actuals_by_period_end`, from the answer on.
unfoldable pub finish_by_period_end : Reply → SolcastClient → Outcome Actuals
finish_by_period_end reply c =
    let (raw, c', events) = finish_actuals reply c in (by_period_end raw, c', events)
