-- ===== src/Solcast/Quota.antt =====
-- The two wake loops of the service that send requests, `solcast` and `pv_actuals`
-- (src/optimiser/service.py), over one client. A loop runs one task at a time, but both may wait for
-- an answer at once.
pub mod Steps
pub mod Kept
use energy_optimiser.Prelude.{
  ℕ, ◌+◌, ◌==◌, ◌≤◌, Bool, true, false, Option, none, some, List, [], ◌∷◌, if◌then◌else◌,
}
use energy_optimiser.Lp.Forecast.{PvForecast}
use energy_optimiser.Solcast.{
  SolcastConfig, SolcastClient, Reply, request_failed, not_json, items, date, is_dated, new,
  begin_forecast, finish_forecast, begin_actuals, finish_by_period_end, drain_log_rows, seed_cache,
}

-- The client, and for each loop the UTC date on which the request that it waits for was allowed.
pub record Polling : Type 0 where
  pub client : SolcastClient
  pub forecasting : Option ℕ
  pub fetching_actuals : Option ℕ

abbrev pub idle : Polling
idle = record { client = new; forecasting = none; fetching_actuals = none }

-- A wake of a loop, the answer to its request, or a call of the service that sends none.
pub data Action : Type 0 where
  wake_forecast : ℕ → Action
  answer_forecast : Reply → ℕ → Action
  wake_actuals : ℕ → Action
  answer_actuals : Reply → Action
  drain : Action
  seed : List PvForecast → ℕ → Action

-- The request that a loop waits for after the test of the quota.
abbrev pub sent {ℓ} : {A : Type ℓ} → Option A → ℕ → Option ℕ
sent none now = some (date now)
sent (some _) now = none

-- A wake of a loop whose task still waits is skipped.
unfoldable pub perform : SolcastConfig → Action → Polling → Polling
perform config (wake_forecast now) p = elim p.forecasting [
  | some _ ↦ p
  | none ↦
      let (result, c, _) = begin_forecast config now p.client in
      record p { client = c; forecasting = sent result now }
]
perform config (answer_forecast reply fetched_at) p = elim p.forecasting [
  | none ↦ p
  | some _ ↦ record p { client = (finish_forecast fetched_at reply p.client).1; forecasting = none }
]
perform config (wake_actuals now) p = elim p.fetching_actuals [
  | some _ ↦ p
  | none ↦
      let (result, c, _) = begin_actuals config now p.client in
      record p { client = c; fetching_actuals = sent result now }
]
perform config (answer_actuals reply) p = elim p.fetching_actuals [
  | none ↦ p
  | some _ ↦ record p { client = (finish_by_period_end reply p.client).1; fetching_actuals = none }
]
perform config drain p = record p { client = (drain_log_rows p.client).1 }
perform config (seed fs fetched_at) p = record p { client = seed_cache fs fetched_at p.client }

-- A request that Solcast answers counts against its quota.
abbrev pub successes : Reply → ℕ
successes request_failed = 0
successes not_json = 1
successes (items _) = 1

-- What an action adds to the requests that were allowed on a day and succeed.
abbrev pub adds : ℕ → Action → Polling → ℕ
adds day (answer_forecast reply fetched_at) p =
    if is_dated p.forecasting day then successes reply else 0
adds day (answer_actuals reply) p = if is_dated p.fetching_actuals day then successes reply else 0
adds day _ p = 0

unfoldable pub spent : SolcastConfig → ℕ → List Action → Polling → ℕ
spent config day [] p = 0
spent config day (a ∷ rest) p = adds day a p + spent config day rest (perform config a p)

-- The date after an action.
abbrev pub today_after : Action → ℕ → ℕ
today_after (wake_forecast now) today = date now
today_after (wake_actuals now) today = date now
today_after _ today = today

-- The clock does not go back to an earlier date.
abbrev pub Ordered : ℕ → List Action → Type 0
Ordered today [] = Unit
Ordered today (a ∷ rest) = (today ≤ today_after a today) × Ordered (today_after a today) rest
