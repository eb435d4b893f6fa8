-- ===== src/Solcast/Quota/Kept.antt =====
-- The daily quota over any order of wakes and answers. A request that was allowed while the other
-- loop waited for its answer may go over it.
use energy_optimiser.Prelude.{
  ℕ, ◌+◌, ◌-◌, ◌≤◌, inl, inr, refl, Option, none, some, List, [], ◌∷◌, arith,
}
use energy_optimiser.Solcast.{
  SolcastConfig, SolcastClient, new, date, begin_forecast, finish_forecast, begin_actuals,
  finish_by_period_end, drain_log_rows, seed_cache,
}
use energy_optimiser.Solcast.Quota.{
  Polling, idle, Action, wake_forecast, answer_forecast, wake_actuals, answer_actuals, drain, seed,
  perform, successes, adds, spent, today_after, Ordered,
}
use energy_optimiser.Solcast.Quota.Steps.{
  Sound, bounded, answered, begun, later, nothing_added, swapped, begin_forecast-Begins,
  begin_actuals-Begins, limit, successes_bound, forecast-Counts, actuals-Counts,
}

module _ (config : SolcastConfig) (day : ℕ) where
  abbrev After : ℕ → ℕ → Action → Polling → Type 0
  After today n act p =
      let p' = perform config act p in
      Sound config day (today_after act today) (n + adds day act p) p'.client p'.forecasting
        p'.fetching_actuals

  abbrev polling : SolcastClient → Option ℕ → Option ℕ → Polling
  polling c f a = record { client = c; forecasting = f; fetching_actuals = a }

  perform-Sound :
      (act : Action) (today n : ℕ) (c : SolcastClient) (f a : Option ℕ)
      → today ≤ today_after act today
      → Sound config day today n c f a
      → After today n act (polling c f a)
  unfolding perform drain_log_rows seed_cache
  perform-Sound (wake_forecast now) today n c (some d) a t s =
      nothing_added config day (date now) n c (some d) a
        (later config day today (date now) n c (some d) a t s)
  perform-Sound (wake_forecast now) today n c none a t s =
      nothing_added config day (date now) n (begin_forecast config now c).1 _ a (
        begun config day today now n c a (begin_forecast config now c) t
          (begin_forecast-Begins config day now c) s)
  perform-Sound (answer_forecast reply at) today n c none a t s =
      nothing_added config day today n c none a s
  perform-Sound (answer_forecast reply at) today n c (some d) a t s =
      answered config day today n (successes reply) d c (finish_forecast at reply c).1 a
        (successes_bound config day reply) (forecast-Counts at reply c) s
  perform-Sound (wake_actuals now) today n c f (some d) t s =
      nothing_added config day (date now) n c f (some d)
        (later config day today (date now) n c f (some d) t s)
  perform-Sound (wake_actuals now) today n c f none t s =
      nothing_added config day (date now) n (begin_actuals config now c).1 f _ (
        swapped config day (date now) n (begin_actuals config now c).1 _ f (
          begun config day today now n c f (begin_actuals config now c) t
            (begin_actuals-Begins config day now c) (swapped config day today n c f none s)))
  perform-Sound (answer_actuals reply) today n c f none t s =
      nothing_added config day today n c f none s
  perform-Sound (answer_actuals reply) today n c f (some d) t s =
      swapped config day today _ (finish_by_period_end reply c).1 none f (
        answered config day today n (successes reply) d c (finish_by_period_end reply c).1 f
          (successes_bound config day reply) (actuals-Counts reply c)
          (swapped config day today n c f (some d) s))
  perform-Sound drain today n c f a t s =
      nothing_added config day today n (drain_log_rows c).1 f a s
  perform-Sound (seed fs at) today n c f a t s =
      nothing_added config day today n (seed_cache fs at c) f a s

  spent-Sound :
      (actions : List Action) (today n : ℕ) (p : Polling)
      → Ordered today actions
      → Sound config day today n p.client p.forecasting p.fetching_actuals
      → n + spent config day actions p ≤ limit config day + 1
  unfolding spent
  spent-Sound [] today n p o s =
      omega (arith, bounded config day today n p.client p.forecasting p.fetching_actuals s)
  spent-Sound (act ∷ rest) today n p (le, o) s =
      let ih =
        spent-Sound rest (today_after act today) (n + adds day act p) (perform config act p) o
          (perform-Sound act today n p.client p.forecasting p.fetching_actuals le s) in
      omega (arith, ih)

  -- From a new client, in whatever order its two wake loops wake and get their answers, as long as
  -- the clock does not go back to an earlier date: of the requests that the test of the quota
  -- allowed on a UTC date, at most one more than the daily maximum less the safety buffer succeed.
  pub quota_kept :
      (actions : List Action)
      → Ordered 0 actions
      → spent config day actions idle ≤ config.max_calls_per_day - config.safety_buffer + 1
  unfolding new
  quota_kept actions o =
      omega (arith, spent-Sound actions 0 0 idle o (inr (inl (refl, omega arith))))
