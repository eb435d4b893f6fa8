-- ===== src/Tests/Quotas.antt =====
-- The Solcast client over a script of answers.
use energy_optimiser.Prelude.{◌≤◌, ◌≡◌, refl, some, List, [], ◌∷◌, pos, arith}
use energy_optimiser.Lp.Fallback.{raised}
use energy_optimiser.Solcast.{
  SolcastConfig, Item, absent, present, pt5m, items, request_failed, not_json, new, begin_forecast,
  finish_forecast, begin_actuals, finish_actuals, finish_by_period_end, drain_log_rows,
  maybe_reset_quota, parse_item, parse_items, collect, set_item,
}
use energy_optimiser.Solcast.Quota.{
  Action, wake_forecast, answer_forecast, wake_actuals, answer_actuals, drain, perform, spent, idle,
}
use energy_optimiser.Solcast.Quota.Kept.{quota_kept}

abbrev dawn : Item
dawn = record {
  period_end = present 86_400_000_000;
  period = some pt5m;
  pv_estimate = present (pos 590);
  pv_estimate10 = absent;
  pv_estimate90 = present (pos 690);
}

abbrev nameless : Item
nameless = record dawn { period_end = absent }

-- Three calls a day, of which one is kept back.
abbrev sparing : SolcastConfig
sparing = record { max_calls_per_day = 3; safety_buffer = 1 }

-- A forecast; then both loops pass the test before either gets its answer; then one call too many,
-- and the next day.
abbrev two_days : List Action
two_days =
    wake_forecast 86_400_000_000
    ∷ answer_forecast (items (dawn ∷ [])) 86_400_000_500
    ∷ wake_forecast 86_500_000_000
    ∷ wake_actuals 86_500_000_001
    ∷ answer_actuals not_json
    ∷ answer_forecast (items (dawn ∷ [])) 86_500_000_500
    ∷ wake_actuals 86_600_000_000
    ∷ drain
    ∷ wake_forecast 172_800_000_001
    ∷ answer_forecast request_failed 172_800_000_500
    ∷ []

quota_kept_example : spent sparing 1 two_days idle ≤ 3
quota_kept_example = quota_kept sparing 1 two_days (
  omega arith,
  (
    omega arith,
    (
      omega arith,
      (
        omega arith,
        (
          omega arith,
          (omega arith, (omega arith, (omega arith, (omega arith, (omega arith, tt))))),
        ),
      ),
    ),
  ),
)

-- The one more is reached.
one_more : spent sparing 1 two_days idle ≡ 3
unfolding spent perform begin_forecast finish_forecast begin_actuals finish_actuals
    finish_by_period_end maybe_reset_quota drain_log_rows parse_items parse_item new
one_more = refl

-- An item without an end spoils the whole answer.
nameless_raises : (finish_forecast 6 (items (dawn ∷ nameless ∷ [])) new).0 ≡ raised
unfolding finish_forecast parse_items parse_item new
nameless_raises = refl

-- The later item counts, the one without an end does not.
later_counts :
    collect (dawn ∷ nameless ∷ record dawn { pv_estimate = present (pos 7) } ∷ []) []
    ≡ (86_400_000_000, pos 7) ∷ []
unfolding collect set_item
later_counts = refl
