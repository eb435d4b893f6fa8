-- ===== src/Curtailment.antt =====
-- src/optimiser/curtailment.py: the flat-top detector. Powers are in watts, states of charge in
-- thousandths of a percent.
pub mod Episodes
use energy_optimiser.Prelude.{
  ℕ, ◌+◌, Bool, true, false, ◌&&◌, ◌||◌, Option, none, some, List, [], ◌∷◌, ◌++◌, ℤ, pos, negsuc,
  ◌+ℤ◌, ◌-ℤ◌, abs, ltb_ℤ, leb, not, if◌then◌else◌,
}

abbrev pub soc_full_margin_pct : ℤ
soc_full_margin_pct = pos 2000

abbrev pub battery_idle_kw : ℤ
battery_idle_kw = pos 200

abbrev pub ceiling_match_kw : ℤ
ceiling_match_kw = pos 300

abbrev pub minus_ceiling_match_kw : ℤ
minus_ceiling_match_kw = negsuc 299

abbrev pub streak_threshold_ticks : ℕ
streak_threshold_ticks = 5

pub record CurtailmentState : Type 0 where
  pub streak : ℕ
  pub fired : Bool

-- The measurements of one tick.
pub record Tick : Type 0 where
  pub soc_pct : ℤ
  pub battery_power_kw : ℤ
  pub pv_kw : ℤ
  pub house_load_kw : Option ℤ
  pub grid_export_limit_kw : Option ℤ
  pub soc_ceiling_pct : ℤ

pub record Suspicion : Type 0 where
  pub streak_ticks : ℕ
  pub soc_pct : ℤ
  pub pv_kw : ℤ
  pub house_load_kw : ℤ
  pub export_limit_kw : ℤ
  pub sink_ceiling_kw : ℤ

pub data Event : Type 0 where
  suspected : Suspicion → Event
  cleared : ℕ → Event

abbrev pub Outcome : Type 0
Outcome = CurtailmentState × Option Event

unfoldable pub advance_non_match : CurtailmentState → Outcome
advance_non_match s =
    (record { streak = 0; fired = false }, if s.fired then some (cleared s.streak) else none)

-- The end of `evaluate`: a matching tick extends the streak.
unfoldable pub advance_match : Suspicion → CurtailmentState → Outcome
advance_match seen s =
    let streak = s.streak + 1 in
    if leb streak_threshold_ticks streak && not s.fired
    then (
      record { streak = streak; fired = true },
      some (suspected (record seen { streak_ticks = streak })),
    )
    else (record s { streak = streak }, none)

-- The body of the event, but for the streak.
abbrev pub sighting : Tick → ℤ → ℤ → Suspicion
sighting t house_load export_limit = record {
  streak_ticks = 0;
  soc_pct = t.soc_pct;
  pv_kw = t.pv_kw;
  house_load_kw = house_load;
  export_limit_kw = export_limit;
  sink_ceiling_kw = house_load +ℤ export_limit;
}

-- The tests with both optional inputs present.
evaluate_present : Tick → ℤ → ℤ → CurtailmentState → Outcome
unfolding advance_non_match advance_match
evaluate_present t house_load export_limit s =
    if ltb_ℤ t.soc_pct (t.soc_ceiling_pct -ℤ soc_full_margin_pct)
    then advance_non_match s
    else if ltb_ℤ battery_idle_kw (abs t.battery_power_kw)
    then advance_non_match s
    else (let sink_ceiling = house_load +ℤ export_limit in
        let delta = t.pv_kw -ℤ sink_ceiling in
        if ltb_ℤ delta minus_ceiling_match_kw || ltb_ℤ ceiling_match_kw delta
        then advance_non_match s
        else advance_match (sighting t house_load export_limit) s)

evaluate_inputs : Option ℤ → Option ℤ → Tick → CurtailmentState → Outcome
unfolding evaluate_present
evaluate_inputs (some house_load) (some export_limit) t s =
    evaluate_present t house_load export_limit s
evaluate_inputs _ _ t s = advance_non_match s

unfoldable pub evaluate : Tick → CurtailmentState → Outcome
unfolding evaluate_inputs advance_non_match
evaluate t s = evaluate_inputs t.house_load_kw t.grid_export_limit_kw t s

abbrev pub start : CurtailmentState
start = record { streak = 0; fired = false }

abbrev events_of : Option Event → List Event
events_of none = []
events_of (some e) = e ∷ []

-- The detector over a sequence of ticks, with the events in order.
unfoldable pub run : CurtailmentState → List Tick → CurtailmentState × List Event
run s [] = (s, [])
run s (t ∷ ts) =
    let (s', event) = evaluate t s in let (s'', more) = run s' ts in (s'', events_of event ++ more)
