-- ===== src/Curtailment/Episodes.antt =====
-- Streaks and episodes of the detector.
use energy_optimiser.Prelude.{
  ℕ, ◌+◌, ◌≡◌, ◌↔◌, ◌⊎◌, inl, inr, refl, ◌∙◌, ap, Bool, true, false, Option, some, List, [], ◌∷◌,
  ◌++◌, ℤ, ◌+ℤ◌, ◌-ℤ◌, ◌≤ℤ◌, abs, arith, leb, ltb_ℤ, ◌||◌, length, All, +ℤ_parts, -ℤ_parts,
  Bool-cases,
}
use energy_optimiser.Curtailment.{
  CurtailmentState, Tick, Suspicion, sighting, Event, suspected, cleared, soc_full_margin_pct,
  battery_idle_kw, minus_ceiling_match_kw, ceiling_match_kw, streak_threshold_ticks, evaluate,
  evaluate_inputs, run, advance_match, advance_non_match, Outcome, events_of,
}

-- The battery is full and idle, and the PV power lies within 0.3 kW of load plus export limit.
abbrev pub AtCeiling : Tick → Option ℤ → Option ℤ → Type 0
AtCeiling t (some load) (some limit) =
    (t.soc_ceiling_pct ≤ℤ t.soc_pct +ℤ soc_full_margin_pct)
    × (abs t.battery_power_kw ≤ℤ battery_idle_kw)
    × (t.pv_kw ≤ℤ load +ℤ limit +ℤ ceiling_match_kw)
    × (load +ℤ limit ≤ℤ t.pv_kw +ℤ ceiling_match_kw)
AtCeiling t _ _ = ⊥

abbrev pub IsFlatTop : Tick → Type 0
IsFlatTop t = AtCeiling t t.house_load_kw t.grid_export_limit_kw

-- The tests of `evaluate`, read over the integers.
soc_test :
    (t : Tick)
    → ltb_ℤ t.soc_pct (t.soc_ceiling_pct -ℤ soc_full_margin_pct) ≡ false
      ↔ (t.soc_ceiling_pct ≤ℤ t.soc_pct +ℤ soc_full_margin_pct)
soc_test t =
    ground (
      arith,
      -ℤ_parts t.soc_ceiling_pct soc_full_margin_pct,
      +ℤ_parts t.soc_pct soc_full_margin_pct,
    )

delta_test :
    (pv sink : ℤ)
    → (ltb_ℤ (pv -ℤ sink) minus_ceiling_match_kw || ltb_ℤ ceiling_match_kw (pv -ℤ sink)) ≡ false
      ↔ ((pv ≤ℤ sink +ℤ ceiling_match_kw) × (sink ≤ℤ pv +ℤ ceiling_match_kw))
delta_test pv sink =
    ground (arith, -ℤ_parts pv sink, +ℤ_parts sink ceiling_match_kw, +ℤ_parts pv ceiling_match_kw)

evaluate_inputs_flat :
    (load limit : Option ℤ) (t : Tick) (s : CurtailmentState)
    → AtCeiling t load limit
    → (seen : Suspicion) × (evaluate_inputs load limit t s ≡ advance_match seen s)
unfolding evaluate_inputs
evaluate_inputs_flat (some load) (some limit) t s (full, idle, below, above) =
    let is_full = (soc_test t).1 full in
    let is_idle : ltb_ℤ battery_idle_kw (abs t.battery_power_kw) ≡ false = ground arith in
    let at_ceiling = (delta_test t.pv_kw (load +ℤ limit)).1 (below, above) in
    (sighting t load limit, rw (is_full, is_idle, at_ceiling))
evaluate_inputs_flat _ _ t s h = elim h [ ]

evaluate_inputs_other :
    (load limit : Option ℤ) (t : Tick) (s : CurtailmentState)
    → ¬ AtCeiling t load limit
    → evaluate_inputs load limit t s ≡ advance_non_match s
unfolding evaluate_inputs
evaluate_inputs_other (some load) (some limit) t s h =
    ground (arith, soc_test t, delta_test t.pv_kw (load +ℤ limit))
evaluate_inputs_other _ _ t s h = refl

evaluate_inputs_cases :
    (load limit : Option ℤ) (t : Tick) (s : CurtailmentState)
    → ((seen : Suspicion) × (evaluate_inputs load limit t s ≡ advance_match seen s))
      ⊎ (evaluate_inputs load limit t s ≡ advance_non_match s)
unfolding evaluate_inputs
evaluate_inputs_cases (some load) (some limit) t s =
    elim (Bool-cases (ltb_ℤ t.soc_pct (t.soc_ceiling_pct -ℤ soc_full_margin_pct))) [
      | inl a ↦ inr (rw a)
      | inr a ↦ elim (Bool-cases (ltb_ℤ battery_idle_kw (abs t.battery_power_kw))) [
        | inl b ↦ inr (rw (a, b))
        | inr b ↦
            elim (Bool-cases (
              ltb_ℤ (t.pv_kw -ℤ (load +ℤ limit)) minus_ceiling_match_kw
              || ltb_ℤ ceiling_match_kw (t.pv_kw -ℤ (load +ℤ limit)))) [
                | inl c ↦ inr (rw (a, b, c))
                | inr c ↦ inl (sighting t load limit, rw (a, b, c))
              ]
      ]
    ]
evaluate_inputs_cases _ _ t s = inr refl

-- The events alternate, from a state that has fired or not to one that has or not: a suspicion
-- only when none is open, a clearance only when one is.
abbrev pub Alternates : Bool → List Event → Bool → Type 0
Alternates b [] c = b ≡ c
Alternates b (suspected _ ∷ es) c = (b ≡ false) × Alternates true es c
Alternates b (cleared _ ∷ es) c = (b ≡ true) × Alternates false es c

advance_match-Alternates :
    (seen : Suspicion) (s : CurtailmentState) (es : List Event) (c : Bool)
    → Alternates (advance_match seen s).0.fired es c
    → Alternates s.fired (events_of (advance_match seen s).1 ++ es) c
unfolding advance_match
advance_match-Alternates seen s es c h = ground arith

advance_non_match-Alternates :
    (s : CurtailmentState) (es : List Event) (c : Bool)
    → Alternates (advance_non_match s).0.fired es c
    → Alternates s.fired (events_of (advance_non_match s).1 ++ es) c
unfolding advance_non_match
advance_non_match-Alternates s es c h = ground arith

evaluate-Alternates :
    (t : Tick) (s : CurtailmentState) (es : List Event) (c : Bool)
    → Alternates (evaluate t s).0.fired es c
    → Alternates s.fired (events_of (evaluate t s).1 ++ es) c
unfolding evaluate
evaluate-Alternates t s es c h =
    elim (evaluate_inputs_cases t.house_load_kw t.grid_export_limit_kw t s) [
      | inl (seen, e) ↦ rw e (advance_match-Alternates seen s es c (rw e at h))
      | inr e ↦ rw e (advance_non_match-Alternates s es c (rw e at h))
    ]

-- Over any sequence of ticks the events are one suspicion and one clearance in turn, and the
-- state has fired exactly while the last event is a suspicion.
pub run-Alternates :
    (s : CurtailmentState) (ts : List Tick) → Alternates s.fired (run s ts).1 (run s ts).0.fired
unfolding run
run-Alternates s [] = refl
run-Alternates s (t ∷ ts) =
    evaluate-Alternates t s (run (evaluate t s).0 ts).1 _ (run-Alternates (evaluate t s).0 ts)

pub run-append :
    (s : CurtailmentState) (ts us : List Tick) → (run s (ts ++ us)).0 ≡ (run (run s ts).0 us).0
unfolding run
run-append s [] us = refl
run-append s (t ∷ ts) us = run-append (evaluate t s).0 ts us

-- The state after some matching ticks in a row, from one with `n` of them.
abbrev streak_of : ℕ → CurtailmentState
streak_of n = record { streak = n; fired = leb streak_threshold_ticks n }

evaluate_flat : (t : Tick) (n : ℕ) → IsFlatTop t → (evaluate t (streak_of n)).0 ≡ streak_of (n + 1)
unfolding evaluate advance_match
evaluate_flat t n h =
    let (seen, e) = evaluate_inputs_flat t.house_load_kw t.grid_export_limit_kw t (streak_of n) h in
    rw e (ground arith)

run_flat :
    (ts : List Tick) (n : ℕ)
    → All IsFlatTop ts
    → (run (streak_of n) ts).0 ≡ streak_of (n + length ts)
unfolding run
run_flat [] n h = ap streak_of (omega arith)
run_flat (t ∷ ts) n (h, hs) =
    rw (evaluate_flat t n h) (run_flat ts (n + 1) hs ∙ ap streak_of (omega arith))

-- After any ticks, one that is no flat top, and then only flat tops, the streak is their number
-- and the state has fired exactly if they are five or more.
pub run_streak :
    (s : CurtailmentState) (before : List Tick) (t : Tick) (flat : List Tick)
    → ¬ IsFlatTop t
    → All IsFlatTop flat
    → (run s (before ++ (t ∷ flat))).0
      ≡ record { streak = length flat; fired = leb streak_threshold_ticks (length flat) }
unfolding run evaluate advance_non_match
run_streak s before t flat other hs =
    run-append s before (t ∷ flat)
    ∙ ap (λ (o : Outcome). (run o.0 flat).0)
        (evaluate_inputs_other t.house_load_kw t.grid_export_limit_kw t (run s before).0 other)
    ∙ run_flat flat 0 hs
    ∙ ap streak_of (omega arith)
