-- ===== src/Solcast/Quota/Steps.antt =====
-- What a wake and an answer do to the requests of a day.
use energy_optimiser.Prelude.{
  ℕ, ◌+◌, ◌-◌, ◌==◌, ◌≤◌, ◌<◌, ◌≡◌, ◌≢◌, ◌∙◌, ◌⊎◌, inl, inr, refl, Bool, true, false, Option, none,
  some, List, arith, subst, not, sym, ap, Bool-cases, if◌then◌else◌,
}
use energy_optimiser.Lp.Fallback.{Attempt, returned, raised}
use energy_optimiser.Lp.Forecast.{PvForecast}
use energy_optimiser.Solcast.{
  Event, SolcastConfig, SolcastClient, Reply, request_failed, not_json, items, date, is_dated,
  maybe_reset_quota, is_exhausted, begin_forecast, finish_forecast, begin_actuals, finish_actuals,
  finish_by_period_end, stored, spend, parse_items,
}
use energy_optimiser.Solcast.Quota.{sent, successes}

-- Whether a request of the day is waited for.
abbrev pub waits : ℕ → Option ℕ → ℕ
waits day o = if is_dated o day then 1 else 0

waits_bound : (day : ℕ) (o : Option ℕ) → waits day o ≤ 1
waits_bound day none = omega arith
waits_bound day (some d) = ground arith

is_dated_lem : (o : Option ℕ) (today : ℕ) → is_dated o today ≡ true → o ≡ some today
is_dated_lem none today e = cc
is_dated_lem (some d) today e = ground (arith, e)

-- The quota is counted for today after its reset.
reset_lem :
    (now : ℕ) (c : SolcastClient)
    → ((maybe_reset_quota now c).quota_date ≡ some (date now))
      × ((maybe_reset_quota now c).call_count_today
          ≡ (if is_dated c.quota_date (date now) then c.call_count_today else 0))
unfolding maybe_reset_quota
reset_lem now c = elim (Bool-cases (is_dated c.quota_date (date now))) [
  | inl e ↦ rw e (is_dated_lem c.quota_date (date now) e, refl)
  | inr e ↦ rw e (refl, refl)
]

room :
    (config : SolcastConfig) (c : SolcastClient)
    → is_exhausted config c ≡ false
    → c.call_count_today + 1 ≤ config.max_calls_per_day - config.safety_buffer
room config c e = ground (arith, e)

-- An answer is counted, whatever the date.
abbrev pub Counts : ℕ → SolcastClient → SolcastClient → Type 0
Counts k c c' = (c'.quota_date ≡ c.quota_date) × (c'.call_count_today ≡ c.call_count_today + k)

stored-Counts :
    (at : ℕ) (fs : Attempt (List PvForecast)) (c : SolcastClient)
    → Counts 1 c (stored at fs (spend c)).1
stored-Counts at raised c = (refl, refl)
stored-Counts at (returned fs) c = (refl, refl)

pub forecast-Counts :
    (at : ℕ) (reply : Reply) (c : SolcastClient)
    → Counts (successes reply) c (finish_forecast at reply c).1
unfolding finish_forecast
forecast-Counts at request_failed c = (refl, omega arith)
forecast-Counts at not_json c = (refl, refl)
forecast-Counts at (items is) c = stored-Counts at (parse_items is) c

pub actuals-Counts :
    (reply : Reply) (c : SolcastClient)
    → Counts (successes reply) c (finish_by_period_end reply c).1
unfolding finish_by_period_end finish_actuals
actuals-Counts request_failed c = (refl, omega arith)
actuals-Counts not_json c = (refl, refl)
actuals-Counts (items is) c = (refl, refl)

module _ (config : SolcastConfig) (day : ℕ) where
  abbrev pub limit : ℕ
  limit = config.max_calls_per_day - config.safety_buffer

  -- What both handlers do before their requests.
  abbrev pub Begins {ℓ} :
      {A : Type ℓ} → ℕ → SolcastClient → Option A × SolcastClient × List Event → Type 0
  Begins now c (result, c', _) =
      (c' ≡ maybe_reset_quota now c)
      × (sent result now
          ≡ (if not (is_exhausted config (maybe_reset_quota now c)) then some (date now) else none))

  pub begin_forecast-Begins :
      (now : ℕ) (c : SolcastClient) → Begins now c (begin_forecast config now c)
  unfolding begin_forecast
  begin_forecast-Begins now c = elim (Bool-cases (is_exhausted config (maybe_reset_quota now c))) [
    | inl e ↦ rw e (refl, refl)
    | inr e ↦ rw e (refl, refl)
  ]

  pub begin_actuals-Begins :
      (now : ℕ) (c : SolcastClient) → Begins now c (begin_actuals config now c)
  unfolding begin_actuals
  begin_actuals-Begins now c = elim (Bool-cases (is_exhausted config (maybe_reset_quota now c))) [
    | inl e ↦ rw e (refl, refl)
    | inr e ↦ rw e (refl, refl)
  ]

  -- With n successes of the day so far: it is that day, and the client has counted them; or its
  -- quota is of another date and nothing was sent on the day; or the day is over.
  abbrev pub Sound : ℕ → ℕ → SolcastClient → Option ℕ → Option ℕ → Type 0
  Sound today n c f a =
      ((c.quota_date ≡ some day)
        × (day ≤ today)
        × (n ≤ c.call_count_today)
        × (n + waits day f + waits day a ≤ limit + 1))
      ⊎ ((is_dated c.quota_date day ≡ false) × (n + waits day f + waits day a ≡ 0))
      ⊎ ((day < today) × (n + waits day f + waits day a ≤ limit + 1))

  pub swapped :
      (today n : ℕ) (c : SolcastClient) (f a : Option ℕ) → Sound today n c f a → Sound today n c a f
  swapped today n c f a (inl (q, d, k, h)) = inl (q, d, k, omega (arith, h))
  swapped today n c f a (inr (inl (q, h))) = inr (inl (q, omega (arith, h)))
  swapped today n c f a (inr (inr (q, h))) = inr (inr (q, omega (arith, h)))

  pub bounded :
      (today n : ℕ) (c : SolcastClient) (f a : Option ℕ) → Sound today n c f a → n ≤ limit + 1
  bounded today n c f a (inl (q, d, k, h)) = omega (arith, h)
  bounded today n c f a (inr (inl (q, h))) = omega (arith, h)
  bounded today n c f a (inr (inr (q, h))) = omega (arith, h)

  -- An answer, with k counted.
  pub answered :
      (today n k d : ℕ) (c c' : SolcastClient) (a : Option ℕ)
      → k ≤ 1
      → Counts k c c'
      → Sound today n c (some d) a
      → Sound today (n + (if d == day then k else 0)) c' none a
  answered today n k d c c' a one (dated, count) (inl (q, t, m, h)) =
      inl (dated ∙ q, t, ground (arith, count, m), ground (arith, one, h))
  answered today n k d c c' a one (dated, count) (inr (inl (q, h))) =
      inr (inl (rw dated q, ground (arith, h)))
  answered today n k d c c' a one (dated, count) (inr (inr (q, h))) =
      inr (inr (q, ground (arith, one, h)))

  has_room :
      (c : SolcastClient) → (not (is_exhausted config c) ≡ false) ⊎ (c.call_count_today + 1 ≤ limit)
  has_room c = elim (Bool-cases (is_exhausted config c)) [
    | inl e ↦ inl (rw e refl)
    | inr e ↦ inr (room config c e)
  ]

  sent_bound :
      (n k w : ℕ) (sending : Bool)
      → w ≤ 1
      → n ≤ k
      → n + w ≤ limit + 1
      → (sending ≡ false) ⊎ (k + 1 ≤ limit)
      → n + waits day (if sending then some day else none) + w ≤ limit + 1
  sent_bound n k w false one m h room = omega (arith, h)
  sent_bound n k w true one m h (inl e) = cc
  sent_bound n k w true one m h (inr r) = ground (arith, one, m, r)

  sent_elsewhere :
      (now : ℕ) (sending : Bool) → now ≢ day → waits day (if sending then some now else none) ≡ 0
  sent_elsewhere now true n = ground (arith, n)
  sent_elsewhere now false n = refl

  dated_elsewhere : (now : ℕ) → now ≢ day → (now == day) ≡ false
  dated_elsewhere now n = ground (arith, n)

  -- A wake on the day, with a request sent if there is room.
  woken_on_the_day :
      (today n : ℕ) (c c' : SolcastClient) (sending : Bool) (a : Option ℕ)
      → today ≤ day
      → c'.quota_date ≡ some day
      → c'.call_count_today ≡ (if is_dated c.quota_date day then c.call_count_today else 0)
      → (sending ≡ false) ⊎ (c'.call_count_today + 1 ≤ limit)
      → Sound today n c none a
      → Sound day n c' (if sending then some day else none) a
  woken_on_the_day today n c c' sending a t dated count room (inl (q, d, m, h)) =
      let counted : c'.call_count_today ≡ c.call_count_today = count ∙ rw q (ground arith) in
      inl (
        dated,
        omega arith,
        omega (arith, counted, m),
        sent_bound n c'.call_count_today (waits day a) sending (waits_bound day a)
            (omega (arith, counted, m)) (omega (arith, h)) room,
      )
  woken_on_the_day today n c c' sending a t dated count room (inr (inl (q, h))) = inl (
    dated,
    omega arith,
    omega (arith, h),
    sent_bound n c'.call_count_today (waits day a) sending (waits_bound day a) (omega (arith, h))
        (omega (arith, h)) room,
  )
  woken_on_the_day today n c c' sending a t dated count room (inr (inr (q, h))) =
      absurd (omega (arith, q, t))

  woken_on_another :
      (today now n : ℕ) (c c' : SolcastClient) (sending : Bool) (a : Option ℕ)
      → today ≤ now
      → now ≢ day
      → c'.quota_date ≡ some now
      → Sound today n c none a
      → Sound now n c' (if sending then some now else none) a
  woken_on_another today now n c c' sending a t other dated (inl (q, d, m, h)) =
      inr (inr (omega (arith, d, t, other), omega (arith, h, sent_elsewhere now sending other)))
  woken_on_another today now n c c' sending a t other dated (inr (inl (q, h))) = inr (
      inl
        (rw dated (dated_elsewhere now other), omega (arith, h, sent_elsewhere now sending other)))
  woken_on_another today now n c c' sending a t other dated (inr (inr (q, h))) =
      inr (inr (omega (arith, q, t), omega (arith, h, sent_elsewhere now sending other)))

  -- A wake after which a request is sent if the quota is not spent.
  woken :
      (today now n : ℕ) (c : SolcastClient) (a : Option ℕ)
      → today ≤ date now
      → Sound today n c none a
      → let c' = maybe_reset_quota now c in
        Sound (date now) n c' (if not (is_exhausted config c') then some (date now) else none) a
  woken today now n c a t s =
      let c' = maybe_reset_quota now c in
      let (dated, count) = reset_lem now c in
      let sending = not (is_exhausted config c') in
      elim (Bool-cases (date now == day)) [
        | inl e ↦
            let same : date now ≡ day = ground (arith, e) in
            subst (λ d. Sound d n c' (if sending then some d else none) a) (sym same)
              (woken_on_the_day today n c c' sending a (omega (arith, t, same))
                (dated ∙ ap some same)
                (count ∙ ap (λ d. if is_dated c.quota_date d then c.call_count_today else 0) same)
                (has_room c') s)
        | inr e ↦ woken_on_another today (date now) n c c' sending a t (ground (arith, e)) dated s
      ]

  pub begun :
      {A : Type 0} (today now n : ℕ) (c : SolcastClient) (a : Option ℕ)
      (o : Option A × SolcastClient × List Event)
      → today ≤ date now
      → Begins now c o
      → Sound today n c none a
      → Sound (date now) n o.1 (sent o.0 now) a
  begun today now n c a o t (client, slot) s =
      subst (λ f. Sound (date now) n o.1 f a) (sym slot)
        (subst
          (λ c'.
            Sound (date now) n c'
              (if not (is_exhausted config (maybe_reset_quota now c))
                then some (date now)
                else none)
              a)
          (sym client) (woken today now n c a t s))

  pub later :
      (today t n : ℕ) (c : SolcastClient) (f a : Option ℕ)
      → today ≤ t
      → Sound today n c f a
      → Sound t n c f a
  later today t n c f a le (inl (q, d, m, h)) = inl (q, omega (arith, d, le), m, h)
  later today t n c f a le (inr (inl (q, h))) = inr (inl (q, h))
  later today t n c f a le (inr (inr (q, h))) = inr (inr (omega (arith, q, le), h))

  pub nothing_added :
      (today n : ℕ) (c : SolcastClient) (f a : Option ℕ)
      → Sound today n c f a
      → Sound today (n + 0) c f a
  nothing_added today n c f a s =
      let same : n ≡ n + 0 = omega arith in subst (λ m. Sound today m c f a) same s

  pub successes_bound : (reply : Reply) → successes reply ≤ 1
  successes_bound request_failed = omega arith
  successes_bound not_json = omega arith
  successes_bound (items is) = omega arith
