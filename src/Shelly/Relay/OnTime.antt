-- ===== src/Shelly/Relay/OnTime.antt =====
-- The time that the relay was on today.
use energy_optimiser.Prelude.{
  if◌then◌else◌, ◌-◌, ℕ, ◌+◌, ◌≤◌, ◌≡◌, ◌≢◌, refl, Bool, true, false, some, List, [], ◌∷◌, All,
  arith, ap, ◌∙◌,
}
use energy_optimiser.Shelly.Meter.Today.{other_day, this_day}
use energy_optimiser.Shelly.Relay.{OnMinutes, elapsed, track_relay_on_minutes}

module _ (local_date : ℕ → ℕ) where
  abbrev pub poll_all : OnMinutes → List (ℕ × Bool) → OnMinutes
  poll_all o [] = o
  poll_all o ((now, on) ∷ polls) = poll_all (track_relay_on_minutes local_date now on o) polls

  -- The intervals between polls that end with a relay that is on.
  abbrev pub on_time : ℕ → List (ℕ × Bool) → ℕ
  on_time last [] = 0
  on_time last ((now, on) ∷ polls) = (if on then now - last else 0) + on_time now polls

  abbrev pub last_at : ℕ → List (ℕ × Bool) → ℕ
  last_at last [] = last
  last_at last ((now, on) ∷ polls) = last_at now polls

  -- The polls do not go back in time.
  abbrev pub InOrder : ℕ → List (ℕ × Bool) → Type 0
  InOrder last [] = Unit
  InOrder last ((now, on) ∷ polls) = (last ≤ now) × InOrder now polls

  -- The accumulator of the day `d` after a poll at `last`.
  abbrev day_of : ℕ → ℕ → ℕ → OnMinutes
  day_of d minutes last = record {
    relay_on_minutes_today = minutes;
    relay_today_local_date = some d;
    last_status_at = some last;
  }

  within_day :
      (d minutes last now : ℕ) (on : Bool)
      → local_date now ≡ d
      → track_relay_on_minutes local_date now on (day_of d minutes last)
        ≡ day_of d (minutes + elapsed on (some last) now) now
  unfolding track_relay_on_minutes
  within_day d minutes last now on h = rw (h, this_day d) refl

  first_of_day :
      (o : OnMinutes) (now : ℕ) (on : Bool)
      → o.relay_today_local_date ≢ some (local_date now)
      → track_relay_on_minutes local_date now on o ≡ day_of (local_date now) 0 now
  unfolding track_relay_on_minutes
  first_of_day o now on h = rw (other_day o.relay_today_local_date (local_date now) h) refl

  elapsed_lem :
      (on : Bool) (last now : ℕ) → elapsed on (some last) now ≡ (if on then now - last else 0)
  elapsed_lem true last now = refl
  elapsed_lem false last now = refl

  poll_all-day :
      (d minutes last : ℕ) (polls : List (ℕ × Bool))
      → All (λ p. local_date p.0 ≡ d) polls
      → (poll_all (day_of d minutes last) polls).relay_on_minutes_today
        ≡ minutes + on_time last polls
  poll_all-day d minutes last [] h = omega arith
  poll_all-day d minutes last ((now, on) ∷ polls) (same, rest) =
      let step = within_day d minutes last now on same in
      let later = poll_all-day d (minutes + elapsed on (some last) now) now polls rest in
      ap (λ q. (poll_all q polls).relay_on_minutes_today) step
      ∙ later
      ∙ omega (arith, elapsed_lem on last now)

  interval_bound :
      (on : Bool) (last now : ℕ) → last ≤ now → (if on then now - last else 0) + last ≤ now
  interval_bound true last now h = omega arith
  interval_bound false last now h = omega arith

  on_time_bound :
      (last : ℕ) (polls : List (ℕ × Bool))
      → InOrder last polls
      → on_time last polls + last ≤ last_at last polls
  on_time_bound last [] h = omega arith
  on_time_bound last ((now, on) ∷ polls) (le, rest) =
      omega (arith, interval_bound on last now le, on_time_bound now polls rest)

  -- After any polls of a local day the accumulator holds the lengths of the intervals since the
  -- first poll of the day that ended with the relay on, and no more than the time since that poll.
  pub poll_all_lem :
      (o : OnMinutes) (now : ℕ) (on : Bool) (polls : List (ℕ × Bool))
      → o.relay_today_local_date ≢ some (local_date now)
      → All (λ p. local_date p.0 ≡ local_date now) polls
      → InOrder now polls
      → ((poll_all o ((now, on) ∷ polls)).relay_on_minutes_today ≡ on_time now polls)
        × (on_time now polls + now ≤ last_at now polls)
  poll_all_lem o now on polls new day order = (
    ap (λ q. (poll_all q polls).relay_on_minutes_today) (first_of_day o now on new)
        ∙ poll_all-day (local_date now) 0 now polls day
        ∙ omega arith,
    on_time_bound now polls order,
  )
