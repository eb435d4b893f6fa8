-- ===== src/Shelly/Meter.antt =====
-- src/optimiser/clients/shelly.py: the energy of the day, from the lifetime counters.
pub mod Today
use energy_optimiser.Prelude.{
  ℕ, ◌==◌, Bool, true, false, ◌||◌, Option, none, some, List, [], ◌∷◌, ℤ, pos, ◌-ℤ◌, ltb_ℤ,
  if◌then◌else◌,
}
use energy_optimiser.Shelly.Types.{Event, validation_warning, utc_date}

-- What is kept of one of the two counters, imported and returned.
pub record Side : Type 0 where
  pub energy_at_cycle_start : ℤ
  pub energy_today_kwh : ℤ
  pub last_total_energy_kwh : Option ℤ

pub record Meter : Type 0 where
  pub today_date : Option ℕ
  pub imp : Side
  pub ret : Side

abbrev pub counter_reset_threshold_kwh : ℤ
counter_reset_threshold_kwh = pos 100

-- `last is not None and total < last - threshold`
abbrev pub is_reset : Option ℤ → ℤ → Bool
is_reset none total = false
is_reset (some last) total = ltb_ℤ total (last -ℤ counter_reset_threshold_kwh)

abbrev pub is_day : Option ℕ → ℕ → Bool
is_day none today = false
is_day (some date) today = date == today

abbrev pub new_side : ℤ → Side
new_side total = record {
  energy_at_cycle_start = total;
  energy_today_kwh = pos 0;
  last_total_energy_kwh = some total;
}

-- A reset shifts the baseline, then the day's energy is the total less the baseline.
unfoldable pub track_side : ℤ → Side → Side
track_side total s =
    let start =
      if is_reset s.last_total_energy_kwh total
      then total -ℤ s.energy_today_kwh
      else s.energy_at_cycle_start in
    record {
      energy_at_cycle_start = start;
      energy_today_kwh = total -ℤ start;
      last_total_energy_kwh = some total;
    }

unfoldable pub track_daily_energy : ℕ → ℤ → ℤ → Meter → Meter × List Event
track_daily_energy now total_energy_kwh total_energy_ret_kwh m =
    let today = utc_date now in
    if is_day m.today_date today
    then (
      record m {
        imp = track_side total_energy_kwh m.imp;
        ret = track_side total_energy_ret_kwh m.ret;
      },
      if is_reset m.imp.last_total_energy_kwh total_energy_kwh
            || is_reset m.ret.last_total_energy_kwh total_energy_ret_kwh
          then validation_warning ∷ []
          else [],
    )
    else (
      record {
        today_date = some today;
        imp = new_side total_energy_kwh;
        ret = new_side total_energy_ret_kwh;
      },
      [],
    )

-- `_energy_today_kwh`: imported less returned.
abbrev pub energy_today : Meter → ℤ
energy_today m = m.imp.energy_today_kwh -ℤ m.ret.energy_today_kwh
