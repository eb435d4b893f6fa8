-- ===== src/Tests/Loads.antt =====
-- The Shelly loads at concrete inputs.
use energy_optimiser.Prelude.{
  ℕ, ◌+◌, ◌≡◌, ◌≢◌, ◌≤◌, refl, true, false, none, some, List, [], ◌∷◌, pos, ◌+ℤ◌, ◌-ℤ◌, arith, map,
}
use energy_optimiser.Shelly.Types.{shiftable, running, complete_today, ManagedLoadConfig}
use energy_optimiser.Shelly.Meter.Today.{Reading, read_all, read_all_lem}
use energy_optimiser.Shelly.Relay.OnTime.{poll_all, poll_all_lem}
use energy_optimiser.Shelly.Controller.{Load, Poll, initial, nothing_done, status, start_cycle}
use energy_optimiser.Shelly.Controller.Actions.{poll, set, run}
use energy_optimiser.Shelly.Controller.Complete.{complete_for_good}
use energy_optimiser.Shelly.Controller.Stops.{is_running, cycle_end}

abbrev dishwasher : ManagedLoadConfig
dishwasher = record {
  load_id = "dishwasher";
  category = shiftable;
  has_relay = true;
  daily_energy_kwh = some (pos 1000);
  daily_target_kwh = none;
  daily_run_minutes = none;
  power_zero_threshold_kw = pos 20;
}

abbrev unused : Load
unused = initial dishwasher

-- Two hundred watt hours, a restart, and half a kilowatt hour after it.
abbrev morning : Reading
morning = record { at = 1000; imp = pos 7000; ret = pos 0 }

abbrev readings : List Reading
readings =
    record { at = 2000; imp = pos 7200; ret = pos 0 }
    ∷ record { at = 3000; imp = pos 100; ret = pos 0 }
    ∷ record { at = 4000; imp = pos 600; ret = pos 0 }
    ∷ []

fresh : unused.meter.today_date ≢ some 0
unfolding initial
fresh e = cc

never_polled : unused.on_minutes.relay_today_local_date ≢ some 0
unfolding initial
never_polled e = cc

read_all_example :
    ((read_all unused.meter (morning ∷ readings)).imp.energy_today_kwh
      ≡ pos 7200 -ℤ pos 7000 +ℤ (pos 0 +ℤ (pos 600 -ℤ pos 100 +ℤ pos 0)))
    × ((read_all unused.meter (morning ∷ readings)).ret.energy_today_kwh
        ≡ pos 0 -ℤ pos 0 +ℤ (pos 0 -ℤ pos 0 +ℤ (pos 0 -ℤ pos 0 +ℤ pos 0)))
unfolding initial ◌-ℤ◌
read_all_example = read_all_lem unused.meter morning readings fresh (refl, (refl, (refl, tt)))

poll_all_example :
    ((poll_all
        (λ t. 0)
        unused.on_minutes
        ((10, true) ∷ (70, true) ∷ (90, false) ∷ [])).relay_on_minutes_today
      ≡ 60)
    × (60 + 10 ≤ 90)
unfolding initial
poll_all_example =
    poll_all_lem (λ t. 0) unused.on_minutes 10 true ((70, true) ∷ (90, false) ∷ []) never_polled
      (refl, (refl, tt)) (omega arith, (omega arith, tt))

abbrev washing : Load
washing = record unused {
  cycle = record { state = running; started = some 100; pending_relay_stop = false };
}

abbrev satisfied : Load
satisfied = record unused {
  cycle = record { state = complete_today; started = some 100; pending_relay_stop = true };
}

abbrev quiet_poll : ℕ → Poll
quiet_poll t = record {
  act_power = some (pos 5);
  total_act_energy = some (pos 7000, pos 0);
  output = some true;
  energy_at = t;
  cycle_at = t;
  relay_at = t;
  minutes_at = t;
}

complete_for_good_example :
    let after =
      (run
        (λ t. 0)
        (poll (quiet_poll 200) ∷ set true false ∷ poll (quiet_poll 86_400_000_200) ∷ [])
        satisfied).load in
    (after.cycle.state ≡ complete_today)
    × (start_cycle true 86_400_000_300 after ≡ (nothing_done after, false))
unfolding initial
complete_for_good_example =
    complete_for_good (λ t. 0)
      (poll (quiet_poll 200) ∷ set true false ∷ poll (quiet_poll 86_400_000_200) ∷ []) satisfied
      true 86_400_000_300 refl refl

cycle_end_example :
    let ended = (status (λ t. 0) (quiet_poll 200) washing).0.load in
    (is_running ended.cycle.state ≡ false)
    × ((run (λ t. 0) (map poll (quiet_poll 300 ∷ quiet_poll 400 ∷ [])) ended).writes ≡ false ∷ [])
unfolding initial
cycle_end_example =
    cycle_end (λ t. 0) (quiet_poll 200) (quiet_poll 300) (quiet_poll 400 ∷ []) (pos 7000, pos 0)
      washing refl refl refl refl refl
