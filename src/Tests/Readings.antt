-- ===== src/Tests/Readings.antt =====
-- Validations of rows at concrete readings.
use energy_optimiser.Prelude.{◌≡◌, refl, true, none, some, [], ◌∷◌, pos, negsuc, arith, ℤ, scale}
use energy_optimiser.Validation.{
  Field, grid_kw, house_load_kw, soc_pct, pcs_temp_c, grid_freq_hz, Row, Context,
  validate_telemetry, extended_bounds, notes, check_sensor, check_load, check_soc, check_bom,
  check_outlier, check_divergence, check_bounds,
}
use energy_optimiser.Validation.Accepted.{Plausible}
use energy_optimiser.Validation.Verdict.{validate_telemetry_lem}

-- The sign of the temperature is flipped, the load is slightly negative.
abbrev noisy : Row
noisy grid_kw = some (pos 1200)
noisy house_load_kw = some (negsuc 49)
noisy soc_pct = some (pos 81_500)
noisy pcs_temp_c = some (negsuc 3_199_999)
noisy grid_freq_hz = some (pos 50_010)
noisy _ = none

abbrev clean : Row
clean grid_kw = some (pos 1200)
clean soc_pct = some (pos 100_000)
clean _ = none

abbrev at_noon : Context
at_noon = record {
  grid_sensor_online = true;
  bom_data_age = some (pos 60_000_000);
  rolling_p95 = some (pos 4000);
  grid_kw_shelly = none;
}

noisy_rejected : (validate_telemetry noisy at_noon).1.rejected_fields ≡ pcs_temp_c ∷ []
unfolding validate_telemetry notes check_sensor check_load check_soc check_bom check_outlier
    check_divergence check_bounds extended_bounds scale
noisy_rejected = refl

validate_telemetry_lem_example :
    (validate_telemetry noisy at_noon).0 grid_freq_hz ≡ some (pos 50_010)
validate_telemetry_lem_example =
    (validate_telemetry_lem noisy at_noon grid_freq_hz (pos 50_010)).1
      (refl, (omega arith, omega arith))

clean-Plausible : (f : Field) (v : ℤ) → clean f ≡ some v → Plausible at_noon f v
clean-Plausible grid_kw v e = refl
clean-Plausible soc_pct v e = ground (arith, e)
clean-Plausible _ v e = ground (arith, e)
