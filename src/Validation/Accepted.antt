-- ===== src/Validation/Accepted.antt =====
-- Which readings a validation lets through.
use energy_optimiser.Prelude.{
  true, ◌≤ℤ◌, ◌≡◌, refl, Bool, false, ◌&&◌, ◌||◌, Option, none, some, if◌then◌else◌, ◌↔◌, List, [],
  ◌∷◌, ◌++◌, ℤ, pos, negsuc, arith, not, leb_ℤ, ltb_ℤ, is_some,
}
use energy_optimiser.Validation.{
  notes, Field, grid_kw, house_load_kw, soc_pct, outdoor_temp_c, same, cell_temp_avg_c,
  cell_temp_max_c, cell_temp_min_c, pcs_temp_c, cell_volt_avg_v, soh_pct, available_charge_kw,
  available_discharge_kw, grid_freq_hz, phase_a_voltage_v, phase_b_voltage_v, phase_c_voltage_v,
  mppt1_voltage_v, mppt2_voltage_v, mppt3_voltage_v, mppt4_voltage_v, mppt1_current_a,
  mppt2_current_a, mppt3_current_a, mppt4_current_a, lifetime_pv_kwh, lifetime_load_kwh,
  lifetime_charge_kwh, lifetime_discharge_kwh, lifetime_import_kwh, lifetime_export_kwh, Row, Bound,
  extended_bounds, Notes, no_notes, contains, Context, is_stale, is_outside, reject_outside,
  check_sensor, check_load, check_soc, check_bom, check_outlier, check_divergence, check_bounds,
}

contains-append :
    (fs gs : List Field) (f : Field) → contains (fs ++ gs) f ≡ (contains fs f || contains gs f)
contains-append [] gs f = refl
contains-append (g ∷ fs) gs f = ground (arith, contains-append fs gs f)

-- Some bound of the list is about the field and rules its reading out.
abbrev outside_some : List Bound → Row → Field → Bool
outside_some [] row f = false
outside_some (b ∷ bs) row f =
    (same b.field f && is_outside b (row b.field)) || outside_some bs row f

check_bounds_overrides :
    (bs : List Bound) (row : Row) (n : Notes) (f : Field)
    → contains (check_bounds bs row n).overrides f
      ≡ (contains n.overrides f || outside_some bs row f)
unfolding check_bounds
check_bounds_overrides [] row n f = ground arith
check_bounds_overrides (b ∷ bs) row n f = ground (
  arith,
  check_bounds_overrides bs row (reject_outside b (row b.field) n) f,
  contains-append n.overrides (b.field ∷ []) f,
)

abbrev soc_outside : Option ℤ → Bool
soc_outside none = false
soc_outside (some v) = not (leb_ℤ (pos 0) v && leb_ℤ v (pos 100_000))

abbrev load_negative : Option ℤ → Bool
load_negative none = false
load_negative (some v) = ltb_ℤ v (negsuc 99)

-- The row after the checks, as a test on each field.
unfoldable pub rejects : Row → Context → Field → Bool
rejects row c f =
    ((same outdoor_temp_c f && (is_some (row outdoor_temp_c) && is_stale c.bom_data_age))
      || ((same soc_pct f && soc_outside (row soc_pct))
          || ((same house_load_kw f && load_negative (row house_load_kw))
              || ((same grid_kw f || same house_load_kw f) && not c.grid_sensor_online))))
    || outside_some extended_bounds row f

sensor_overrides :
    (c : Context) (f : Field)
    → contains (check_sensor c no_notes).overrides f
      ≡ ((same grid_kw f || same house_load_kw f) && not c.grid_sensor_online)
unfolding check_sensor
sensor_overrides c f = ground arith

module _ (n : Notes) (f : Field) where
  load_overrides :
      (load : Option ℤ)
      → contains (check_load load n).overrides f
        ≡ ((same house_load_kw f && load_negative load) || contains n.overrides f)
  unfolding check_load
  load_overrides none = ground arith
  load_overrides (some v) = ground (arith, contains-append n.overrides (house_load_kw ∷ []) f)

  soc_overrides :
      (soc : Option ℤ)
      → contains (check_soc soc n).overrides f
        ≡ ((same soc_pct f && soc_outside soc) || contains n.overrides f)
  unfolding check_soc
  soc_overrides none = ground arith
  soc_overrides (some v) = ground (arith, contains-append n.overrides (soc_pct ∷ []) f)

  bom_overrides :
      (temp age : Option ℤ)
      → contains (check_bom temp age n).overrides f
        ≡ ((same outdoor_temp_c f && (is_some temp && is_stale age)) || contains n.overrides f)
  unfolding check_bom
  bom_overrides none age = ground arith
  bom_overrides (some v) age = ground (arith, contains-append n.overrides (outdoor_temp_c ∷ []) f)

  warnings_only :
      (load p95 grid shelly : Option ℤ)
      → (check_divergence grid shelly (check_outlier load p95 n)).overrides ≡ n.overrides
  unfolding check_divergence check_outlier
  warnings_only (some a) (some b) (some c) (some d) = ground arith
  warnings_only (some a) (some b) _ _ = ground arith
  warnings_only _ _ (some c) (some d) = ground arith
  warnings_only _ _ _ _ = ground arith

pub notes_overrides :
    (row : Row) (c : Context) (f : Field) → contains (notes row c).overrides f ≡ rejects row c f
unfolding notes rejects
notes_overrides row c f = rw (
  check_bounds_overrides, warnings_only, bom_overrides, soc_overrides, load_overrides,
  sensor_overrides,
)

-- The range of a reading in which the source's comments place it, in thousandths.
abbrev pub Within : ℤ → ℤ → ℤ → Type 0
Within low high v = (low ≤ℤ v) × (v ≤ℤ high)

-- The forecast data has no known age, or is at most two hours old.
abbrev pub NotOld : Option ℤ → Type 0
NotOld none = Unit
NotOld (some age) = age ≤ℤ pos 7_200_000_000

is_stale-NotOld : (age : Option ℤ) → is_stale age ≡ false ↔ NotOld age
is_stale-NotOld none = (λ e. tt, λ h. refl)
is_stale-NotOld (some age) = ground arith

abbrev pub Plausible : Context → Field → ℤ → Type 0
Plausible c grid_kw v = c.grid_sensor_online ≡ true
Plausible c house_load_kw v = (c.grid_sensor_online ≡ true) × (negsuc 99 ≤ℤ v)
Plausible c soc_pct v = Within (pos 0) (pos 100_000) v
Plausible c outdoor_temp_c v = NotOld c.bom_data_age
Plausible c cell_temp_avg_c v = Within (negsuc 39_999) (pos 100_000) v
Plausible c cell_temp_max_c v = Within (negsuc 39_999) (pos 100_000) v
Plausible c cell_temp_min_c v = Within (negsuc 39_999) (pos 100_000) v
Plausible c pcs_temp_c v = Within (negsuc 39_999) (pos 120_000) v
Plausible c cell_volt_avg_v v = Within (pos 1500) (pos 5000) v
Plausible c soh_pct v = Within (pos 0) (pos 100_000) v
Plausible c available_charge_kw v = Within (pos 0) (pos 50_000) v
Plausible c available_discharge_kw v = Within (pos 0) (pos 50_000) v
Plausible c grid_freq_hz v = Within (pos 40_000) (pos 70_000) v
Plausible c phase_a_voltage_v v = Within (pos 0) (pos 300_000) v
Plausible c phase_b_voltage_v v = Within (pos 0) (pos 300_000) v
Plausible c phase_c_voltage_v v = Within (pos 0) (pos 300_000) v
Plausible c mppt1_voltage_v v = Within (negsuc 49_999) (pos 700_000) v
Plausible c mppt2_voltage_v v = Within (negsuc 49_999) (pos 700_000) v
Plausible c mppt3_voltage_v v = Within (negsuc 49_999) (pos 700_000) v
Plausible c mppt4_voltage_v v = Within (negsuc 49_999) (pos 700_000) v
Plausible c mppt1_current_a v = Within (negsuc 49_999) (pos 50_000) v
Plausible c mppt2_current_a v = Within (negsuc 49_999) (pos 50_000) v
Plausible c mppt3_current_a v = Within (negsuc 49_999) (pos 50_000) v
Plausible c mppt4_current_a v = Within (negsuc 49_999) (pos 50_000) v
Plausible c lifetime_pv_kwh v = Within (pos 0) (pos 1_000_000_000_000_000) v
Plausible c lifetime_load_kwh v = Within (pos 0) (pos 1_000_000_000_000_000) v
Plausible c lifetime_charge_kwh v = Within (pos 0) (pos 1_000_000_000_000_000) v
Plausible c lifetime_discharge_kwh v = Within (pos 0) (pos 1_000_000_000_000_000) v
Plausible c lifetime_import_kwh v = Within (pos 0) (pos 1_000_000_000_000_000) v
Plausible c lifetime_export_kwh v = Within (pos 0) (pos 1_000_000_000_000_000) v

accepted_temp :
    (row : Row) (c : Context) (v : ℤ)
    → (if rejects row c outdoor_temp_c then none else row outdoor_temp_c) ≡ some v
      ↔ (row outdoor_temp_c ≡ some v) × (is_stale c.bom_data_age ≡ false)
unfolding rejects same extended_bounds
accepted_temp row c v = ground arith

pub accepted :
    (row : Row) (c : Context) (f : Field) (v : ℤ)
    → (if rejects row c f then none else row f) ≡ some v ↔ (row f ≡ some v) × Plausible c f v
unfolding rejects same extended_bounds
accepted row c grid_kw v = ground arith
accepted row c house_load_kw v = ground arith
accepted row c outdoor_temp_c v =
    let (old, old') = is_stale-NotOld c.bom_data_age in
    let (there, back) = accepted_temp row c v in
    (λ e. ((there e).0, old (there e).1), λ h. back (h.0, old' h.1))
accepted row c _ v = ground arith
